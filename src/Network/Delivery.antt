-- ===== src/Network/Delivery.antt =====
-- src/rpc_server.cpp on several nodes: where the updates of a job end.
use open_workload_scheduler.Base.{ℕ, zero, suc, ◌<◌, String, true, some, ◌≡◌, refl, arith, ap, ◌∙◌}
use open_workload_scheduler.Base.Int.{ℤ}
use open_workload_scheduler.Effect.{blocked}
use open_workload_scheduler.Model.{Job, RoutingData}
use open_workload_scheduler.Config.{active, get_param}
use open_workload_scheduler.Domain.Insertions
use open_workload_scheduler.Domain.Updates
use open_workload_scheduler.Server.Remote.{Remote}
use open_workload_scheduler.Network.{Member, Network, listens, one_hop, within}
use open_workload_scheduler.Network.Clauses.{
  sent_as, sent_as_job, sent_as_job_and_node, job_clauses, job_and_node_clauses,
}
use open_workload_scheduler.Network.Throwing.{
  add_job_throws, update_job_throws, remove_job_throws, update_state_of_throws,
}
use open_workload_scheduler.Network.Relay.{IsValid, IsRelay, hands_on, takes}

module _ (network : Network) (target : String) (port : ℤ) where
  -- From the host, the gateways lead over that many nodes to the member of the target's name.
  pub data Leads : String → ℕ → Member → Type 0 where
    arrives :
        (host : String) (m : Member)
        → network host ≡ some m
        → listens m port ≡ true
        → m.config.running_mode ≡ some active
        → get_param "node_name" m.config ≡ some target
        → Leads host 0 m
    passes :
        (host g : String) (m m' : Member) (k : ℕ)
        → network host ≡ some m
        → listens m port ≡ true
        → IsRelay m.platform m.config target g port m.server
        → Leads g k m'
        → Leads host (suc k) m'

module _ (network : Network) (port : ℤ) {routing : RoutingData} {j : Job}
    (v : IsValid routing j) where
  relayed :
      (net : Remote) (host g : String) (m : Member)
      → network host ≡ some m
      → listens m port ≡ true
      → IsRelay m.platform m.config j.node_name g port m.server
      → let net' = one_hop network net in
        (net'.add_job host port routing j
          ≡ sent_as job_and_node_clauses (net.add_job g port routing j))
        × (net'.update_job host port routing j
            ≡ sent_as job_clauses (net.update_job g port routing j))
        × (net'.remove_job host port routing j
            ≡ sent_as job_clauses (net.remove_job g port routing j))
        × (net'.update_job_state host port routing j
            ≡ sent_as job_clauses (net.update_job_state g port routing j))
  unfolding one_hop
  relayed net host g m up listening relay =
      let h = hands_on m.platform m.config net v g port m.server relay in
      (ground (arith, h.0), ground (arith, h.1), ground (arith, h.2), ground (arith, h.3))

  taken :
      (net : Remote) (host : String) (m : Member)
      → network host ≡ some m
      → listens m port ≡ true
      → m.config.running_mode ≡ some active
      → get_param "node_name" m.config ≡ some j.node_name
      → let net' = one_hop network net in
        let domain_name = routing.target_node.domain_name in
        let d = m.server.domain in
        (net'.add_job host port routing j ≡ (Insertions.add_job m.platform domain_name j d).0)
        × (net'.update_job host port routing j ≡ (Updates.update_job m.platform j d).0)
        × (net'.remove_job host port routing j ≡ (Updates.remove_job m.platform j d).0)
        × (net'.update_job_state host port routing j
            ≡ (Updates.update_state_of m.platform domain_name j d).0)
  unfolding one_hop
  taken net host m up listening is_active is_named =
      let p = m.platform in
      let d = m.server.domain in
      let domain_name = routing.target_node.domain_name in
      let h = takes p m.config net v m.server is_active is_named in
      let a = sent_as_job_and_node _ (add_job_throws p domain_name j d) in
      let b = sent_as_job _ (update_job_throws p j d) in
      let e = sent_as_job _ (remove_job_throws p j d) in
      let f = sent_as_job _ (update_state_of_throws p domain_name j d) in
      (
        ground (arith, h.0, a),
        ground (arith, h.1, b),
        ground (arith, h.2, e),
        ground (arith, h.3, f),
      )

  -- On a network of nodes whose handlers answer one another: if from a host the gateways lead,
  -- through nodes in ACTIVE that are neither the node of the job nor their configured master and
  -- listen at the port that the others open, to the node of the job, which is in ACTIVE too, then
  -- with valid arguments the calls add_job, update_job, remove_job and update_job_state on that
  -- host end within as many further nodes as the way is long, and exactly as the operation of the
  -- same name on the domain of the node of the job ends there.
  pub delivers :
      (host : String) (k nodes : ℕ) (m : Member)
      → Leads network j.node_name port host k m
      → k < nodes
      → let net = within network nodes in
        let domain_name = routing.target_node.domain_name in
        let d = m.server.domain in
        (net.add_job host port routing j ≡ (Insertions.add_job m.platform domain_name j d).0)
        × (net.update_job host port routing j ≡ (Updates.update_job m.platform j d).0)
        × (net.remove_job host port routing j ≡ (Updates.remove_job m.platform j d).0)
        × (net.update_job_state host port routing j
            ≡ (Updates.update_state_of m.platform domain_name j d).0)
  unfolding within
  delivers host k zero m leads h = absurd (omega arith)
  delivers host k (suc nodes) m (arrives _ _ up listening is_active is_named) h =
      taken (within network nodes) host m up listening is_active is_named
  delivers host k (suc nodes) m (passes _ g relay _ k' up listening relays leads) h =
      let p = m.platform in
      let d = m.server.domain in
      let domain_name = routing.target_node.domain_name in
      let step = relayed (within network nodes) host g relay up listening relays in
      let rest = delivers g k' nodes m leads (omega arith) in
      (
        step.0
            ∙ ap (sent_as job_and_node_clauses) rest.0
            ∙ sent_as_job_and_node _ (add_job_throws p domain_name j d),
        step.1 ∙ ap (sent_as job_clauses) rest.1 ∙ sent_as_job _ (update_job_throws p j d),
        step.2 ∙ ap (sent_as job_clauses) rest.2 ∙ sent_as_job _ (remove_job_throws p j d),
        step.3
            ∙ ap (sent_as job_clauses) rest.3
            ∙ sent_as_job _ (update_state_of_throws p domain_name j d),
      )

  -- On a network of nodes whose handlers answer one another: if every host of a set is a listening
  -- node in ACTIVE that is neither the node of the job nor its configured master, and whose gateway
  -- to the node of the job is a host of the set again, then with valid arguments the calls add_job,
  -- update_job, remove_job and update_job_state on a host of the set have no answer, however many
  -- nodes they cross.
  pub circles_never_end :
      (Circle : String → Type 0)
      → ((host : String)
          → Circle host
          → (g : String) × (m : Member) × (network host ≡ some m)
            × (listens m port ≡ true)
            × IsRelay m.platform m.config j.node_name g port m.server
            × Circle g)
      → (host : String) (nodes : ℕ) → Circle host
      → let net = within network nodes in
        (net.add_job host port routing j ≡ blocked)
        × (net.update_job host port routing j ≡ blocked)
        × (net.remove_job host port routing j ≡ blocked)
        × (net.update_job_state host port routing j ≡ blocked)
  unfolding within
  circles_never_end Circle turns host zero inside = (refl, refl, refl, refl)
  circles_never_end Circle turns host (suc nodes) inside =
      let (g, m, up, listening, relays, inside') = turns host inside in
      let step = relayed (within network nodes) host g m up listening relays in
      let rest = circles_never_end Circle turns g nodes inside' in
      (
        step.0 ∙ ap (sent_as job_and_node_clauses) rest.0,
        step.1 ∙ ap (sent_as job_clauses) rest.1,
        step.2 ∙ ap (sent_as job_clauses) rest.2,
        step.3 ∙ ap (sent_as job_clauses) rest.3,
      )
