-- ===== src/Network/Questions.antt =====
-- src/rpc_server.cpp on several nodes: where the questions to a target node end.
use open_workload_scheduler.Base.{
  ℕ, zero, suc, ◌<◌, String, Bool, true, false, some, List, ◌≡◌, ap, ◌∙◌, arith, empty, eq_iff,
}
use open_workload_scheduler.Base.Int.{ℤ}
use open_workload_scheduler.Effect.{Outcome, Exception, returned}
use open_workload_scheduler.Platform.{Platform, int}
use open_workload_scheduler.Model.{Job, Node, RoutingData, new_node}
use open_workload_scheduler.Config.{Config, active, get_param}
use open_workload_scheduler.Domain.Reads
use open_workload_scheduler.Domain.Ready
use open_workload_scheduler.Router.Peers.{read_port}
use open_workload_scheduler.Server.State.{
  Server, check_caller, check_routing_args, running_mode, forward, gateway_to, is_this_node,
  open_client, is_ex_job, is_ex_node,
}
use open_workload_scheduler.Server.Remote.{Remote}
use open_workload_scheduler.Server.Forwarding.{is_this_node_lem}
use open_workload_scheduler.Server.Nodes.{target_or_forward, get_node, get_nodes}
use open_workload_scheduler.Server.Jobs.{
  get_jobs, get_ready_jobs, read_jobs, monitor, monitor_failed_jobs, monitor_waiting_jobs,
}
use open_workload_scheduler.Network.{Member, Network, listens, one_hop, within}
use open_workload_scheduler.Network.Clauses.{
  sent_as, sent_as_again, node_clauses, job_clauses, processing_clauses,
}
use open_workload_scheduler.Network.Relay.{IsRelay, forward_and_return-outcome}
use open_workload_scheduler.Network.Delivery.{Leads, arrives, passes}

-- The routing data that the handlers accept.
pub record IsRouted (routing : RoutingData) : Type 0 where
  pub domain_given : empty routing.target_node.domain_name ≡ false
  pub target_given : empty routing.target_node.name ≡ false
  pub caller_given : empty routing.calling_node.name ≡ false
  pub caller_domain_given : empty routing.calling_node.domain_name ≡ false

-- The ends of `get_node`, `get_nodes`, `get_jobs`, `get_ready_jobs`, `monitor_failed_jobs` and
-- `monitor_waiting_jobs`.
abbrev pub Told : Type 0
Told =
    Outcome Node
    × Outcome (List Node)
    × Outcome (List Job)
    × Outcome (List Job)
    × Outcome ℤ
    × Outcome ℤ

abbrev pub told : Remote → String → ℤ → RoutingData → Node → Told
told net host port routing n = (
  net.get_node host port routing n,
  net.get_nodes host port routing,
  net.get_jobs host port routing,
  net.get_ready_jobs host port routing,
  net.monitor_failed_jobs host port routing,
  net.monitor_waiting_jobs host port routing,
)

-- What the domain of the member says.
abbrev pub told_by : Member → RoutingData → Node → Told
told_by m routing n =
    let d = m.server.domain in
    let domain_name = routing.target_node.domain_name in
    let name = routing.target_node.name in
    (
      (Reads.get_node m.platform domain_name new_node n.name d).0,
      (Reads.get_nodes m.platform domain_name d).0,
      (Reads.get_jobs m.platform domain_name (some name) d).0,
      (Ready.get_ready_jobs_remote m.platform (some name) m.now d).0,
      (Reads.monitor_failed_jobs m.platform domain_name d).0,
      (Reads.monitor_waiting_jobs m.platform domain_name d).0,
    )

-- The answers as the caller sees them: an exception that model.thrift does not declare for the call
-- arrives as one of Thrift's.
abbrev pub told_through : Told → Told
told_through (node, nodes, jobs, ready, failed, waiting) = (
  sent_as node_clauses node,
  sent_as node_clauses nodes,
  sent_as job_clauses jobs,
  sent_as job_clauses ready,
  sent_as processing_clauses failed,
  sent_as processing_clauses waiting,
)

told_through_again : (t : Told) → told_through (told_through t) ≡ told_through t
told_through_again (node, nodes, jobs, ready, failed, waiting) = λ i. (
  sent_as_again node_clauses node i,
  sent_as_again node_clauses nodes i,
  sent_as_again job_clauses jobs i,
  sent_as_again job_clauses ready i,
  sent_as_again processing_clauses failed i,
  sent_as_again processing_clauses waiting i,
)

module _ {routing : RoutingData} (v : IsRouted routing) (s : Server) where
  caller_lem :
      check_caller routing.target_node.domain_name routing.calling_node s ≡ (returned tt, s)
  unfolding check_caller
  caller_lem = ground arith

  routing_lem : check_routing_args routing s ≡ (returned tt, s)
  unfolding check_routing_args
  routing_lem = ground (arith, caller_lem)

module _ (p : Platform) (c : Config) where
  forward-outcome :
      {A : Type 0} (catches : Exception → Bool) (g port_text : String) (port : ℤ)
      (call : String → ℤ → Outcome A) (s : Server)
      → get_param "port" c ≡ some port_text
      → p.cast int port_text ≡ some port
      → (forward p c catches (some g) call s).0 ≡ call g port
  unfolding forward open_client read_port
  forward-outcome catches g port_text port call s given cast = ground arith

module _ (network : Network) (port : ℤ) {routing : RoutingData} (v : IsRouted routing)
    (n : Node) where
  passed_on :
      (net : Remote) (host g : String) (m : Member)
      → network host ≡ some m
      → listens m port ≡ true
      → IsRelay m.platform m.config routing.target_node.name g port m.server
      → told (one_hop network net) host port routing n ≡ told_through (told net g port routing n)
  unfolding one_hop get_node get_nodes get_jobs get_ready_jobs read_jobs monitor_failed_jobs
      monitor_waiting_jobs monitor running_mode target_or_forward gateway_to
  passed_on net host g m up listening relay =
      let p = m.platform in
      let c = m.config in
      let s = m.server in
      let caller = caller_lem v s in
      let good = routing_lem v s in
      let here =
        is_this_node_lem p c routing.target_node.name relay.name s relay.is_named relay.is_other in
      let a : (one_hop network net).get_node host port routing n
          ≡ sent_as node_clauses (net.get_node g port routing n) =
        ground (
          arith,
          good,
          here,
          forward-outcome p c is_ex_node g relay.port_text port (λ h q. net.get_node h q routing n)
              s relay.has_port relay.reads_port,
        ) in
      let b : (one_hop network net).get_nodes host port routing
          ≡ sent_as node_clauses (net.get_nodes g port routing) =
        ground (
          arith,
          good,
          here,
          forward-outcome p c is_ex_node g relay.port_text port (λ h q. net.get_nodes h q routing) s
              relay.has_port relay.reads_port,
        ) in
      let e : (one_hop network net).get_jobs host port routing
          ≡ sent_as job_clauses (net.get_jobs g port routing) =
        ground (
          arith,
          good,
          here,
          forward-outcome p c is_ex_job g relay.port_text port (λ h q. net.get_jobs h q routing) s
              relay.has_port relay.reads_port,
        ) in
      let f : (one_hop network net).get_ready_jobs host port routing
          ≡ sent_as job_clauses (net.get_ready_jobs g port routing) =
        ground (
          arith,
          good,
          here,
          forward-outcome p c is_ex_job g relay.port_text port
              (λ h q. net.get_ready_jobs h q routing) s relay.has_port relay.reads_port,
        ) in
      let x : (one_hop network net).monitor_failed_jobs host port routing
          ≡ sent_as processing_clauses (net.monitor_failed_jobs g port routing) =
        ground (
          arith,
          caller,
          here,
          forward_and_return-outcome p c is_ex_job g relay.port_text port
              (λ h q. net.monitor_failed_jobs h q routing) s relay.has_port relay.reads_port,
        ) in
      let y : (one_hop network net).monitor_waiting_jobs host port routing
          ≡ sent_as processing_clauses (net.monitor_waiting_jobs g port routing) =
        ground (
          arith,
          caller,
          here,
          forward_and_return-outcome p c is_ex_job g relay.port_text port
              (λ h q. net.monitor_waiting_jobs h q routing) s relay.has_port relay.reads_port,
        ) in
      λ i. (a i, b i, e i, f i, x i, y i)

  told_itself :
      (net : Remote) (host : String) (m : Member)
      → network host ≡ some m
      → listens m port ≡ true
      → m.config.running_mode ≡ some active
      → get_param "node_name" m.config ≡ some routing.target_node.name
      → told (one_hop network net) host port routing n ≡ told_through (told_by m routing n)
  unfolding one_hop get_node get_nodes get_jobs get_ready_jobs read_jobs monitor_failed_jobs
      monitor_waiting_jobs monitor running_mode target_or_forward is_this_node
  told_itself net host m up listening is_active is_named =
      let caller = caller_lem v m.server in
      let good = routing_lem v m.server in
      let same = eq_iff routing.target_node.name routing.target_node.name in
      ground (arith, caller, good, same)

  -- On a network of nodes whose handlers answer one another: if from a host the gateways lead,
  -- through nodes in ACTIVE that are neither the target nor their configured master and listen at
  -- the port that the others open, to the target, which is in ACTIVE too, then with valid routing
  -- data the calls get_node, get_nodes, get_jobs, get_ready_jobs, monitor_failed_jobs and
  -- monitor_waiting_jobs on that host end within as many further nodes as the way is long, and
  -- exactly as the domain of the target answers them, but that an exception which model.thrift does
  -- not declare for the call arrives as an exception of Thrift itself.
  pub questions_answered :
      (host : String) (k nodes : ℕ) (m : Member)
      → Leads network routing.target_node.name port host k m
      → k < nodes
      → told (within network nodes) host port routing n ≡ told_through (told_by m routing n)
  unfolding within
  questions_answered host k zero m leads h = absurd (omega arith)
  questions_answered host k (suc nodes) m (arrives _ _ up listening is_active is_named) h =
      told_itself (within network nodes) host m up listening is_active is_named
  questions_answered host k (suc nodes) m (passes _ g relay _ k' up listening relays leads) h =
      passed_on (within network nodes) host g relay up listening relays
      ∙ ap told_through (questions_answered g k' nodes m leads (omega arith))
      ∙ told_through_again (told_by m routing n)
