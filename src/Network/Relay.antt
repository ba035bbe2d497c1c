-- ===== src/Network/Relay.antt =====
-- src/rpc_server.cpp: a node in ACTIVE hands the updates of the jobs of another node on to its gateway.
use open_workload_scheduler.Base.{String, Bool, false, some, ◌≡◌, arith, empty, eq_iff, ◌==◌}
use open_workload_scheduler.Base.Int.{ℤ, pos, ◌≤ℤ◌}
use open_workload_scheduler.Effect.{Outcome, Exception, returned}
use open_workload_scheduler.Platform.{Platform, int}
use open_workload_scheduler.Model.{Job, RoutingData}
use open_workload_scheduler.Config.{Config, active, get_param}
use open_workload_scheduler.Domain.Insertions
use open_workload_scheduler.Domain.Updates
use open_workload_scheduler.Router.Table.{get_gateway}
use open_workload_scheduler.Router.Peers.{read_port}
use open_workload_scheduler.Server.State.{
  Server, check_caller, check_job_arg, running_mode, forward_and_return, gateway_to, is_this_node,
  open_client, is_ex_job,
}
use open_workload_scheduler.Server.Remote.{Remote}
use open_workload_scheduler.Server.Forwarding.{
  check_job_arg_lem, check_job_arg_passed, is_this_node_lem,
}
use open_workload_scheduler.Server.Jobs.{
  add_job, update_job, remove_job, update_job_state, own_or_forward,
}

-- The arguments that the handlers accept.
pub record IsValid (routing : RoutingData) (j : Job) : Type 0 where
  pub domain_given : empty routing.target_node.domain_name ≡ false
  pub caller_given : empty routing.calling_node.name ≡ false
  pub caller_domain_given : empty routing.calling_node.domain_name ≡ false
  pub name_given : empty j.name ≡ false
  pub job_domain_given : empty j.domain ≡ false
  pub cmd_line_given : empty j.cmd_line ≡ false
  pub node_name_given : empty j.node_name ≡ false
  pub weighs : pos 1 ≤ℤ j.weight

module _ {routing : RoutingData} {j : Job} (v : IsValid routing j) (s : Server) where
  pub caller_lem :
      check_caller routing.target_node.domain_name routing.calling_node s ≡ (returned tt, s)
  unfolding check_caller
  caller_lem = ground arith

  pub job_lem : check_job_arg j s ≡ (returned tt, s)
  job_lem = check_job_arg_passed j s (
      (check_job_arg_lem j s).1
        (v.name_given, v.job_domain_given, v.cmd_line_given, v.node_name_given, v.weighs))

module _ (p : Platform) (c : Config) where
  -- The node is in ACTIVE, is not the target, and has `g` as its gateway to the target.
  pub record IsRelay (target g : String) (port : ℤ) (s : Server) : Type 0 where
    pub name : String
    pub port_text : String
    pub is_active : c.running_mode ≡ some active
    pub is_named : get_param "node_name" c ≡ some name
    pub is_other : (name == target) ≡ false
    pub is_no_master : (name == c.master_node) ≡ false
    pub has_gateway : get_gateway target s.router ≡ returned (some g)
    pub has_port : get_param "port" c ≡ some port_text
    pub reads_port : p.cast int port_text ≡ some port

  pub forward_and_return-outcome :
      {A : Type 0} (catches : Exception → Bool) (g port_text : String) (port : ℤ)
      (call : String → ℤ → Outcome A) (s : Server)
      → get_param "port" c ≡ some port_text
      → p.cast int port_text ≡ some port
      → (forward_and_return p c catches (some g) call s).0 ≡ call g port
  unfolding forward_and_return open_client read_port
  forward_and_return-outcome catches g port_text port call s given cast = ground arith

  module _ (net : Remote) where
    pub hands_on :
        {routing : RoutingData} {j : Job} (v : IsValid routing j) (g : String) (port : ℤ)
        (s : Server)
        → IsRelay j.node_name g port s
        → ((add_job p c net routing j s).0 ≡ net.add_job g port routing j)
          × ((update_job p c net routing j s).0 ≡ net.update_job g port routing j)
          × ((remove_job p c net routing j s).0 ≡ net.remove_job g port routing j)
          × ((update_job_state p c net routing j s).0 ≡ net.update_job_state g port routing j)
    unfolding add_job update_job remove_job update_job_state running_mode own_or_forward gateway_to
    hands_on {routing} {j} v g port s relay =
        let caller = caller_lem v s in
        let good = job_lem v s in
        let here = is_this_node_lem p c j.node_name relay.name s relay.is_named relay.is_other in
        let here' =
          is_this_node_lem p c c.master_node relay.name s relay.is_named relay.is_no_master in
        let sent = λ (call : String → ℤ → Outcome Bool).
          forward_and_return-outcome is_ex_job g relay.port_text port call s relay.has_port
            relay.reads_port in
        (
          ground (
            arith,
            caller,
            good,
            here,
            here',
            sent (λ host port. net.add_job host port routing j),
          ),
          ground
              (arith, caller, good, here, sent (λ host port. net.update_job host port routing j)),
          ground
              (arith, caller, good, here, sent (λ host port. net.remove_job host port routing j)),
          ground
              (arith, caller, here, sent (λ host port. net.update_job_state host port routing j)),
        )

    -- The node of the job does what its domain does.
    pub takes :
        {routing : RoutingData} {j : Job} (v : IsValid routing j) (s : Server)
        → c.running_mode ≡ some active
        → get_param "node_name" c ≡ some j.node_name
        → let domain_name = routing.target_node.domain_name in
          ((add_job p c net routing j s).0 ≡ (Insertions.add_job p domain_name j s.domain).0)
          × ((update_job p c net routing j s).0 ≡ (Updates.update_job p j s.domain).0)
          × ((remove_job p c net routing j s).0 ≡ (Updates.remove_job p j s.domain).0)
          × ((update_job_state p c net routing j s).0
              ≡ (Updates.update_state_of p domain_name j s.domain).0)
    unfolding add_job update_job remove_job update_job_state running_mode own_or_forward
        is_this_node
    takes {routing} {j} v s is_active is_named =
        let caller = caller_lem v s in
        let good = job_lem v s in
        let same = eq_iff j.node_name j.node_name in
        (
          ground (arith, caller, good, same),
          ground (arith, caller, good, same),
          ground (arith, caller, good, same),
          ground (arith, caller, same),
        )
