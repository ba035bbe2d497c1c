-- ===== src/Server/Forwarding.antt =====
-- src/rpc_server.cpp: who answers a call, and what is left of a forwarded one.
use open_workload_scheduler.Base.{
  String, Bool, true, false, Option, none, some, ◌≡◌, arith, ◌==◌, eq_iff, empty, ◌↔◌,
}
use open_workload_scheduler.Base.Int.{ℤ, pos, ◌≤ℤ◌}
use open_workload_scheduler.Effect.{Outcome, Exception, ex_routing, returned, thrown, undefined}
use open_workload_scheduler.Platform.{Platform}
use open_workload_scheduler.Model.{Job, Node, RoutingData}
use open_workload_scheduler.Config.{Config, p2p, active, passive, get_param}
use open_workload_scheduler.Domain.Insertions
use open_workload_scheduler.Domain.Updates
use open_workload_scheduler.Router.Table.{get_gateway}
use open_workload_scheduler.Server.State.{
  Server, on_domain, check_caller, check_job_arg, check_master_node, running_mode, forward,
  forward_and_return, gateway_to, is_this_node, open_client,
}
use open_workload_scheduler.Server.Remote.{Remote}
use open_workload_scheduler.Server.Jobs.{
  add_job, update_job, remove_job, update_job_state, own_or_forward, monitor, monitor_failed_jobs,
  monitor_waiting_jobs,
}

-- check_job_arg accepts a job if and only if its name, domain, command line and node name are not
-- empty and its weight is at least 1.
pub check_job_arg_lem :
    (j : Job) (s : Server)
    → ((check_job_arg j s).0 ≡ returned tt) ↔ (
        (empty j.name ≡ false)
        × (empty j.domain ≡ false)
        × (empty j.cmd_line ≡ false)
        × (empty j.node_name ≡ false)
        × (pos 1 ≤ℤ j.weight))
unfolding check_job_arg
check_job_arg_lem j s = (λ h. ground arith, λ h. ground arith)

pub check_job_arg_passed :
    (j : Job) (s : Server)
    → (check_job_arg j s).0 ≡ returned tt
    → check_job_arg j s ≡ (returned tt, s)
unfolding check_job_arg
check_job_arg_passed j s h = ground arith

pub check_caller_passed :
    (domain_name : String) (n : Node) (s : Server)
    → (check_caller domain_name n s).0 ≡ returned tt
    → check_caller domain_name n s ≡ (returned tt, s)
unfolding check_caller
check_caller_passed domain_name n s h = ground arith

module _ (p : Platform) (c : Config) where
  check_master_node_refuses :
      (calling target n : String) (s : Server)
      → get_param "node_name" c ≡ some n
      → (s.router.master_node ≡ calling → n ≡ target → ⊥)
      → check_master_node p c calling target s ≡ (thrown (ex_routing calling), s)
  unfolding check_master_node
  check_master_node_refuses calling target n s named other =
      ground (arith, eq_iff s.router.master_node calling, eq_iff n target)

  check_master_node_allows :
      (calling target : String) (s : Server)
      → get_param "node_name" c ≡ some target
      → s.router.master_node ≡ calling
      → check_master_node p c calling target s ≡ (returned tt, s)
  unfolding check_master_node
  check_master_node_allows calling target s named master =
      ground (arith, eq_iff s.router.master_node calling, eq_iff target target)

  pub is_this_node_lem :
      (name n : String) (s : Server)
      → get_param "node_name" c ≡ some n
      → (n == name) ≡ false
      → is_this_node p c name s ≡ (returned false, s)
  unfolding is_this_node
  is_this_node_lem name n s named other = ground arith

  -- Where the handler assigns the answer, a forwarded call that returns has closed its connection
  -- and left the domain and the router alone.
  pub forward_closes :
      {A : Type 0} (catches : Exception → Bool) (gateway : Option String)
      (call : String → ℤ → Outcome A) (a : A) (s s' : Server)
      → forward p c catches gateway call s ≡ (returned a, s')
      → (s'.is_open ≡ false) × (s'.domain ≡ s.domain) × (s'.router ≡ s.router)
  unfolding forward open_client
  forward_closes catches gateway call a s s' h = ground arith

  -- Where the handler returns the answer at once, a forwarded call that returns has left its
  -- connection open, and the domain and the router alone.
  pub forward_and_return_leaks :
      {A : Type 0} (catches : Exception → Bool) (gateway : Option String)
      (call : String → ℤ → Outcome A) (a : A) (s s' : Server)
      → forward_and_return p c catches gateway call s ≡ (returned a, s')
      → (s'.is_open ≡ true) × (s'.domain ≡ s.domain) × (s'.router ≡ s.router)
  unfolding forward_and_return open_client
  forward_and_return_leaks catches gateway call a s s' h = ground arith

module _ (p : Platform) (c : Config) (net : Remote) where
  -- In P2P, with valid arguments, the four updates of a job return false, the two monitoring calls
  -- return 0, and the state stays as it was.
  pub p2p_does_nothing :
      (routing : RoutingData) (j : Job) (s : Server)
      → c.running_mode ≡ some p2p
      → (check_caller routing.target_node.domain_name routing.calling_node s).0 ≡ returned tt
      → (check_job_arg j s).0 ≡ returned tt
      → let nothing : Outcome Bool × Server = (returned false, s) in
        (add_job p c net routing j s ≡ nothing)
        × (update_job p c net routing j s ≡ nothing)
        × (remove_job p c net routing j s ≡ nothing)
        × (update_job_state p c net routing j s ≡ nothing)
        × (monitor_failed_jobs p c net routing s ≡ (returned (pos 0), s))
        × (monitor_waiting_jobs p c net routing s ≡ (returned (pos 0), s))
  unfolding add_job update_job remove_job update_job_state monitor_failed_jobs monitor_waiting_jobs
      monitor running_mode
  p2p_does_nothing routing j s mode caller good =
      let caller' =
        check_caller_passed routing.target_node.domain_name routing.calling_node s caller in
      let good' = check_job_arg_passed j s good in
      (
        ground (arith, caller', good'),
        ground (arith, caller', good'),
        ground (arith, caller', good'),
        ground (arith, caller'),
        ground (arith, caller'),
        ground (arith, caller'),
      )

  -- In PASSIVE, add_job, update_job, remove_job and update_job_state with valid arguments and a
  -- configured node name throw ex_routing with the caller's name and change nothing, unless the
  -- caller is the master of the router and the job is of this node.
  pub passive_refuses :
      (routing : RoutingData) (j : Job) (n : String) (s : Server)
      → c.running_mode ≡ some passive
      → get_param "node_name" c ≡ some n
      → (check_caller routing.target_node.domain_name routing.calling_node s).0 ≡ returned tt
      → (check_job_arg j s).0 ≡ returned tt
      → (s.router.master_node ≡ routing.calling_node.name → n ≡ j.node_name → ⊥)
      → let refused : Outcome Bool × Server = (thrown (ex_routing routing.calling_node.name), s) in
        (add_job p c net routing j s ≡ refused)
        × (update_job p c net routing j s ≡ refused)
        × (remove_job p c net routing j s ≡ refused)
        × (update_job_state p c net routing j s ≡ refused)
  unfolding add_job update_job remove_job update_job_state running_mode
  passive_refuses routing j n s mode named caller good other =
      let caller' =
        check_caller_passed routing.target_node.domain_name routing.calling_node s caller in
      let good' = check_job_arg_passed j s good in
      let refused =
        check_master_node_refuses p c routing.calling_node.name j.node_name n s named other in
      (
        ground (arith, caller', good', refused),
        ground (arith, caller', good', refused),
        ground (arith, caller', good', refused),
        ground (arith, caller', refused),
      )

  -- In PASSIVE, with valid arguments from the router's master for a job of the configured node,
  -- add_job, remove_job and update_job_state do what the domain's operations of the same names do,
  -- and update_job does what the domain's add_job does.
  pub passive_performs :
      (routing : RoutingData) (j : Job) (s : Server)
      → c.running_mode ≡ some passive
      → get_param "node_name" c ≡ some j.node_name
      → (check_caller routing.target_node.domain_name routing.calling_node s).0 ≡ returned tt
      → (check_job_arg j s).0 ≡ returned tt
      → s.router.master_node ≡ routing.calling_node.name
      → let domain_name = routing.target_node.domain_name in
        (add_job p c net routing j s ≡ on_domain (Insertions.add_job p domain_name j) s)
        × (update_job p c net routing j s ≡ on_domain (Insertions.add_job p domain_name j) s)
        × (remove_job p c net routing j s ≡ on_domain (Updates.remove_job p j) s)
        × (update_job_state p c net routing j s
            ≡ on_domain (Updates.update_state_of p domain_name j) s)
  unfolding add_job update_job remove_job update_job_state running_mode
  passive_performs routing j s mode named caller good master =
      let caller' =
        check_caller_passed routing.target_node.domain_name routing.calling_node s caller in
      let good' = check_job_arg_passed j s good in
      let allowed =
        check_master_node_allows p c routing.calling_node.name j.node_name s named master in
      (
        ground (arith, caller', good', allowed),
        ground (arith, caller', good', allowed),
        ground (arith, caller', good', allowed),
        ground (arith, caller', allowed),
      )

  -- In ACTIVE, with valid arguments for a job of another node that the routing table does not know,
  -- and no master name of the config that is this node, add_job and update_job throw ex_routing,
  -- while remove_job and update_job_state read through a null pointer; none changes the state.
  pub active_unknown :
      (routing : RoutingData) (j : Job) (n : String) (s : Server)
      → c.running_mode ≡ some active
      → get_param "node_name" c ≡ some n
      → (check_caller routing.target_node.domain_name routing.calling_node s).0 ≡ returned tt
      → (check_job_arg j s).0 ≡ returned tt
      → (n == j.node_name) ≡ false
      → (n == c.master_node) ≡ false
      → get_gateway j.node_name s.router ≡ returned none
      → let refused : Outcome Bool × Server =
          (thrown (ex_routing "The node is not in the routing table"), s) in
        (add_job p c net routing j s ≡ refused)
        × (update_job p c net routing j s ≡ refused)
        × (remove_job p c net routing j s ≡ (undefined, s))
        × (update_job_state p c net routing j s ≡ (undefined, s))
  unfolding add_job update_job remove_job update_job_state running_mode gateway_to own_or_forward
      forward_and_return open_client
  active_unknown routing j n s mode named caller good other master unknown =
      let caller' =
        check_caller_passed routing.target_node.domain_name routing.calling_node s caller in
      let good' = check_job_arg_passed j s good in
      let here = is_this_node_lem p c j.node_name n s named other in
      let here' = is_this_node_lem p c c.master_node n s named master in
      (
        ground (arith, caller', good', here, here'),
        ground (arith, caller', good', here),
        ground (arith, caller', good', here),
        ground (arith, caller', here),
      )
