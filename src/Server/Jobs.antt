-- ===== src/Server/Jobs.antt =====
-- src/rpc_server.cpp: the calls about jobs, and monitoring.
use open_workload_scheduler.Base.{
  String, Bool, false, Option, none, some, List, [], not, ◌&&◌, if◌then◌else◌,
}
use open_workload_scheduler.Base.Int.{ℤ, pos}
use open_workload_scheduler.Effect.{M, Outcome, ex_routing, ◌>>=◌, ◌>>◌, pure, throw}
use open_workload_scheduler.Platform.{Platform}
use open_workload_scheduler.Model.{Job, RoutingData, new_job}
use open_workload_scheduler.Config.{Config, p2p, active, passive}
use open_workload_scheduler.Domain.State.{Domain}
use open_workload_scheduler.Domain.Insertions
use open_workload_scheduler.Domain.Updates
use open_workload_scheduler.Domain.Reads
use open_workload_scheduler.Domain.Ready
use open_workload_scheduler.Server.State.{
  Server, on_domain, is_ex_job, check_caller, check_routing_args, check_job_arg, check_master_node,
  running_mode, forward_and_return, gateway_to, is_this_node,
}
use open_workload_scheduler.Server.Nodes.{target_or_forward}
use open_workload_scheduler.Server.Remote.{Remote}

module _ (p : Platform) (c : Config) (net : Remote) where
  -- The reads: in `ACTIVE` the target answers, in `PASSIVE` the target for its master.
  unfoldable pub read_jobs :
      {A : Type 0} → A → RoutingData → M Domain A → (String → ℤ → Outcome A) → M Server A
  unfolding check_master_node running_mode target_or_forward
  read_jobs unchanged routing answer call = do
    mode ← running_mode p c
    elim mode [
      | p2p ↦ pure unchanged
      | active ↦ target_or_forward p c net is_ex_job routing (on_domain answer) call
      | passive ↦
          check_master_node p c routing.calling_node.name routing.target_node.name
          >> on_domain answer
    ]

  unfoldable pub get_jobs : RoutingData → M Server (List Job)
  unfolding check_routing_args read_jobs Reads.get_jobs
  get_jobs routing = do
    check_routing_args routing
    read_jobs [] routing
        (Reads.get_jobs p routing.target_node.domain_name (some routing.target_node.name))
        (λ host port. net.get_jobs host port routing)

  unfoldable pub get_ready_jobs : RoutingData → ℤ → M Server (List Job)
  unfolding check_routing_args read_jobs Ready.get_ready_jobs_remote
  get_ready_jobs routing now = do
    check_routing_args routing
    read_jobs [] routing (Ready.get_ready_jobs_remote p (some routing.target_node.name) now)
        (λ host port. net.get_ready_jobs host port routing)

  unfoldable pub get_job : RoutingData → Job → M Server Job
  unfolding check_routing_args check_job_arg read_jobs Reads.get_job
  get_job routing job_to_get = do
    check_routing_args routing
    check_job_arg job_to_get
    read_jobs new_job routing
        (Reads.get_job p routing.target_node.domain_name (some routing.target_node.name)
          job_to_get.name)
        (λ host port. net.get_job host port routing job_to_get)

  -- The updates in `ACTIVE`: the node of the job answers, another node forwards to its gateway.
  unfoldable pub own_or_forward : Job → M Server Bool → (String → ℤ → Outcome Bool) → M Server Bool
  unfolding forward_and_return gateway_to is_this_node
  own_or_forward j answer call = do
    here ← is_this_node p c j.node_name
    if here
        then answer
        else gateway_to p c j.node_name >>= λ gateway. forward_and_return p c is_ex_job gateway call

  abbrev known_gateway : Option String → M Server (Option String)
  known_gateway none = throw (ex_routing "The node is not in the routing table")
  known_gateway (some g) = pure (some g)

  -- In `ACTIVE`, `add_job` also keeps the job on the config's master node.
  unfoldable pub add_job : RoutingData → Job → M Server Bool
  unfolding check_caller check_job_arg check_master_node running_mode forward_and_return gateway_to
      is_this_node Insertions.add_job
  add_job routing j = do
    check_caller routing.target_node.domain_name routing.calling_node
    check_job_arg j
    let answer = on_domain (Insertions.add_job p routing.target_node.domain_name j)
    mode ← running_mode p c
    elim mode [
      | p2p ↦ pure false
      | active ↦ is_this_node p c j.node_name >>= λ here.
          is_this_node p c c.master_node >>= λ on_master.
          if not here && not on_master
          then (gateway_to p c j.node_name >>= known_gateway >>= λ gateway.
              forward_and_return p c is_ex_job gateway
                (λ host port. net.add_job host port routing j))
          else answer
      | passive ↦ check_master_node p c routing.calling_node.name j.node_name >> answer
    ]

  -- In `PASSIVE`, `update_job` adds the job.
  unfoldable pub update_job : RoutingData → Job → M Server Bool
  unfolding check_caller check_job_arg check_master_node running_mode forward_and_return gateway_to
      is_this_node Insertions.add_job Updates.update_job
  update_job routing j = do
    check_caller routing.target_node.domain_name routing.calling_node
    check_job_arg j
    mode ← running_mode p c
    elim mode [
      | p2p ↦ pure false
      | active ↦ is_this_node p c j.node_name >>= λ here.
          if here
          then on_domain (Updates.update_job p j)
          else gateway_to p c j.node_name >>= known_gateway >>= λ gateway.
              forward_and_return p c is_ex_job gateway
                (λ host port. net.update_job host port routing j)
      | passive ↦
          check_master_node p c routing.calling_node.name j.node_name
          >> on_domain (Insertions.add_job p routing.target_node.domain_name j)
    ]

  unfoldable pub remove_job : RoutingData → Job → M Server Bool
  unfolding check_caller check_job_arg check_master_node running_mode own_or_forward
      Updates.remove_job
  remove_job routing j = do
    check_caller routing.target_node.domain_name routing.calling_node
    check_job_arg j
    mode ← running_mode p c
    elim mode [
      | p2p ↦ pure false
      | active ↦
          own_or_forward j (on_domain (Updates.remove_job p j))
            (λ host port. net.remove_job host port routing j)
      | passive ↦
          check_master_node p c routing.calling_node.name j.node_name
          >> on_domain (Updates.remove_job p j)
    ]

  unfoldable pub update_job_state : RoutingData → Job → M Server Bool
  unfolding check_caller check_master_node running_mode own_or_forward Updates.update_state_of
  update_job_state routing j = do
    check_caller routing.target_node.domain_name routing.calling_node
    let answer = on_domain (Updates.update_state_of p routing.target_node.domain_name j)
    mode ← running_mode p c
    elim mode [
      | p2p ↦ pure false
      | active ↦ own_or_forward j answer (λ host port. net.update_job_state host port routing j)
      | passive ↦ check_master_node p c routing.calling_node.name j.node_name >> answer
    ]

  -- `sql_exec` asks for no check.
  unfoldable pub sql_exec : String → M Server (Unit {0})
  unfolding running_mode Reads.sql_exec
  sql_exec query = do
    mode ← running_mode p c
    elim mode [
      | p2p ↦ pure tt
      | active ↦ on_domain (Reads.sql_exec p query)
      | passive ↦ on_domain (Reads.sql_exec p query)
    ]

  -- `monitor_failed_jobs` and `monitor_waiting_jobs`.
  unfoldable pub monitor : RoutingData → M Domain ℤ → (String → ℤ → Outcome ℤ) → M Server ℤ
  unfolding check_caller check_master_node running_mode forward_and_return gateway_to is_this_node
  monitor routing answer call = do
    check_caller routing.target_node.domain_name routing.calling_node
    mode ← running_mode p c
    elim mode [
      | p2p ↦ pure (pos 0)
      | active ↦ is_this_node p c routing.target_node.name >>= λ here.
          if here
          then on_domain answer
          else gateway_to p c routing.target_node.name >>= λ gateway.
              forward_and_return p c is_ex_job gateway call
      | passive ↦
          check_master_node p c routing.calling_node.name routing.target_node.name
          >> on_domain answer
    ]

  unfoldable pub monitor_failed_jobs : RoutingData → M Server ℤ
  unfolding monitor Reads.monitor_failed_jobs
  monitor_failed_jobs routing =
      monitor routing (Reads.monitor_failed_jobs p routing.target_node.domain_name)
        (λ host port. net.monitor_failed_jobs host port routing)

  unfoldable pub monitor_waiting_jobs : RoutingData → M Server ℤ
  unfolding monitor Reads.monitor_waiting_jobs
  monitor_waiting_jobs routing =
      monitor routing (Reads.monitor_waiting_jobs p routing.target_node.domain_name)
        (λ host port. net.monitor_waiting_jobs host port routing)
