-- ===== src/Server/State.antt =====
-- src/rpc_server.cpp: the state of a handler, its checks of the arguments, and how it forwards a call.
use open_workload_scheduler.Base.{
  String, Bool, true, false, Option, empty, not, ◌==◌, ◌||◌, if◌then◌else◌,
}
use open_workload_scheduler.Base.Int.{ℤ, pos, ltb_ℤ}
use open_workload_scheduler.Effect.{
  M, Exception, ex_routing, ex_job, ex_node, ex_planning, Outcome, ◌>>=◌, ◌>>◌, pure, lift, throw,
  throw_if, try_catch, gets, modify, deref,
}
use open_workload_scheduler.Platform.{Platform}
use open_workload_scheduler.Model.{Job, Node, RoutingData}
use open_workload_scheduler.Config.{Config, RunningMode, get_param}
use open_workload_scheduler.Domain.State.{Domain}
use open_workload_scheduler.Router.Table.{Router, get_gateway}
use open_workload_scheduler.Router.Peers.{read_port}

pub record Server : Type 0 where
  pub domain : Domain
  pub router : Router
  -- the `handler` of the `Rpc_Client` is not null
  pub is_open : Bool

abbrev pub on_domain : {A : Type 0} → M Domain A → M Server A
on_domain m s = let (r, d) = m s.domain in (r, record s { domain = d })

abbrev pub set_open : Bool → M Server (Unit {0})
set_open b = modify (λ s. record s { is_open = b })

-- A parameter that the code reads through the pointer it is given.
abbrev pub param : {S : Type 0} → String → Config → M S String
param field c = deref (get_param field c)

-- `check_routing_args(const std::string&, const rpc::t_node&)`
unfoldable pub check_caller : String → Node → M Server (Unit {0})
check_caller domain_name calling_node = do
  throw_if (empty domain_name) (ex_routing "domain_name is empty")
  throw_if (empty calling_node.name) (ex_routing "calling_node's name is empty")
  throw_if (empty calling_node.domain_name) (ex_routing "calling_node's domain_name is empty")

-- `check_routing_args(const rpc::t_routing_data&)`
unfoldable pub check_routing_args : RoutingData → M Server (Unit {0})
unfolding check_caller
check_routing_args routing = do
  check_caller routing.target_node.domain_name routing.calling_node
  throw_if (empty routing.target_node.name) (ex_routing "target_node's name is empty")
  throw_if (empty routing.target_node.domain_name) (ex_routing "target_node's domain_name is empty")

unfoldable pub check_job_arg : Job → M Server (Unit {0})
check_job_arg job = do
  throw_if (empty job.name) (ex_job "job_name is empty")
  throw_if (empty job.domain) (ex_job "domain_name is empty")
  throw_if (empty job.cmd_line) (ex_job "cmd_line is empty")
  throw_if (empty job.node_name) (ex_job "node_name is empty")
  throw_if (ltb_ℤ job.weight (pos 1)) (ex_job "weight must be higher than 0")

-- The exceptions that the `catch` clauses of the handlers name.
abbrev pub is_ex_node : Exception → Bool
is_ex_node (ex_node msg) = true
is_ex_node _ = false

abbrev pub is_ex_job : Exception → Bool
is_ex_job (ex_job msg) = true
is_ex_job _ = false

abbrev pub is_ex_planning : Exception → Bool
is_ex_planning (ex_planning msg) = true
is_ex_planning _ = false

abbrev pub is_ex_routing : Exception → Bool
is_ex_routing (ex_routing msg) = true
is_ex_routing _ = false

-- `catch (E e) { client->close(); throw e; }`
abbrev pub close_and_rethrow : {A : Type 0} → (Exception → Bool) → Exception → M Server A
close_and_rethrow catches e = if catches e then set_open false >> throw e else throw e

module _ (p : Platform) (c : Config) where
  unfoldable pub running_mode : M Server RunningMode
  running_mode = deref c.running_mode

  -- `check_master_node`: the caller is the router's master, and the target is this node.
  unfoldable pub check_master_node : String → String → M Server (Unit {0})
  check_master_node calling_node_name target_node_name = do
    master ← gets (λ s. s.router.master_node)
    node_name ← param "node_name" c
    throw_if (not (master == calling_node_name) || not (node_name == target_node_name))
        (ex_routing calling_node_name)

  -- Opening the connection to a gateway, the port cast first.
  unfoldable pub open_client : Option String → M Server ℤ
  unfolding read_port
  open_client gateway = do host ← deref gateway; port ← read_port p c; set_open true; pure port

  -- Forwarding in a handler that assigns the answer: the connection is closed behind the call. `call`
  -- gets the gateway and the port.
  unfoldable pub forward :
      {A : Type 0} → (Exception → Bool) → Option String → (String → ℤ → Outcome A) → M Server A
  unfolding open_client
  forward catches gateway call =
      try_catch
        (do
          port ← open_client gateway
          host ← deref gateway
          answer ← lift (call host port)
          set_open false
          pure answer)
        (close_and_rethrow catches)

  -- Forwarding in a handler that returns the answer at once: its `close` is never reached.
  unfoldable pub forward_and_return :
      {A : Type 0} → (Exception → Bool) → Option String → (String → ℤ → Outcome A) → M Server A
  unfolding open_client
  forward_and_return catches gateway call =
      try_catch (do port ← open_client gateway; host ← deref gateway; lift (call host port))
        (close_and_rethrow catches)

  -- `router->get_gateway(destination)`
  unfoldable pub gateway_to : String → M Server (Option String)
  unfolding get_gateway
  gateway_to destination s = (get_gateway destination s.router, s)

  -- `config->get_param("node_name")->compare(name) == 0`
  unfoldable pub is_this_node : String → M Server Bool
  is_this_node name = do node_name ← param "node_name" c; pure (node_name == name)

  -- `config->get_param("is_master")->compare("yes") == 0`
  unfoldable pub is_master : M Server Bool
  is_master = do answer ← param "is_master" c; pure (answer == "yes")
