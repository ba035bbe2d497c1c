-- ===== src/Server/Routing.antt =====
-- src/rpc_server.cpp: `hello`, `reach_master` and the calls about plannings.
use open_workload_scheduler.Base.{
  String, false, Option, none, some, List, [], concat, ◌∷◌, ◌==◌, if◌then◌else◌,
}
use open_workload_scheduler.Base.Int.{ℤ, pos, to_int16}
use open_workload_scheduler.Effect.{M, Outcome, ex_routing, ◌>>=◌, pure, throw, gets}
use open_workload_scheduler.Platform.{Platform}
use open_workload_scheduler.Model.{Node, Planning, Hello, Route, RoutingData}
use open_workload_scheduler.Config.{Config, p2p, active, passive, get_param}
use open_workload_scheduler.Domain.State.{get_current_planning_name}
use open_workload_scheduler.Domain.Reads.{get_available_planning_names}
use open_workload_scheduler.Domain.Planning.{get_planning}
use open_workload_scheduler.Router.Index.{WeightedGateway}
use open_workload_scheduler.Router.Table.{get_route}
use open_workload_scheduler.Server.State.{
  Server, on_domain, param, is_ex_routing, is_ex_planning, running_mode, forward, gateway_to,
  is_this_node, is_master,
}
use open_workload_scheduler.Server.Remote.{Remote}

abbrev pub new_planning : Planning
new_planning = record { begin_time = pos 0; duration = pos 0; nodes = [] }

module _ (p : Platform) (c : Config) (net : Remote) where
  -- The answer of the target itself; a missing `is_master` leaves the field `false`.
  unfoldable pub own_hello : Node → M Server Hello
  own_hello target_node = do
    domain_name ← param "domain_name" c
    pure (record {
      domain = domain_name;
      name = target_node.name;
      is_master = elim (get_param "is_master" c) [ none ↦ false | some text ↦ text == "yes" ];
    })

  -- `hello`: for another node, a gateway must be known, but the connection goes to the target.
  unfoldable pub hello : Node → M Server Hello
  unfolding own_hello forward gateway_to is_this_node
  hello target_node = do
    here ← is_this_node p c target_node.name
    if here
        then own_hello target_node
        else gateway_to p c target_node.name >>= λ gateway. elim gateway [
          | none ↦ throw (ex_routing (concat ("Cannot reach target node " ∷ target_node.name ∷ [])))
          | some g ↦
              forward p c is_ex_routing (some target_node.name)
                (λ host port. net.hello host port target_node)
        ]

  abbrev pub route_to : String → Option WeightedGateway → M Server Route
  route_to name none = throw (ex_routing "Cannot reach the master node")
  route_to name (some e) =
      pure (record { destination_name = e.gateway; hops = to_int16 (pos e.weight) })

  -- `reach_master`. The pointer to the name of the router's master is never null.
  unfoldable pub reach_master : M Server Route
  unfolding is_master get_route
  reach_master = do
    mine ← is_master p c
    if mine
        then (param "node_name" c >>= λ name.
            pure (record { destination_name = name; hops = pos 0 }))
        else do
          master ← gets (λ s. s.router.master_node)
          route ← λ s. (get_route master s.router, s)
          route_to master route

  -- `PASSIVE` in the calls about plannings.
  abbrev not_the_master : {A : Type 0} → M Server A
  not_the_master = param "node_name" c >>= λ name.
      throw (ex_routing (concat (name ∷ " is not the master_node" ∷ [])))

  -- The shape of the three calls about plannings: the master answers, and another node forwards to the
  -- gateway of the master's name in the config.
  unfoldable pub answer_or_forward :
      {A : Type 0} → A → M Server A → (String → ℤ → Outcome A) → M Server A
  unfolding running_mode is_master forward gateway_to
  answer_or_forward unchanged answer call = do
    mode ← running_mode p c
    elim mode [
      | p2p ↦ pure unchanged
      | passive ↦ not_the_master
      | active ↦ is_master p c >>= λ mine.
          if mine
          then answer
          else gateway_to p c c.master_node >>= λ gateway. forward p c is_ex_planning gateway call
    ]

  unfoldable pub current_planning_name : RoutingData → M Server String
  unfolding answer_or_forward get_current_planning_name
  current_planning_name routing =
      answer_or_forward "" (gets (λ s. get_current_planning_name p s.domain))
        (λ host port. net.get_current_planning_name host port routing)

  unfoldable pub available_planning_names : RoutingData → M Server (List String)
  unfolding answer_or_forward get_available_planning_names
  available_planning_names routing =
      answer_or_forward [] (on_domain (get_available_planning_names p))
        (λ host port. net.get_available_planning_names host port routing)

  unfoldable pub planning : RoutingData → Node → M Server Planning
  unfolding answer_or_forward get_planning
  planning routing node_to_get =
      answer_or_forward new_planning
        (on_domain (get_planning p routing.target_node.domain_name node_to_get.name))
        (λ host port. net.get_planning host port routing node_to_get)
