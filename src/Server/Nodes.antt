-- ===== src/Server/Nodes.antt =====
-- src/rpc_server.cpp: the calls about nodes.
use open_workload_scheduler.Base.{String, Bool, false, List, [], empty, ◌||◌, if◌then◌else◌}
use open_workload_scheduler.Base.Int.{ℤ, pos, ltb_ℤ}
use open_workload_scheduler.Effect.{M, Outcome, Exception, ex_node, ◌>>=◌, ◌>>◌, pure, throw_if}
use open_workload_scheduler.Platform.{Platform}
use open_workload_scheduler.Model.{Node, RoutingData, new_node}
use open_workload_scheduler.Config.{Config, p2p, active, passive}
use open_workload_scheduler.Domain.Insertions
use open_workload_scheduler.Domain.Removal
use open_workload_scheduler.Domain.Reads
use open_workload_scheduler.Server.State.{
  Server, on_domain, is_ex_node, check_routing_args, check_master_node, running_mode, forward,
  gateway_to, is_this_node,
}
use open_workload_scheduler.Server.Remote.{Remote}

module _ (p : Platform) (c : Config) (net : Remote) where
  -- `ACTIVE` in the calls with a target node: it answers, another node forwards to its gateway.
  unfoldable pub target_or_forward :
      {A : Type 0}
      → (Exception → Bool)
      → RoutingData
      → M Server A
      → (String → ℤ → Outcome A)
      → M Server A
  unfolding forward gateway_to is_this_node
  target_or_forward catches routing answer call = do
    here ← is_this_node p c routing.target_node.name
    if here
        then answer
        else gateway_to p c routing.target_node.name >>= λ gateway. forward p c catches gateway call

  unfoldable pub add_node : RoutingData → Node → M Server Bool
  unfolding check_routing_args check_master_node running_mode target_or_forward Insertions.add_node
      Insertions.add_weighted_node
  add_node routing node_to_add = do
    check_routing_args routing
    throw_if (empty node_to_add.name || ltb_ℤ node_to_add.weight (pos 0))
        (ex_node "The node to add does not contain the minimal attributes (name and weight)")
    mode ← running_mode p c
    elim mode [
      | p2p ↦ pure false
      | active ↦
          target_or_forward is_ex_node routing
            (on_domain (Insertions.add_node p routing.target_node.domain_name node_to_add))
            (λ host port. net.add_node host port routing node_to_add)
      | passive ↦
          check_master_node p c routing.calling_node.name routing.target_node.name
          >> on_domain (
              Insertions.add_weighted_node p routing.target_node.name node_to_add.name
                node_to_add.weight)
    ]

  unfoldable pub remove_node : RoutingData → Node → M Server Bool
  unfolding check_routing_args check_master_node running_mode target_or_forward Removal.remove_node
  remove_node routing node_to_remove = do
    check_routing_args routing
    throw_if (empty node_to_remove.name)
        (ex_node "The node to add does not contain the minimal attributes")
    mode ← running_mode p c
    elim mode [
      | p2p ↦ pure false
      | active ↦
          target_or_forward is_ex_node routing
            (on_domain (Removal.remove_node p routing.target_node.domain_name node_to_remove.name))
            (λ host port. net.remove_node host port routing node_to_remove)
      | passive ↦
          check_master_node p c routing.calling_node.name routing.target_node.name
          >> on_domain (Removal.remove_node p routing.target_node.name node_to_remove.name)
    ]

  unfoldable pub get_node : RoutingData → Node → M Server Node
  unfolding check_routing_args running_mode target_or_forward Reads.get_node
  get_node routing node_to_get = do
    check_routing_args routing
    mode ← running_mode p c
    elim mode [
      | p2p ↦ pure new_node
      | active ↦
          target_or_forward is_ex_node routing
            (on_domain (Reads.get_node p routing.target_node.domain_name new_node node_to_get.name))
            (λ host port. net.get_node host port routing node_to_get)
      | passive ↦ pure new_node
    ]

  unfoldable pub get_nodes : RoutingData → M Server (List Node)
  unfolding check_routing_args running_mode target_or_forward Reads.get_nodes
  get_nodes routing = do
    check_routing_args routing
    mode ← running_mode p c
    elim mode [
      | p2p ↦ pure []
      | active ↦
          target_or_forward is_ex_node routing
            (on_domain (Reads.get_nodes p routing.target_node.domain_name))
            (λ host port. net.get_nodes host port routing)
      | passive ↦ pure []
    ]
