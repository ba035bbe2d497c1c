-- ===== src/Server/Greeting.antt =====
-- src/rpc_server.cpp: to whom `hello` goes.
use open_workload_scheduler.Base.{String, false, some, ◌≡◌, arith, ◌==◌}
use open_workload_scheduler.Effect.{returned}
use open_workload_scheduler.Platform.{Platform}
use open_workload_scheduler.Model.{Node}
use open_workload_scheduler.Config.{Config, get_param}
use open_workload_scheduler.Router.Table.{Router, get_gateway}
use open_workload_scheduler.Router.Peers.{read_port}
use open_workload_scheduler.Server.State.{Server, gateway_to, is_this_node, forward, open_client}
use open_workload_scheduler.Server.Remote.{Remote}
use open_workload_scheduler.Server.Routing.{hello}

module _ (p : Platform) (c : Config) (net : Remote) where
  -- For another node, hello ends in the same way whatever gateway the routing table gives for that
  -- node.
  pub hello_any_gateway :
      (n : Node) (name g h : String) (s : Server) (r : Router)
      → get_param "node_name" c ≡ some name
      → (name == n.name) ≡ false
      → get_gateway n.name s.router ≡ returned (some g)
      → get_gateway n.name r ≡ returned (some h)
      → (hello p c net n s).0 ≡ (hello p c net n (record s { router = r })).0
  unfolding hello gateway_to is_this_node forward open_client read_port
  hello_any_gateway n name g h s r named other to_g to_h = ground arith
