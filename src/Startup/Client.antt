-- ===== src/Startup/Client.antt =====
-- src/client.cpp, `main`: what holds when the client starts to listen.
use open_workload_scheduler.Base.{
  String, true, false, Option, none, some, List, [], ◌∷◌, ◌≡◌, refl, arith, not, ltb, empty, ap,
  ◌∙◌, sym, subst,
}
use open_workload_scheduler.Effect.{returned, M}
use open_workload_scheduler.Effect.Keeps.{Keeps, keeps_rules}
use open_workload_scheduler.Platform.{Platform}
use open_workload_scheduler.Model.{Node}
use open_workload_scheduler.StringMap.{StringMap}
use open_workload_scheduler.Config.{Config, RunningMode, p2p, active, passive, parse_file}
use open_workload_scheduler.Config.Parsing.{HasMode, parse_file_mode}
use open_workload_scheduler.Router.Index.{Insert}
use open_workload_scheduler.Router.Table.{
  Router, get_reachable_peers_number, insert_route, set_master_node,
}
use open_workload_scheduler.Router.Peers.{
  Neighbours, reach_master, reach_through_any, reach_master_through, read_port,
}
use open_workload_scheduler.Router.Discovery.{reach_master-true}
use open_workload_scheduler.Domain.State.{Domain}
use open_workload_scheduler.Startup.{
  GetNode, Process, on_domain, World, listening, wait_for_peers, wait_for_master, find_peers,
  discover, ask_peers, wait_for_node, load_node, load_planning, create_domain, join_network,
  client_start,
}

-- The objects that loading the planning leaves alone.
abbrev outside : Process → Config × Router
outside s = (s.config, s.router)

on_domain-Keeps : {A : Type 0} (m : M Domain A) → Keeps outside (on_domain m)
on_domain-Keeps m = record { at = λ s. refl }

ruleset loading = (keeps_rules, on_domain-Keeps)

module _ (c : Config) where
  ask_peers-Keeps :
      (get_node : GetNode) (node : Node) (hosts : StringMap String)
      → Keeps outside (ask_peers c get_node node hosts)
  unfolding ask_peers
  ask_peers-Keeps get_node node [] = search loading
  ask_peers-Keeps get_node node ((host, key) ∷ hosts) =
      let rest : (n : Node) → Keeps outside (ask_peers c get_node n hosts) =
        λ n. ask_peers-Keeps get_node n hosts in
      search (loading, rest) depth 30 fits 2000

  wait_for_node-Keeps :
      (rounds : List GetNode) (node : Node) → Keeps outside (wait_for_node c rounds node)
  unfolding wait_for_node
  wait_for_node-Keeps [] node = search loading
  wait_for_node-Keeps (get_node ∷ rounds) node =
      let rest : (n : Node) → Keeps outside (wait_for_node c rounds n) =
        λ n. wait_for_node-Keeps rounds n in
      search (loading, rest) depth 30 fits 2000

  load_node-Keeps : (p : Platform) (node : Option Node) → Keeps outside (load_node p c node)
  unfolding load_node
  load_node-Keeps p none = search loading
  load_node-Keeps p (some node) = search loading depth 30 fits 2000

  load_planning-Keeps :
      (p : Platform) (world : World) (mode : RunningMode)
      → Keeps outside (load_planning p c world mode)
  unfolding load_planning
  load_planning-Keeps p world p2p =
      search (loading, ask_peers-Keeps, load_node-Keeps) depth 30 fits 2000
  load_planning-Keeps p world active =
      search (loading, wait_for_node-Keeps, load_node-Keeps) depth 30 fits 2000
  load_planning-Keeps p world passive = search loading

  create_domain-Keeps :
      (p : Platform) (place : Insert) (world : World)
      → Keeps outside (create_domain p place c world)
  unfolding create_domain
  create_domain-Keeps p place world = search (loading, load_planning-Keeps) depth 30 fits 2000

abbrev hosts : Router → StringMap String
hosts r = r.hosts_keys

-- The router knows a peer.
abbrev pub HasPeer : Router → Type 0
HasPeer r = not (ltb (get_reachable_peers_number r) 1) ≡ true

module _ (p : Platform) (place : Insert) (c : Config) where
  reach_master_through-Keeps :
      (net : Neighbours) (host : String) → Keeps hosts (reach_master_through p place net c host)
  unfolding reach_master_through read_port set_master_node insert_route
  reach_master_through-Keeps net host = record { at = λ r. ground arith }

  reach_through_any-Keeps :
      (net : Neighbours) (l : StringMap String) → Keeps hosts (reach_through_any p place net c l)
  unfolding reach_through_any
  reach_through_any-Keeps net [] = search keeps_rules
  reach_through_any-Keeps net ((host, key) ∷ l) =
      let rest : Keeps hosts (reach_through_any p place net c l) = reach_through_any-Keeps net l in
      search (keeps_rules, reach_master_through-Keeps) depth 30 fits 2000

  reach_master-Keeps : (net : Neighbours) → Keeps hosts (reach_master p place net c)
  unfolding reach_master
  reach_master-Keeps net = search (keeps_rules, reach_through_any-Keeps) depth 30

  wait_for_master-Keeps : (nets : List Neighbours) → Keeps hosts (wait_for_master p place c nets)
  unfolding wait_for_master
  wait_for_master-Keeps [] = search keeps_rules
  wait_for_master-Keeps (net ∷ nets) =
      let rest : Keeps hosts (wait_for_master p place c nets) = wait_for_master-Keeps nets in
      search (keeps_rules, reach_master-Keeps) depth 30 fits 2000

  wait_for_master-true :
      (nets : List Neighbours) (r : Router)
      → (wait_for_master p place c nets r).0 ≡ returned true
      → empty (wait_for_master p place c nets r).1.master_node ≡ false
  unfolding wait_for_master
  wait_for_master-true [] r h = ground arith
  wait_for_master-true (net ∷ nets) r h =
      let after = (reach_master p place net c r).1 in
      ground (arith, reach_master-true p place net c r after, wait_for_master-true nets after)

  wait_for_peers-true :
      (nets : List Neighbours) (r : Router)
      → (wait_for_peers p place c nets r).0 ≡ returned true
      → HasPeer (wait_for_peers p place c nets r).1
  unfolding wait_for_peers
  wait_for_peers-true [] r h = ground arith
  wait_for_peers-true (net ∷ nets) r h =
      ground (arith, wait_for_peers-true nets (discover p place c net r).1)

  find_peers-true :
      (net : Neighbours) (nets : List Neighbours) (r : Router)
      → (find_peers p place c net nets r).0 ≡ returned true
      → HasPeer (find_peers p place c net nets r).1
  unfolding find_peers
  find_peers-true net nets r h =
      ground (arith, wait_for_peers-true nets (discover p place c net r).1)

-- What the client that listens knows: a peer, a master, and its running mode.
pub record IsJoined (s : Process) : Type 0 where
  pub peer : HasPeer s.router
  pub master : empty s.router.master_node ≡ false
  pub mode : HasMode s.config

module _ (p : Platform) (place : Insert) where
  -- The router behind the two loops.
  abbrev found_router : World → Process → Router
  found_router world s = (find_peers p place s.config world.first world.peer_rounds s.router).1

  abbrev joined_router : World → Process → Router
  joined_router world s =
      (wait_for_master p place s.config world.master_rounds (found_router world s)).1

  join_network-runs :
      (world : World) (s : Process)
      → (join_network p place s.config world s).0 ≡ returned listening
      → ((find_peers p place s.config world.first world.peer_rounds s.router).0 ≡ returned true)
        × ((wait_for_master p place s.config world.master_rounds (found_router world s)).0
            ≡ returned true)
        × (join_network p place s.config world s
            ≡ create_domain p place s.config world (record s { router = joined_router world s }))
  unfolding join_network
  join_network-runs world s h = ground arith

  join_network-IsJoined :
      (world : World) (s : Process)
      → (join_network p place s.config world s).0 ≡ returned listening
      → HasMode s.config
      → IsJoined (join_network p place s.config world s).1
  unfolding get_reachable_peers_number
  join_network-IsJoined world s h mode =
      let c = s.config in
      let s' : Process = record s { router = joined_router world s } in
      let (found, reached, same) = join_network-runs world s h in
      let kept : outside (create_domain p place c world s').1 ≡ outside s' =
        (create_domain-Keeps c p place world).at s' in
      let keeps_peers : hosts (joined_router world s) ≡ hosts (found_router world s) =
        (wait_for_master-Keeps p place c world.master_rounds).at (found_router world s) in
      let routers : (join_network p place c world s).1.router ≡ joined_router world s =
        ap (λ t. t.1.router) same ∙ ap (λ o. o.1) kept in
      let configs : (join_network p place c world s).1.config ≡ c =
        ap (λ t. t.1.config) same ∙ ap (λ o. o.0) kept in
      record {
        peer =
            rw (routers, keeps_peers)
              (find_peers-true p place c world.first world.peer_rounds s.router found);
        master =
            rw routers
              (wait_for_master-true p place c world.master_rounds (found_router world s) reached);
        mode = subst HasMode (sym configs) mode;
      }

  -- If the client comes to listen, then its router knows a peer and a master, and the file gave a
  -- running mode, which is set.
  pub client_start-IsJoined :
      (world : World) (file : String) (s : Process)
      → (client_start p place world file s).0 ≡ returned listening
      → IsJoined (client_start p place world file s).1
  unfolding client_start
  client_start-IsJoined world file s h =
      let (parsed, c) = parse_file p (p.read_lines file) s.config in
      ground (
        arith,
        join_network-IsJoined world (record s { config = c }),
        parse_file_mode p (p.read_lines file) s.config,
      )
