-- ===== src/Network/Discovery.antt =====
-- src/router.cpp and src/rpc_server.cpp on several nodes: what the discovery tells of the way to the master.
use open_workload_scheduler.Base.{
  ℕ, subst, String, true, false, Option, none, some, ◌≡◌, refl, arith, ◌==◌, if◌then◌else◌, empty,
  inl, inr, Bool-cases,
}
use open_workload_scheduler.Base.Int.{ℤ, pos_part, to_int16}
use open_workload_scheduler.Effect.{Outcome, returned, thrown, undefined, blocked, lift, ◌>>=◌}
use open_workload_scheduler.Platform.{Platform}
use open_workload_scheduler.Model.{Route}
use open_workload_scheduler.Config.{Config, get_param}
use open_workload_scheduler.Router.Index.{WeightedGateway, Insert, IsInsertion}
use open_workload_scheduler.Router.Table.{
  Router, new_router, get_route, set_master_node, insert_route,
}
use open_workload_scheduler.Router.Peers.{
  new_hello, update_peers_list, reach_master, reach_master_through, read_port,
}
use open_workload_scheduler.Router.Weights.{
  IsFlat, TellsNoDistance, get_route-IsFlat, update_peers_list-Preserves, reach_master-Preserves,
}
use open_workload_scheduler.Server.State.{Server, is_master}
use open_workload_scheduler.Server.Remote.{Remote}
use open_workload_scheduler.Server.Routing
use open_workload_scheduler.Server.Routing.{route_to}
use open_workload_scheduler.Network.Clauses.{routing_clause}
use open_workload_scheduler.Network.{Member, Network, listens, asked, within, neighbours}

module _ (p : Platform) (c : Config) (net : Remote) where
  route_to_hops :
      (r : Outcome (Option WeightedGateway)) (name : String) (s : Server) (route : Route)
      → ((e : WeightedGateway) → r ≡ returned (some e) → e.weight ≡ 0)
      → ((lift r >>= route_to p c net name) s).0 ≡ returned route
      → pos_part route.hops ≡ 0
  unfolding to_int16
  route_to_hops (returned none) name s route h answer = ground arith
  route_to_hops (returned (some e)) name s route h answer = ground (arith, h e refl)
  route_to_hops (thrown x) name s route h answer = ground arith
  route_to_hops undefined name s route h answer = ground arith
  route_to_hops blocked name s route h answer = ground arith

  reach_master_hops :
      (s : Server) (route : Route)
      → IsFlat s.router
      → (Routing.reach_master p c net s).0 ≡ returned route
      → pos_part route.hops ≡ 0
  unfolding Routing.reach_master is_master
  reach_master_hops s route flat answer = ground (
    arith,
    route_to_hops (get_route s.router.master_node s.router) s.router.master_node s route
        (λ e found. get_route-IsFlat s.router.master_node e s.router flat found),
  )

abbrev pub put : String → Option Member → Network → Network
put host o network h = if host == h then o else network h

abbrev pub with_router : Member → Router → Member
with_router m r = record m { server = record m.server { router = r } }

-- What one node does next: it reads its peers, it asks them for the master, it does anything else that
-- leaves its routes alone, it joins with no route, or it leaves. The calls of the discovery cross at
-- most `nodes` nodes.
pub data Step (place : Insert) : Network → Network → Type 0 where
  greets :
      (host : String) (m : Member) (nodes : ℕ) (network : Network)
      → network host ≡ some m
      → Step place network (
          put host
            (some (
              with_router m
                (update_peers_list m.platform place
                  (neighbours network nodes)
                  m.config
                  (record { router = m.server.router; hello_result = new_hello })).1.router))
            network)
  asks :
      (host : String) (m : Member) (nodes : ℕ) (network : Network)
      → network host ≡ some m
      → Step place network (
          put host
            (some (
              with_router m
                (reach_master m.platform place
                  (neighbours network nodes)
                  m.config
                  m.server.router).1))
            network)
  works :
      (host : String) (m m' : Member) (network : Network)
      → network host ≡ some m
      → m'.server.router.routing_table ≡ m.server.router.routing_table
      → Step place network (put host (some m') network)
  joins :
      (host : String) (m : Member) (network : Network)
      → m.server.router ≡ new_router
      → Step place network (put host (some m) network)
  leaves : (host : String) (network : Network) → Step place network (put host none network)

pub data Steps (place : Insert) : Network → Network → Type 0 where
  here : (network : Network) → Steps place network network
  next : {a b c : Network} → Steps place a b → Step place b c → Steps place a c

abbrev AllFlat : Network → Type 0
AllFlat network = (host : String) (m : Member) → network host ≡ some m → IsFlat m.server.router

asked_hops :
    (o : Option Member) (port : ℤ) (nodes : ℕ) (network : Network) (route : Route)
    → ((m : Member) → o ≡ some m → IsFlat m.server.router)
    → asked routing_clause o port
        (λ m. Routing.reach_master m.platform m.config (within network nodes))
      ≡ returned route
    → pos_part route.hops ≡ 0
asked_hops none port nodes network route flat answer = ground arith
asked_hops (some m) port nodes network route flat answer = ground (
  arith,
  reach_master_hops m.platform m.config (within network nodes) m.server route (flat m refl),
)

neighbours_near :
    (network : Network) (nodes : ℕ) → AllFlat network → TellsNoDistance (neighbours network nodes)
unfolding neighbours
neighbours_near network nodes flat host port route answer =
    asked_hops (network host) port nodes network route (flat host) answer

put-AllFlat :
    (host : String) (o : Option Member) (network : Network)
    → ((m : Member) → o ≡ some m → IsFlat m.server.router)
    → AllFlat network
    → AllFlat (put host o network)
put-AllFlat host o network h flat h' m found = elim (Bool-cases (host == h')) [
  | inl same ↦ h m (ground arith)
  | inr other ↦ flat h' m (ground arith)
]

some_lem :
    (P : Router → Type 0) (m m' : Member)
    → some m ≡ some m'
    → P m.server.router
    → P m'.server.router
some_lem P m m' e h =
    subst (λ (o : Option Member). elim o [ none ↦ Unit | some n ↦ P n.server.router ]) e h

module _ (place : Insert) (laws : IsInsertion place) where
  Step-AllFlat : {a b : Network} → Step place a b → AllFlat a → AllFlat b
  Step-AllFlat (greets host m nodes network up) flat =
      put-AllFlat host _ network
        (λ m' e. some_lem IsFlat _ m' e (
          (update_peers_list-Preserves m.platform place laws (neighbours network nodes) m.config).at
            (record { router = m.server.router; hello_result = new_hello }) (flat host m up)))
        flat
  Step-AllFlat (asks host m nodes network up) flat =
      put-AllFlat host _ network
        (λ m' e. some_lem IsFlat _ m' e (
          (reach_master-Preserves m.platform place laws (neighbours network nodes) m.config
              (neighbours_near network nodes flat)).at
            m.server.router (flat host m up)))
        flat
  Step-AllFlat (works host m m' network up same) flat =
      put-AllFlat host _ network (λ n e. some_lem IsFlat m' n e (rw same (flat host m up))) flat
  Step-AllFlat (joins host m network new) flat =
      put-AllFlat host _ network (λ n e. some_lem IsFlat m n e (rw new tt)) flat
  Step-AllFlat (leaves host network) flat =
      put-AllFlat host none network (λ n e. absurd (ground arith)) flat

  Steps-AllFlat : {a b : Network} → Steps place a b → AllFlat a → AllFlat b
  Steps-AllFlat (here network) flat = flat
  Steps-AllFlat (next before step) flat = Step-AllFlat step (Steps-AllFlat before flat)

  -- From a network without nodes, whatever nodes join with a new router, leave, read their peers,
  -- ask them for the master and do anything else that leaves their routing tables alone, every
  -- route that get_route gives on a node of the network has the weight 0, if the indexes hold what
  -- was inserted.
  pub discovery_weighs_nothing :
      (network : Network)
      → Steps place (λ host. none) network
      → (host destination : String) (m : Member) (e : WeightedGateway) → network host ≡ some m
      → get_route destination m.server.router ≡ returned (some e)
      → e.weight ≡ 0
  discovery_weighs_nothing network steps host destination m e up found =
      get_route-IsFlat destination e m.server.router
        (Steps-AllFlat steps (λ h n none_there. absurd (ground arith)) host m up) found

-- If a router without a master asks a listening node that is not the master, on a port that can be
-- read, and whose lightest route to its own master has the weight 0 and a gateway with a name, then
-- reach_master returns true and the router takes the name of that gateway for the master.
pub gateway_becomes_master :
    (network : Network) (nodes : ℕ) (host text : String) (m : Member) (e : WeightedGateway)
    (p : Platform) (place : Insert) (c : Config) (port : ℤ) (r : Router)
    → network host ≡ some m
    → listens m port ≡ true
    → get_param "is_master" m.config ≡ some text
    → (text == "yes") ≡ false
    → get_route m.server.router.master_node m.server.router ≡ returned (some e)
    → e.weight ≡ 0
    → empty e.gateway ≡ false
    → read_port p c r ≡ (returned port, r)
    → empty r.master_node ≡ true
    → let (reached, r') = reach_master_through p place (neighbours network nodes) c host r in
      (reached ≡ returned true) × (r'.master_node ≡ e.gateway)
unfolding reach_master_through neighbours Routing.reach_master is_master set_master_node
    insert_route to_int16
gateway_becomes_master network nodes host text m e p place c port r up listening given other found
      light named reads unknown =
    (ground arith, ground arith)
