-- ===== src/Router/Discovery.antt =====
-- src/router.cpp: which master and which peers the discovery keeps.
use open_workload_scheduler.Base.{
  String, true, false, some, List, [], ◌∷◌, ◌≡◌, refl, arith, eq_iff, inl, inr, Option-cases, empty,
}
use open_workload_scheduler.Base.Int.{ℤ}
use open_workload_scheduler.Effect.{Exception, returned, thrown}
use open_workload_scheduler.Platform.{Platform}
use open_workload_scheduler.Model.{new_node}
use open_workload_scheduler.StringMap.{
  StringMap, lookup, erase, lookup-insert, lookup-erase, in_key_order,
}
use open_workload_scheduler.Config.{Config, get_param, split_at}
use open_workload_scheduler.Router.Index.{Insert}
use open_workload_scheduler.Router.Table.{Router, set_master_node, insert_route}
use open_workload_scheduler.Router.Peers.{
  Neighbours, Discovery, greet, add_peer, update_from_lines, update_from_file, update_peers_list,
  read_port, reach_master, reach_through_any, reach_master_through,
}

module _ (p : Platform) (place : Insert) (net : Neighbours) (c : Config) where
  -- If the port can be read and a peer throws on hello, the router still keeps the peer, with the
  -- key of its line.
  pub add_peer_unreachable :
      (name public_key : String) (port : ℤ) (e : Exception) (s : Discovery)
      → read_port p c s ≡ (returned port, s)
      → net.hello name port (record new_node { name = name }) ≡ thrown e
      → let s' = (add_peer p place net c name public_key s).1 in
        lookup name s'.router.hosts_keys ≡ some public_key
  unfolding add_peer greet set_master_node insert_route
  add_peer_unreachable name public_key port e s cast silent =
      let keys = erase name s.router.hosts_keys in
      ground (
        arith,
        lookup-insert name name public_key keys,
        lookup-erase name name s.router.hosts_keys,
        eq_iff name name,
      )

  greet_keeps_master :
      (name : String) (s : Discovery)
      → (greet p place net c name s).1.router.master_node ≡ s.router.master_node
  unfolding greet read_port
  greet_keeps_master name s = ground arith

  add_peer_keeps_master :
      (name public_key : String) (s : Discovery)
      → empty s.router.master_node ≡ false
      → (add_peer p place net c name public_key s).1.router.master_node ≡ s.router.master_node
  unfolding add_peer set_master_node insert_route
  add_peer_keeps_master name public_key s known = ground (arith, greet_keeps_master name s)

  update_from_lines_keeps_master :
      (lines : List String) (s : Discovery)
      → empty s.router.master_node ≡ false
      → (update_from_lines p place net c lines s).1.router.master_node ≡ s.router.master_node
  unfolding update_from_lines
  update_from_lines_keeps_master [] s known = refl
  update_from_lines_keeps_master (line ∷ lines) s known =
      elim (Option-cases (split_at b'\t' line)) [
        | inl missing ↦ ground (arith, update_from_lines_keeps_master lines s known)
        | inr ((name, key), split) ↦ ground (
          arith,
          update_from_lines_keeps_master lines s known,
          add_peer_keeps_master name key s known,
          update_from_lines_keeps_master lines (add_peer p place net c name key s).1,
        )
      ]

  -- Once the router knows a master, reading the list of the peers does not change it, whatever the
  -- file holds and the peers answer.
  pub update_peers_list_keeps_master :
      (s : Discovery)
      → empty s.router.master_node ≡ false
      → (update_peers_list p place net c s).1.router.master_node ≡ s.router.master_node
  unfolding update_peers_list update_from_file
  update_peers_list_keeps_master s known = elim (Option-cases (get_param "peers_keys" c)) [
    | inl missing ↦ ground arith
    | inr (path, found) ↦ elim (Option-cases (p.read_lines path)) [
      | inl unread ↦ ground arith
      | inr (lines, read) ↦ ground (arith, update_from_lines_keeps_master lines s known)
    ]
  ]

  reach_master_through-true :
      (target : String) (r r' : Router)
      → reach_master_through p place net c target r ≡ (returned true, r')
      → empty r'.master_node ≡ false
  unfolding reach_master_through set_master_node insert_route read_port
  reach_master_through-true target r r' h = ground arith

  reach_through_any-true :
      (hosts : StringMap String) (r r' : Router)
      → reach_through_any p place net c hosts r ≡ (returned true, r')
      → empty r'.master_node ≡ false
  unfolding reach_through_any
  reach_through_any-true [] r r' h = ground arith
  reach_through_any-true ((host, key) ∷ hosts) r r' h =
      let after = (reach_master_through p place net c host r).1 in
      ground (arith, reach_master_through-true host r after, reach_through_any-true hosts after r')

  -- When Router::reach_master returns true, the router knows a master.
  pub reach_master-true :
      (r r' : Router)
      → reach_master p place net c r ≡ (returned true, r')
      → empty r'.master_node ≡ false
  unfolding reach_master
  reach_master-true r r' h = ground (arith, reach_through_any-true (in_key_order r.hosts_keys) r r')
