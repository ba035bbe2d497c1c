-- ===== src/Startup/Peers.antt =====
-- src/client.cpp, the loop that waits for a peer: when it ends.
use open_workload_scheduler.Base.{
  String, Bool, true, false, none, some, List, [], ◌∷◌, ◌≡◌, refl, arith, ◌⊎◌, inl, inr, not, ltb,
  length, ◌||◌, empty, Option-cases, if◌then◌else◌,
}
use open_workload_scheduler.Base.Int.{ℤ}
use open_workload_scheduler.Effect.{Outcome, Exception, returned, thrown}
use open_workload_scheduler.Platform.{Platform, int}
use open_workload_scheduler.Model.{Hello, Node, new_node}
use open_workload_scheduler.StringMap.{StringMap, insert}
use open_workload_scheduler.Config.{Config, get_param, split_at}
use open_workload_scheduler.Router.Index.{Insert}
use open_workload_scheduler.Router.Table.{
  Router, new_router, set_master_node, insert_route, get_reachable_peers_number,
}
use open_workload_scheduler.Router.Peers.{
  Neighbours, Discovery, is_comment, new_hello, read_port, greet, add_peer, update_from_lines,
  update_from_file, update_peers_list,
}
use open_workload_scheduler.Startup.{discover, wait_for_peers, find_peers}

-- The lines hold a peer, before any line that has no tab.
unfoldable pub has_peer : List String → Bool
has_peer [] = false
has_peer (line ∷ lines) =
    if is_comment line || empty line then has_peer lines else elim (split_at b'\t' line) [
      | none ↦ false
      | some (name, key) ↦ not (empty name) || has_peer lines
    ]

abbrev lines_of_path : Platform → String → List String
lines_of_path p path =
    if empty path then [] else elim (p.read_lines path) [ none ↦ [] | some lines ↦ lines ]

-- The lines of the configured file of the peers; none if no file can be read.
abbrev pub peers_lines : Platform → Config → List String
peers_lines p c = elim (get_param "peers_keys" c) [ none ↦ [] | some path ↦ lines_of_path p path ]

-- Every call of `hello` ends with an answer or an exception.
abbrev pub HelloEnds : Neighbours → Type 0
HelloEnds net =
    (host : String) (port : ℤ) (n : Node)
    → ((a : Hello) × (net.hello host port n ≡ returned a))
      ⊎ ((e : Exception) × (net.hello host port n ≡ thrown e))

abbrev pub AllHelloEnd : List Neighbours → Type 0
AllHelloEnd [] = Unit
AllHelloEnd (net ∷ nets) = HelloEnds net × AllHelloEnd nets

abbrev has_hosts : Router → Bool
has_hosts r = not (ltb (length r.hosts_keys) 1)

abbrev returns : {A : Type 0} → Outcome A → Bool
returns (returned a) = true
returns _ = false

insert-nonempty :
    {A : Type 0} (k : String) (a : A) (m : StringMap A) → not (ltb (length (insert k a m)) 1) ≡ true
insert-nonempty k a [] = refl
insert-nonempty k a ((j, w) ∷ m) = ground arith

module _ (p : Platform) (place : Insert) (c : Config) where
  module _ (net : Neighbours) (ends : HelloEnds net) (text : String)
      (configured : get_param "port" c ≡ some text) where
    greet-returns : (name : String) (s : Discovery) → (greet p place net c name s).0 ≡ returned tt
    unfolding greet read_port
    greet-returns name s = elim (Option-cases (p.cast int text)) [
      | inl bad ↦ ground (arith, configured)
      | inr (port, good) ↦ elim (ends name port (record new_node { name = name })) [
        | inl (a, answered) ↦ ground (arith, configured)
        | inr (e, down) ↦ ground (arith, configured)
      ]
    ]

    add_peer_lem :
        (name key : String) (s : Discovery)
        → ((add_peer p place net c name key s).0 ≡ returned tt)
          × (has_hosts (add_peer p place net c name key s).1.router ≡ true)
    unfolding add_peer set_master_node insert_route
    add_peer_lem name key s = ground (
      arith,
      greet-returns name s,
      insert-nonempty name key (greet p place net c name s).1.router.hosts_keys,
    )

    update_from_lines_lem :
        (lines : List String) (s : Discovery)
        → let (r, s') = update_from_lines p place net c lines s in
          (returns r ≡ true) × (has_hosts s'.router ≡ (has_hosts s.router || has_peer lines))
    unfolding update_from_lines has_peer
    update_from_lines_lem [] s = ground arith
    update_from_lines_lem (line ∷ lines) s = elim (Option-cases (split_at b'\t' line)) [
      | inl missing ↦ ground (arith, update_from_lines_lem lines s)
      | inr ((name, key), split) ↦ ground (
        arith,
        update_from_lines_lem lines s,
        add_peer_lem name key s,
        update_from_lines_lem lines (add_peer p place net c name key s).1,
      )
    ]

    discover_lem :
        (r : Router)
        → let (found, r') = discover p place c net r in
          (returns found ≡ true) × (has_hosts r' ≡ (has_hosts r || has_peer (peers_lines p c)))
    unfolding discover update_peers_list update_from_file has_peer
    discover_lem r = elim (Option-cases (get_param "peers_keys" c)) [
      | inl missing ↦ ground arith
      | inr (path, found) ↦ elim (Option-cases (p.read_lines path)) [
        | inl unread ↦ ground arith
        | inr (lines, read) ↦
            ground
              (arith, update_from_lines_lem lines (record { router = r; hello_result = new_hello }))
      ]
    ]

  wait_for_peers_lem :
      (nets : List Neighbours) (text : String) (r : Router)
      → AllHelloEnd nets
      → get_param "port" c ≡ some text
      → has_hosts r ≡ has_peer (peers_lines p c)
      → (wait_for_peers p place c nets r).0 ≡ returned (has_peer (peers_lines p c))
  unfolding wait_for_peers get_reachable_peers_number
  wait_for_peers_lem [] text r ends configured h = ground arith
  wait_for_peers_lem (net ∷ nets) text r ends configured h = ground (
    arith,
    discover_lem net ends.0 text configured r,
    wait_for_peers_lem nets text (discover p place c net r).1 ends.1 configured,
  )

  -- If the port is configured and every call of hello ends, be it with an exception, then the loop
  -- of the client that waits for a peer ends at once if the file of the peers has a line with a
  -- name before any line without a tab, and otherwise never ends, in any number of rounds; whether
  -- a peer answers makes no difference.
  pub find_peers-ends :
      (net : Neighbours) (nets : List Neighbours) (text : String)
      → HelloEnds net
      → AllHelloEnd nets
      → get_param "port" c ≡ some text
      → (find_peers p place c net nets new_router).0 ≡ returned (has_peer (peers_lines p c))
  unfolding find_peers
  find_peers-ends net nets text ends all_end configured = ground (
    arith,
    discover_lem net ends text configured new_router,
    wait_for_peers_lem nets text (discover p place c net new_router).1 all_end configured,
  )
