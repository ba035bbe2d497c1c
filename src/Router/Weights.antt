-- ===== src/Router/Weights.antt =====
-- src/router.cpp: the weights of the routes that the discovery inserts.
use open_workload_scheduler.Base.{
  ℕ, String, Bool, true, false, Option, none, some, List, [], ◌∷◌, ◌≡◌, arith, eq_iff, inl, inr,
  Option-cases, if◌then◌else◌, not, empty, ◌&&◌, ◌||◌,
}
use open_workload_scheduler.Base.Int.{ℤ, pos, leb_ℤ, pos_part}
use open_workload_scheduler.Effect.{M, returned, ◌>>=◌, ◌>>◌, pure, lift, modify}
use open_workload_scheduler.Effect.Preserves.{
  Preserves, Preserves-bind, Preserves-lift-bind, Preserves-pure, Preserves-if, preserves_rules,
}
use open_workload_scheduler.Platform.{Platform}
use open_workload_scheduler.Model.{Route}
use open_workload_scheduler.StringMap.{
  StringMap, lookup, Every, insert-Every, update-Every, lookup-Every,
}
use open_workload_scheduler.Config.{Config, get_param, split_at}
use open_workload_scheduler.Router.Index.{WeightedGateway, Insert, IsInsertion, contains}
use open_workload_scheduler.Router.Table.{
  Router, set_master_node, insert_route, get_route, route_of, table_with,
}
use open_workload_scheduler.Router.Peers.{
  Neighbours, Discovery, greet, add_peer, update_from_lines, update_from_file, update_peers_list,
  read_port, reach_master, is_comment, reach_through_any, reach_master_through,
}

abbrev pub IsWeightless : List WeightedGateway → Type 0
IsWeightless l = (a : WeightedGateway) → contains a l ≡ true → a.weight ≡ 0

-- No route of the table has a weight.
abbrev pub IsFlat : Router → Type 0
IsFlat r = Every IsWeightless r.routing_table

-- No neighbour tells a distance to the master.
abbrev pub TellsNoDistance : Neighbours → Type 0
TellsNoDistance net =
    (host : String) (port : ℤ) (route : Route)
    → net.reach_master host port ≡ returned route
    → pos_part route.hops ≡ 0

first-IsWeightless :
    (e : WeightedGateway) (l : List WeightedGateway) → IsWeightless (e ∷ l) → e.weight ≡ 0
first-IsWeightless e l h = h e (ground (arith, eq_iff e.gateway e.gateway))

route_of-IsWeightless :
    (e : WeightedGateway) (l : List WeightedGateway)
    → IsWeightless l
    → route_of (some l) ≡ returned (some e)
    → e.weight ≡ 0
route_of-IsWeightless e [] h found = ground arith
route_of-IsWeightless e (f ∷ l) h found = ground (arith, first-IsWeightless f l h)

pub get_route-IsFlat :
    (destination : String) (e : WeightedGateway) (r : Router)
    → IsFlat r
    → get_route destination r ≡ returned (some e)
    → e.weight ≡ 0
unfolding get_route
get_route-IsFlat destination e r flat found =
    elim (Option-cases (lookup destination r.routing_table)) [
      | inl missing ↦ ground arith
      | inr (l, there) ↦
          route_of-IsWeightless e l
            (lookup-Every IsWeightless destination l r.routing_table flat there) (ground arith)
    ]

module _ (p : Platform) (place : Insert) (laws : IsInsertion place) (net : Neighbours)
    (c : Config) where
  place-IsWeightless :
      (gateway : String) (l : List WeightedGateway)
      → IsWeightless l
      → IsWeightless (place (record { weight = 0; gateway = gateway }) l)
  place-IsWeightless gateway l h a inside =
      let e : WeightedGateway = record { weight = 0; gateway = gateway } in
      ground (arith, laws.content a e l, h a)

  none-IsWeightless : IsWeightless []
  none-IsWeightless a inside = ground arith

  table_with-IsFlat :
      (found : Option (List WeightedGateway)) (destination gateway : String)
      (table : StringMap (List WeightedGateway))
      → Every IsWeightless table
      → Every IsWeightless
          (table_with place found destination (record { weight = 0; gateway = gateway }) table)
  table_with-IsFlat none destination gateway table flat =
      insert-Every IsWeightless destination (place (record { weight = 0; gateway = gateway }) [])
        table (place-IsWeightless gateway [] none-IsWeightless) flat
  table_with-IsFlat (some l) destination gateway table flat =
      update-Every IsWeightless destination (place (record { weight = 0; gateway = gateway })) table
        (place-IsWeightless gateway) flat

  insert_route-IsFlat :
      (destination gateway : String) (r : Router)
      → IsFlat r
      → IsFlat (insert_route place destination gateway 0 r)
  unfolding insert_route
  insert_route-IsFlat destination gateway r flat =
      table_with-IsFlat (lookup destination r.routing_table) destination gateway r.routing_table
        flat

  read_port-Preserves : {S : Type 0} (P : S → Type 0) → Preserves P (read_port {S = S} p c)
  unfolding read_port
  read_port-Preserves P = search preserves_rules

  abbrev IsFlatTable : Discovery → Type 0
  IsFlatTable s = IsFlat s.router

  greet-Preserves : (name : String) → Preserves IsFlatTable (greet p place net c name)
  unfolding greet
  greet-Preserves name = search (preserves_rules, read_port-Preserves) depth 30 fits 2000

  set_master_node-IsFlat :
      (o : Option String) (r : Router) → IsFlat r → IsFlat (set_master_node o r).1
  unfolding set_master_node
  set_master_node-IsFlat none r flat = flat
  set_master_node-IsFlat (some name) r flat = ground arith

  ruleset flat_rules = (
    preserves_rules, read_port-Preserves, greet-Preserves, insert_route-IsFlat,
    set_master_node-IsFlat,
  )

  add_peer-Preserves :
      (name public_key : String) → Preserves IsFlatTable (add_peer p place net c name public_key)
  unfolding add_peer
  add_peer-Preserves name public_key = search flat_rules depth 30 fits 2000

  line-Preserves :
      (entry : Option (String × String)) (rest : M Discovery Bool)
      → Preserves IsFlatTable rest
      → Preserves IsFlatTable (elim entry [
        | none ↦ pure false
        | some (name, public_key) ↦
            (if empty name then pure tt else add_peer p place net c name public_key) >> rest
      ])
  line-Preserves none rest h = Preserves-pure IsFlatTable false
  line-Preserves (some (name, public_key)) rest h =
      search (preserves_rules, add_peer-Preserves) depth 30 fits 2000

  update_from_lines-Preserves :
      (lines : List String) → Preserves IsFlatTable (update_from_lines p place net c lines)
  unfolding update_from_lines
  update_from_lines-Preserves [] = search preserves_rules
  update_from_lines-Preserves (line ∷ lines) =
      let rest = update_from_lines p place net c lines in
      let ih = update_from_lines-Preserves lines in
      Preserves-if IsFlatTable (is_comment line || empty line) rest _ ih
        (line-Preserves (split_at b'\t' line) rest ih)

  update_from_file-Preserves :
      (found : Option (List String)) → Preserves IsFlatTable (update_from_file p place net c found)
  unfolding update_from_file
  update_from_file-Preserves none = search preserves_rules
  update_from_file-Preserves (some lines) = update_from_lines-Preserves lines

  path-Preserves :
      (path : Option String)
      → Preserves IsFlatTable (elim path [
        | none ↦ pure false
        | some path ↦
            if empty path then pure false else update_from_file p place net c (p.read_lines path)
      ])
  path-Preserves none = Preserves-pure IsFlatTable false
  path-Preserves (some path) =
      Preserves-if IsFlatTable (empty path) (pure false) _ (Preserves-pure IsFlatTable false)
        (update_from_file-Preserves (p.read_lines path))

  -- Reading the peers keeps the table flat.
  pub update_peers_list-Preserves : Preserves IsFlatTable (update_peers_list p place net c)
  unfolding update_peers_list
  update_peers_list-Preserves = path-Preserves (get_param "peers_keys" c)

  insert_weight-IsFlat :
      (destination gateway : String) (w : ℕ) (r : Router)
      → w ≡ 0
      → IsFlat r
      → IsFlat (insert_route place destination gateway w r)
  insert_weight-IsFlat destination gateway w r h flat =
      rw h (insert_route-IsFlat destination gateway r flat)

  abbrev noted : String → Route → M Router Bool
  noted target result =
      if not (empty result.destination_name) && leb_ℤ (pos 0) result.hops
      then modify (λ r. (set_master_node (some result.destination_name) r).1)
        >> modify (insert_route place result.destination_name target (pos_part result.hops))
        >> pure true
      else pure false

  noted-Preserves :
      (target : String) (result : Route)
      → pos_part result.hops ≡ 0
      → Preserves IsFlat (noted target result)
  noted-Preserves target result h =
      search (preserves_rules, set_master_node-IsFlat, insert_weight-IsFlat) depth 30 fits 2000

  reach_master_through-Preserves :
      TellsNoDistance net
      → (target : String) → Preserves IsFlat (reach_master_through p place net c target)
  unfolding reach_master_through
  reach_master_through-Preserves near target =
      Preserves-bind IsFlat (read_port p c)
        (λ port. lift (net.reach_master target port) >>= noted target) (read_port-Preserves IsFlat)
        (λ port.
          Preserves-lift-bind IsFlat (net.reach_master target port) (noted target)
            (λ result e. noted-Preserves target result (near target port result e)))

  reach_through_any-Preserves :
      TellsNoDistance net
      → (hosts : StringMap String) → Preserves IsFlat (reach_through_any p place net c hosts)
  unfolding reach_through_any
  reach_through_any-Preserves near [] = search preserves_rules
  reach_through_any-Preserves near ((host, key) ∷ hosts) =
      let rest = reach_through_any p place net c hosts in
      Preserves-bind IsFlat (reach_master_through p place net c host)
        (λ reached. if reached then pure true else rest) (reach_master_through-Preserves near host)
        (λ reached.
          Preserves-if IsFlat reached (pure true) rest (Preserves-pure IsFlat true)
            (reach_through_any-Preserves near hosts))

  -- Asking for the master keeps the table flat, if no neighbour tells a distance.
  pub reach_master-Preserves : TellsNoDistance net → Preserves IsFlat (reach_master p place net c)
  unfolding reach_master
  reach_master-Preserves near =
      let any = reach_through_any-Preserves near in search (preserves_rules, any) depth 30 fits 2000
