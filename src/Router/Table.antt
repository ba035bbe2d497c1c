-- ===== src/Router/Table.antt =====
-- src/router.cpp: the routing table and the master node.
use open_workload_scheduler.Base.{
  ℕ, String, Bool, true, false, Option, none, some, List, [], ◌∷◌, length, empty, not,
  if◌then◌else◌,
}
use open_workload_scheduler.Effect.{Outcome, returned, undefined}
use open_workload_scheduler.StringMap.{StringMap, lookup, update, erase}
use open_workload_scheduler.StringMap
use open_workload_scheduler.Router.Index.{WeightedGateway, Insert, erase_gateway}

pub record Router : Type 0 where
  pub hosts_keys : StringMap String
  pub routing_table : StringMap (List WeightedGateway)
  pub master_node : String

-- The state of a new router.
abbrev pub new_router : Router
new_router = record { hosts_keys = []; routing_table = []; master_node = "" }

-- `iter->second.begin()` read through the iterator: the end of an empty container cannot be read.
abbrev pub first_of_index : List WeightedGateway → Outcome WeightedGateway
first_of_index [] = undefined
first_of_index (e ∷ l) = returned e

abbrev pub route_of : Option (List WeightedGateway) → Outcome (Option WeightedGateway)
route_of none = returned none
route_of (some []) = undefined
route_of (some (e ∷ l)) = returned (some e)

-- `get_route`; `none` is the null pointer.
unfoldable pub get_route : String → Router → Outcome (Option WeightedGateway)
get_route destination r = route_of (lookup destination r.routing_table)

abbrev pub gateway_of : Option (List WeightedGateway) → Outcome (Option String)
gateway_of none = returned none
gateway_of (some []) = undefined
gateway_of (some (e ∷ l)) = returned (some e.gateway)

-- `get_gateway`; `none` is the null pointer.
unfoldable pub get_gateway : String → Router → Outcome (Option String)
get_gateway destination r = gateway_of (lookup destination r.routing_table)

abbrev pub erase_everywhere :
    String → StringMap (List WeightedGateway) → StringMap (List WeightedGateway)
erase_everywhere gateway [] = []
erase_everywhere gateway ((k, l) ∷ m) = (k, erase_gateway gateway l) ∷ erase_everywhere gateway m

abbrev pub with_table : Router → StringMap (List WeightedGateway) → Router
with_table r table = record r { routing_table = table }

-- `delete_route` with a destination, a gateway, both or neither.
unfoldable pub delete_route : Option String → Option String → Router → Bool × Router
delete_route destination gateway r = elim r.routing_table [
  | [] ↦ (false, r)
  | entry ∷ entries ↦ elim destination [
    | none ↦ elim gateway [
      | none ↦ (true, r)
      | some g ↦ (true, with_table r (erase_everywhere g r.routing_table))
    ]
    | some dst ↦ elim gateway [
      | none ↦ (true, with_table r (erase dst r.routing_table))
      | some g ↦ elim (lookup dst r.routing_table) [
        | none ↦ (false, r)
        | some l ↦ (true, with_table r (update dst (erase_gateway g) r.routing_table))
      ]
    ]
  ]
]

-- `set_master_node`: only the first name is kept.
unfoldable pub set_master_node : Option String → Router → Bool × Router
set_master_node none r = (false, r)
set_master_node (some node) r =
    if not (empty r.master_node) then (false, r) else (true, record r { master_node = node })

unfoldable pub get_reachable_peers_number : Router → ℕ
get_reachable_peers_number r = length r.hosts_keys

module _ (place : Insert) where
  abbrev pub table_with :
      Option (List WeightedGateway)
      → String
      → WeightedGateway
      → StringMap (List WeightedGateway)
      → StringMap (List WeightedGateway)
  table_with none destination e table = StringMap.insert destination (place e []) table
  table_with (some l) destination e table = update destination (place e) table

  -- `insert_route`, which always gives `true`.
  unfoldable pub insert_route : String → String → ℕ → Router → Router
  insert_route destination gateway weight r = record r {
    routing_table =
        table_with (lookup destination r.routing_table) destination
          (record { weight = weight; gateway = gateway }) r.routing_table;
  }
