-- ===== src/Router/Routes.antt =====
-- src/router.cpp: the order of the indexes, and the gateway that the table gives.
use open_workload_scheduler.Base.{
  ℕ, ◌≤◌, String, true, Option, none, some, List, [], ◌∷◌, ◌≡◌, arith, eq_iff, inl, inr,
  Option-cases, List-cases,
}
use open_workload_scheduler.Effect.{returned}
use open_workload_scheduler.StringMap.{
  StringMap, lookup, lookup-insert, lookup-update, Every, erase-Every, update-Every, insert-Every,
  lookup-Every,
}
use open_workload_scheduler.Router.Index.{
  WeightedGateway, Insert, IsInsertion, IsOrdered, IsBound, contains, erase_gateway,
}
use open_workload_scheduler.Router.Table.{
  Router, new_router, get_route, insert_route, delete_route, erase_everywhere, route_of,
}

-- Every index of the table is in the order of its weights.
abbrev pub AllOrdered : StringMap (List WeightedGateway) → Type 0
AllOrdered = Every IsOrdered

pub bound_lem : (w v : ℕ) (l : List WeightedGateway) → w ≤ v → IsBound v l → IsBound w l
bound_lem w v [] h b = tt
bound_lem w v (e ∷ l) h b = ground (arith, bound_lem w v l h)

erase_gateway-IsBound :
    (w : ℕ) (g : String) (l : List WeightedGateway) → IsBound w l → IsBound w (erase_gateway g l)
unfolding erase_gateway
erase_gateway-IsBound w g [] b = tt
erase_gateway-IsBound w g (e ∷ l) b = ground (arith, erase_gateway-IsBound w g l)

erase_gateway-IsOrdered :
    (g : String) (l : List WeightedGateway) → IsOrdered l → IsOrdered (erase_gateway g l)
unfolding erase_gateway
erase_gateway-IsOrdered g [] o = tt
erase_gateway-IsOrdered g (e ∷ l) o =
    ground (arith, erase_gateway-IsOrdered g l, erase_gateway-IsBound e.weight g l)

erase_everywhere-AllOrdered :
    (g : String) (m : StringMap (List WeightedGateway))
    → AllOrdered m
    → AllOrdered (erase_everywhere g m)
erase_everywhere-AllOrdered g [] o = tt
erase_everywhere-AllOrdered g ((k, l) ∷ m) o =
    (erase_gateway-IsOrdered g l o.0, erase_everywhere-AllOrdered g m o.1)

delete_route-AllOrdered :
    (destination gateway : Option String) (r : Router)
    → AllOrdered r.routing_table
    → AllOrdered (delete_route destination gateway r).1.routing_table
unfolding delete_route
delete_route-AllOrdered none none r o = ground arith
delete_route-AllOrdered none (some g) r o =
    ground (arith, erase_everywhere-AllOrdered g r.routing_table)
delete_route-AllOrdered (some dst) none r o =
    ground (arith, erase-Every IsOrdered dst r.routing_table)
delete_route-AllOrdered (some dst) (some g) r o = ground (
  arith,
  update-Every IsOrdered dst (erase_gateway g) r.routing_table (erase_gateway-IsOrdered g) o,
)

bound_of_contained :
    (w : ℕ) (a : WeightedGateway) (l : List WeightedGateway)
    → IsBound w l
    → contains a l ≡ true
    → w ≤ a.weight
bound_of_contained w a [] b c = ground arith
bound_of_contained w a (e ∷ l) b c = ground (arith, bound_of_contained w a l b.1)

-- A change of the routing table.
pub data Change : Type 0 where
  inserted : String → String → ℕ → Change
  deleted : Option String → Option String → Change

module _ (place : Insert) (laws : IsInsertion place) where
  unfoldable pub change : Change → Router → Router
  unfolding insert_route delete_route
  change (inserted destination gateway weight) r = insert_route place destination gateway weight r
  change (deleted destination gateway) r = (delete_route destination gateway r).1

  unfoldable pub change_all : List Change → Router → Router
  unfolding change
  change_all [] r = r
  change_all (x ∷ xs) r = change_all xs (change x r)

  insert_route-AllOrdered :
      (destination gateway : String) (weight : ℕ) (r : Router)
      → AllOrdered r.routing_table
      → AllOrdered (insert_route place destination gateway weight r).routing_table
  unfolding insert_route
  insert_route-AllOrdered destination gateway weight r o =
      let e : WeightedGateway = record { weight = weight; gateway = gateway } in
      ground (
        arith,
        insert-Every IsOrdered destination (place e []) r.routing_table (laws.keeps_order e [] tt)
            o,
        update-Every IsOrdered destination (place e) r.routing_table (laws.keeps_order e) o,
      )

  change_all-AllOrdered :
      (xs : List Change) (r : Router)
      → AllOrdered r.routing_table
      → AllOrdered (change_all xs r).routing_table
  unfolding change_all change
  change_all-AllOrdered [] r o = o
  change_all-AllOrdered (inserted dst g w ∷ xs) r o =
      change_all-AllOrdered xs _ (insert_route-AllOrdered dst g w r o)
  change_all-AllOrdered (deleted dst g ∷ xs) r o =
      change_all-AllOrdered xs _ (delete_route-AllOrdered dst g r o)

  -- Whatever routes were inserted and deleted since the router was made, the route that get_route
  -- gives is at most as heavy as every other route to that destination, if new elements are
  -- inserted in the order of the weights.
  pub get_route_lightest :
      (xs : List Change) (destination : String) (e : WeightedGateway) (l : List WeightedGateway)
      → let r = change_all xs new_router in
        lookup destination r.routing_table ≡ some l
        → get_route destination r ≡ returned (some e)
        → IsBound e.weight l
  unfolding get_route
  get_route_lightest xs destination e l found route =
      let r = change_all xs new_router in
      ground (
        arith,
        bound_lem e.weight e.weight l,
        lookup-Every IsOrdered destination l r.routing_table
            (change_all-AllOrdered xs new_router tt) found,
      )

  placed-first :
      (e : WeightedGateway) (l : List WeightedGateway)
      → IsOrdered l
      → (a : WeightedGateway) × (route_of (some (place e l)) ≡ returned (some a))
        × (a.weight ≤ e.weight)
  placed-first e l o = elim (List-cases (place e l)) [
    | inl none_left ↦ ground (arith, none_left, laws.content e e l, eq_iff e.gateway e.gateway)
    | inr (a, rest, split) ↦ (
      a,
      ground arith,
      ground (
        arith,
        split,
        laws.keeps_order e l o,
        laws.content e e l,
        eq_iff e.gateway e.gateway,
        bound_of_contained a.weight e rest,
      ),
    )
  ]

  -- With every index ordered, and insertion in the order of the weights, inserting a route gives
  -- its destination a route that is at most as heavy as the one inserted.
  pub insert_route_reaches :
      (destination gateway : String) (weight : ℕ) (r : Router)
      → AllOrdered r.routing_table
      → (e : WeightedGateway) × (get_route destination
            (insert_route place destination gateway weight r)
          ≡ returned (some e))
        × (e.weight ≤ weight)
  unfolding get_route insert_route
  insert_route_reaches destination gateway weight r o =
      let e : WeightedGateway = record { weight = weight; gateway = gateway } in
      elim (Option-cases (lookup destination r.routing_table)) [
        | inl missing ↦
            let (a, route, light) = placed-first e [] tt in
            (
              a,
              ground (
                arith,
                lookup-insert destination destination (place e []) r.routing_table,
                eq_iff destination destination,
              ),
              light,
            )
        | inr (l, found) ↦
            let (a, route, light) =
              placed-first e l (lookup-Every IsOrdered destination l r.routing_table o found) in
            (
              a,
              ground (
                arith,
                lookup-update destination destination (place e) r.routing_table,
                eq_iff destination destination,
              ),
              light,
            )
      ]
