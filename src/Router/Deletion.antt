-- ===== src/Router/Deletion.antt =====
-- src/router.cpp: what is left of the routes after `delete_route`.
use open_workload_scheduler.Base.{
  String, false, Option, none, some, List, [], ◌∷◌, ◌≡◌, refl, arith, eq_iff, ◌==◌, inl, inr,
  Option-cases,
}
use open_workload_scheduler.Effect.{returned, undefined}
use open_workload_scheduler.StringMap.{StringMap, lookup, lookup-update, lookup-erase, map_option}
use open_workload_scheduler.Router.Index.{WeightedGateway, erase_gateway}
use open_workload_scheduler.Router.Table.{
  Router, get_route, get_gateway, delete_route, erase_everywhere,
}

erase_everywhere_lem :
    (destination gateway : String) (m : StringMap (List WeightedGateway))
    → lookup destination (erase_everywhere gateway m)
      ≡ map_option (erase_gateway gateway) (lookup destination m)
erase_everywhere_lem destination gateway [] = refl
erase_everywhere_lem destination gateway ((k, l) ∷ m) =
    ground (arith, erase_everywhere_lem destination gateway m)

-- Whether the first entry goes through another gateway, if there is a first entry.
abbrev FirstAvoids : String → List WeightedGateway → Type 0
FirstAvoids gateway [] = Unit
FirstAvoids gateway (e ∷ l) = (e.gateway == gateway) ≡ false

erase_gateway-FirstAvoids :
    (gateway : String) (l : List WeightedGateway) → FirstAvoids gateway (erase_gateway gateway l)
unfolding erase_gateway
erase_gateway-FirstAvoids gateway [] = tt
erase_gateway-FirstAvoids gateway (e ∷ l) = ground (arith, erase_gateway-FirstAvoids gateway l)

-- After all routes through a gateway are deleted, get_route gives no route through it.
pub delete_route_unused :
    (gateway destination : String) (r : Router) (e : WeightedGateway)
    → get_route destination (delete_route none (some gateway) r).1 ≡ returned (some e)
    → (e.gateway == gateway) ≡ false
unfolding get_route delete_route
delete_route_unused gateway destination r e route =
    elim (Option-cases (lookup destination r.routing_table)) [
      | inl missing ↦ ground (arith, erase_everywhere_lem destination gateway r.routing_table)
      | inr (l, found) ↦ ground (
        arith,
        found,
        erase_everywhere_lem destination gateway r.routing_table,
        erase_gateway-FirstAvoids gateway l,
      )
    ]

-- If the only gateway to a destination is deleted, asking get_gateway for that destination
-- afterwards reads past the end of an empty index.
pub delete_last_route :
    (destination : String) (r : Router) (e : WeightedGateway)
    → lookup destination r.routing_table ≡ some (e ∷ [])
    → get_gateway destination (delete_route none (some e.gateway) r).1 ≡ undefined
unfolding get_gateway delete_route erase_gateway
delete_last_route destination r e found =
    ground (
      arith,
      erase_everywhere_lem destination e.gateway r.routing_table,
      eq_iff e.gateway e.gateway,
    )

-- Deleting the routes to one destination, with or without a gateway, changes no route to another
-- destination.
pub delete_route_elsewhere :
    (destination other : String) (gateway : Option String) (r : Router)
    → (destination == other) ≡ false
    → get_route other (delete_route (some destination) gateway r).1 ≡ get_route other r
unfolding get_route delete_route
delete_route_elsewhere destination other none r apart =
    ground (arith, lookup-erase other destination r.routing_table)
delete_route_elsewhere destination other (some g) r apart =
    ground (arith, lookup-update other destination (erase_gateway g) r.routing_table)
