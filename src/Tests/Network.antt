-- ===== src/Tests/Network.antt =====
-- The theorems on src/router.cpp and src/rpc_server.cpp, run on a small network.
use open_workload_scheduler.Base.{
  ℕ, ◌≤◌, ltb, String, none, some, List, [], ◌∷◌, ◌≡◌, refl, arith, if◌then◌else◌, ◌||◌,
}
use open_workload_scheduler.Effect.{undefined}
use open_workload_scheduler.Config.{Config, passive}
use open_workload_scheduler.Router.Index.{
  WeightedGateway, Insert, IsInsertion, IsOrdered, IsBound, contains, same_entry, erase_gateway,
}
use open_workload_scheduler.Router.Table.{
  Router, get_route, get_gateway, insert_route, delete_route,
}
use open_workload_scheduler.Router.Routes.{
  Change, inserted, deleted, change, change_all, get_route_lightest, bound_lem,
}
use open_workload_scheduler.Router.Deletion.{delete_last_route}
use open_workload_scheduler.Tests.Data.{config_of, router}

-- The place of a new element behind those that are not heavier.
unfoldable pub sorted : Insert
sorted e [] = e ∷ []
sorted e (f ∷ l) = if ltb e.weight f.weight then e ∷ f ∷ l else f ∷ sorted e l

sorted-IsBound :
    (w : ℕ) (e : WeightedGateway) (l : List WeightedGateway)
    → w ≤ e.weight
    → IsBound w l
    → IsBound w (sorted e l)
unfolding sorted
sorted-IsBound w e [] h b = (h, tt)
sorted-IsBound w e (f ∷ l) h b = ground (arith, sorted-IsBound w e l h)

sorted-IsOrdered :
    (e : WeightedGateway) (l : List WeightedGateway) → IsOrdered l → IsOrdered (sorted e l)
unfolding sorted
sorted-IsOrdered e [] o = (tt, tt)
sorted-IsOrdered e (f ∷ l) o =
    ground (arith, sorted-IsOrdered e l, sorted-IsBound f.weight e l, bound_lem e.weight f.weight l)

sorted-contains :
    (a e : WeightedGateway) (l : List WeightedGateway)
    → contains a (sorted e l) ≡ (same_entry e a || contains a l)
unfolding sorted
sorted-contains a e [] = refl
sorted-contains a e (f ∷ l) = ground (arith, sorted-contains a e l)

pub sorted-IsInsertion : IsInsertion sorted
sorted-IsInsertion = record { keeps_order = sorted-IsOrdered; content = sorted-contains }

abbrev changes : List Change
changes =
    inserted "n5" "n3" 4
    ∷ inserted "n5" "n4" 2
    ∷ inserted "n5" "n6" 3
    ∷ deleted none (some "n6")
    ∷ []

abbrev entry : ℕ → String → WeightedGateway
entry weight gateway = record { weight = weight; gateway = gateway }

get_route_lightest_example : IsBound 2 (entry 2 "n4" ∷ entry 4 "n3" ∷ [])
unfolding change_all change insert_route delete_route sorted erase_gateway get_route
get_route_lightest_example =
    get_route_lightest sorted sorted-IsInsertion changes "n5" (entry 2 "n4")
      (entry 2 "n4" ∷ entry 4 "n3" ∷ []) refl refl

delete_last_route_example : get_gateway "n5" (delete_route none (some "n3") router).1 ≡ undefined
delete_last_route_example = delete_last_route "n5" router (entry 2 "n3") refl

abbrev config : Config
config = config_of (some passive)

abbrev stranger : Router
stranger = record router { master_node = "" }
