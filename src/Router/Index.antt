-- ===== src/Router/Index.antt =====
-- include/router.h: `m_weighted_gateway`, a Boost multi-index container of gateways with their
-- weights. It is taken as the list of its elements in the order of its first index; where a new
-- element goes is a parameter, of which the order and the content are assumed.
use open_workload_scheduler.Base.{
  ℕ, ◌≤◌, String, Bool, false, List, [], ◌∷◌, ◌≡◌, ◌||◌, ◌&&◌, eqb, ◌==◌, if◌then◌else◌,
}

-- p_weighted_gateway: the cost and the gateway.
pub record WeightedGateway : Type 0 where
  pub weight : ℕ
  pub gateway : String

abbrev pub same_entry : WeightedGateway → WeightedGateway → Bool
same_entry a b = eqb a.weight b.weight && (a.gateway == b.gateway)

abbrev pub contains : WeightedGateway → List WeightedGateway → Bool
contains a [] = false
contains a (b ∷ l) = same_entry b a || contains a l

-- No element of the list is lighter than `w`.
abbrev pub IsBound : ℕ → List WeightedGateway → Type 0
IsBound w [] = Unit
IsBound w (e ∷ l) = (w ≤ e.weight) × IsBound w l

abbrev pub IsOrdered : List WeightedGateway → Type 0
IsOrdered [] = Unit
IsOrdered (e ∷ l) = IsBound e.weight l × IsOrdered l

abbrev pub Insert : Type 0
Insert = WeightedGateway → List WeightedGateway → List WeightedGateway

-- What Boost documents of `insert` into an `ordered_non_unique` index.
pub record IsInsertion (insert : Insert) : Type 0 where
  pub keeps_order :
      (e : WeightedGateway) (l : List WeightedGateway) → IsOrdered l → IsOrdered (insert e l)
  pub content :
      (a e : WeightedGateway) (l : List WeightedGateway)
      → contains a (insert e l) ≡ (same_entry e a || contains a l)

-- `get<1>().erase(gateway)`: every element with that gateway goes.
unfoldable pub erase_gateway : String → List WeightedGateway → List WeightedGateway
erase_gateway g [] = []
erase_gateway g (e ∷ l) = if e.gateway == g then erase_gateway g l else e ∷ erase_gateway g l
