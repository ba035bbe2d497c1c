-- ===== src/StringMap.antt =====
-- `std::map<std::string, V>` as the list of its entries, each key once.
use Prim.Native.Nat.{Ordering}
use Prim.Native.String as Text
use open_workload_scheduler.Base.{
  String, Option, none, some, List, [], ◌∷◌, ◌≡◌, refl, arith, eq_iff, ◌==◌, if◌then◌else◌,
}

abbrev pub StringMap {ℓ} : Type ℓ → Type ℓ
StringMap V = List (String × V)

module _ {ℓ} {V : Type ℓ} where
  -- `find`
  abbrev pub lookup : String → StringMap V → Option V
  lookup k [] = none
  lookup k ((j, v) ∷ m) = if j == k then some v else lookup k m

  -- `insert`, which does nothing if the key is there.
  abbrev pub insert : String → V → StringMap V → StringMap V
  insert k v [] = (k, v) ∷ []
  insert k v ((j, w) ∷ m) = if j == k then (j, w) ∷ m else (j, w) ∷ insert k v m

  -- Assignment through the iterator that `find` gives.
  abbrev pub update : String → (V → V) → StringMap V → StringMap V
  update k f [] = []
  update k f ((j, v) ∷ m) = if j == k then (j, f v) ∷ m else (j, v) ∷ update k f m

  -- `erase` of a key; every key stands once, but all its entries go.
  abbrev pub erase : String → StringMap V → StringMap V
  erase k [] = []
  erase k ((j, v) ∷ m) = if j == k then erase k m else (j, v) ∷ erase k m

  -- The entries in the order of iteration, which is that of the keys.
  abbrev pub place : String × V → StringMap V → StringMap V
  place e [] = e ∷ []
  place e (f ∷ m) = elim (Text.compare e.0 f.0) [ Ordering.gt ↦ f ∷ place e m | _ ↦ e ∷ f ∷ m ]

  unfoldable pub in_key_order : StringMap V → StringMap V
  in_key_order [] = []
  in_key_order (e ∷ m) = place e (in_key_order m)

  abbrev pub or_else : Option V → V → V
  or_else none v = v
  or_else (some w) v = w

  pub lookup-insert :
      (j k : String) (v : V) (m : StringMap V)
      → lookup j (insert k v m) ≡ (if k == j then some (or_else (lookup k m) v) else lookup j m)
  lookup-insert j k v [] = refl
  lookup-insert j k v ((i, w) ∷ m) =
      ground (arith, eq_iff k j, eq_iff i k, eq_iff i j, lookup-insert j k v m)

  pub lookup-erase :
      (j k : String) (m : StringMap V)
      → lookup j (erase k m) ≡ (if k == j then none else lookup j m)
  lookup-erase j k [] = ground (arith, eq_iff k j)
  lookup-erase j k ((i, w) ∷ m) =
      ground (arith, eq_iff k j, eq_iff i k, eq_iff i j, lookup-erase j k m)

  abbrev pub map_option : (V → V) → Option V → Option V
  map_option f none = none
  map_option f (some v) = some (f v)

  pub lookup-update :
      (j k : String) (f : V → V) (m : StringMap V)
      → lookup j (update k f m) ≡ (if k == j then map_option f (lookup j m) else lookup j m)
  lookup-update j k f [] = ground (arith, eq_iff k j)
  lookup-update j k f ((i, w) ∷ m) =
      ground (arith, eq_iff k j, eq_iff i k, eq_iff i j, lookup-update j k f m)

module _ {ℓ κ} {V : Type ℓ} (P : V → Type κ) where
  -- Every value of the map has the property.
  abbrev pub Every : StringMap V → Type κ
  Every [] = Unit
  Every ((k, v) ∷ m) = P v × Every m

  pub insert-Every : (k : String) (v : V) (m : StringMap V) → P v → Every m → Every (insert k v m)
  insert-Every k v [] h e = (h, tt)
  insert-Every k v ((j, w) ∷ m) h e = ground (arith, insert-Every k v m h)

  pub update-Every :
      (k : String) (f : V → V) (m : StringMap V)
      → ((v : V) → P v → P (f v))
      → Every m
      → Every (update k f m)
  update-Every k f [] h e = tt
  update-Every k f ((j, v) ∷ m) h e = ground (arith, update-Every k f m h, h v)

  pub erase-Every : (k : String) (m : StringMap V) → Every m → Every (erase k m)
  erase-Every k [] e = tt
  erase-Every k ((j, v) ∷ m) e = ground (arith, erase-Every k m)

  pub lookup-Every : (k : String) (v : V) (m : StringMap V) → Every m → lookup k m ≡ some v → P v
  lookup-Every k v [] e found = absurd (ground arith)
  lookup-Every k v ((j, w) ∷ m) e found = ground (arith, lookup-Every k v m e.1)
