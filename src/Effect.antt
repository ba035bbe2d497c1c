-- ===== src/Effect.antt =====
-- How a call of the program ends, and state passing with such ends. The state comes back after an
-- exception too: what was written stays written.
pub mod Keeps
pub mod Ensures
pub mod Yields
pub mod Preserves
use open_workload_scheduler.Base.{
  ℕ, Bool, true, false, Option, none, some, List, [], ◌∷◌, get_elem?, String, if◌then◌else◌, ◌≡◌,
  refl, ◌⊎◌, inl, inr,
}

-- The exceptions of src/model.thrift, and those of the standard library, Boost and Thrift's transport.
pub data Exception : Type 0 where
  ex_routing ex_job ex_node ex_planning ex_processing : String → Exception
  std_exception : Exception

-- `undefined` is undefined behaviour, such as a read through a null pointer; `blocked` waits for a
-- mutex that its owner never releases.
pub data Outcome (A : Type 0) : Type 0 where
  returned : A → Outcome A
  thrown : Exception → Outcome A
  undefined : Outcome A
  blocked : Outcome A

pub Outcome-cases :
    {A : Type 0} (r : Outcome A)
    → ((a : A) × (r ≡ returned a))
      ⊎ (((e : Exception) × (r ≡ thrown e)) ⊎ ((r ≡ undefined) ⊎ (r ≡ blocked)))
Outcome-cases (returned a) = inl (a, refl)
Outcome-cases (thrown e) = inr (inl (e, refl))
Outcome-cases undefined = inr (inr (inl refl))
Outcome-cases blocked = inr (inr (inr refl))

-- A call that returns or throws: it neither waits for ever nor leaves the language.
abbrev pub Ends : {A : Type 0} → Outcome A → Type 0
Ends (returned a) = Unit
Ends (thrown e) = Unit
Ends undefined = ⊥
Ends blocked = ⊥

pub Ends-cases :
    {A : Type 0} (r : Outcome A)
    → Ends r
    → ((a : A) × (r ≡ returned a)) ⊎ ((e : Exception) × (r ≡ thrown e))
Ends-cases (returned a) h = inl (a, refl)
Ends-cases (thrown e) h = inr (e, refl)
Ends-cases undefined h = elim h [ ]
Ends-cases blocked h = elim h [ ]

abbrev pub M : Type 0 → Type 0 → Type 0
M S A = S → Outcome A × S

infixl 5 ◌>>=◌ ◌>>◌
abbrev pub ◌>>=◌ : {S A B : Type 0} → M S A → (A → M S B) → M S B
◌>>=◌ m f s =
    let (r, s') = m s in
    elim r [
      | returned a ↦ f a s'
      | thrown e ↦ (thrown e, s')
      | undefined ↦ (undefined, s')
      | blocked ↦ (blocked, s')
    ]

abbrev pub ◌>>◌ : {S A B : Type 0} → M S A → M S B → M S B
m >> k = m >>= λ _. k

module _ {S A : Type 0} where
  abbrev pub pure : A → M S A
  pure a s = (returned a, s)

  -- A value, an exception, or another end, that leaves the state alone.
  abbrev pub lift : Outcome A → M S A
  lift r s = (r, s)

  abbrev pub throw : Exception → M S A
  throw e s = (thrown e, s)

  abbrev pub undefined_behaviour : M S A
  undefined_behaviour s = (undefined, s)

  -- `try { m } catch (...) { ... }`: the handler rethrows what its clauses do not name.
  abbrev pub try_catch : M S A → (Exception → M S A) → M S A
  try_catch m handler s =
      let (r, s') = m s in
      elim r [
        | returned a ↦ (returned a, s')
        | thrown e ↦ handler e s'
        | undefined ↦ (undefined, s')
        | blocked ↦ (blocked, s')
      ]

  -- A conversion that throws what it is given when it fails.
  abbrev pub or_throw : Option A → Exception → M S A
  or_throw none e = throw e
  or_throw (some a) e = pure a

  -- Reading through a pointer, or an index that is not checked.
  abbrev pub deref : Option A → M S A
  deref none = undefined_behaviour
  deref (some a) = pure a

module _ {S : Type 0} where
  abbrev pub throw_if : Bool → Exception → M S (Unit {0})
  throw_if c e s = (if c then thrown e else returned tt, s)

  abbrev pub gets : {A : Type 0} → (S → A) → M S A
  gets f s = (returned (f s), s)

  abbrev pub modify : (S → S) → M S (Unit {0})
  modify f s = (returned tt, f s)

module _ {S A : Type 0} where
  -- `v[i]` and `v.at(i)`.
  abbrev pub column : List A → ℕ → M S A
  column v i = deref (get_elem? v i)

  abbrev pub column_at : List A → ℕ → M S A
  column_at v i = or_throw (get_elem? v i) std_exception

module _ {S A B : Type 0} where
  -- `BOOST_FOREACH(A x, xs) _return.push_back(f(x));`
  unfoldable pub for_each : List A → (A → M S B) → M S (List B)
  for_each [] f = pure []
  for_each (x ∷ xs) f = do y ← f x; ys ← for_each xs f; pure (y ∷ ys)

module _ {S A : Type 0} where
  -- `BOOST_FOREACH(A x, xs) if ( f(x) == false ) return false;`, then `return true;`.
  unfoldable pub all_of : List A → (A → M S Bool) → M S Bool
  all_of [] f = pure true
  all_of (x ∷ xs) f = do done ← f x; if done then all_of xs f else pure false
