-- ===== src/Effect/Keeps.antt =====
-- What a step leaves as it was, one rule for each way to build a step.
use open_workload_scheduler.Base.{
  ℕ, Bool, true, false, Option, none, some, List, [], ◌∷◌, ◌≡◌, refl, ◌∙◌, ap, if◌then◌else◌,
  get_elem?,
}
use open_workload_scheduler.Effect.{
  M, Outcome, Exception, std_exception, returned, thrown, undefined, blocked, ◌>>=◌, pure, lift,
  throw, throw_if, try_catch, gets, deref, or_throw, column, column_at, for_each, all_of,
  undefined_behaviour,
}

-- However `m` ends, the view `v` of the state is what it was.
pub record Keeps {S V A : Type 0} (v : S → V) (m : M S A) : Type 0 where
  pub at : (s : S) → v (m s).1 ≡ v s

module _ {S V A : Type 0} (v : S → V) where
  pub Keeps-pure : (a : A) → Keeps v (pure {S = S} a)
  Keeps-pure a = record { at = λ s. refl }

  pub Keeps-lift : (r : Outcome A) → Keeps v (lift {S = S} r)
  Keeps-lift r = record { at = λ s. refl }

  pub Keeps-throw : (e : Exception) → Keeps v (throw {S = S} {A = A} e)
  Keeps-throw e = record { at = λ s. refl }

  pub Keeps-undefined_behaviour : Keeps v (undefined_behaviour {S = S} {A = A})
  Keeps-undefined_behaviour = record { at = λ s. refl }

  pub Keeps-gets : (f : S → A) → Keeps v (gets f)
  Keeps-gets f = record { at = λ s. refl }

  pub Keeps-or_throw : (o : Option A) (e : Exception) → Keeps v (or_throw {S = S} o e)
  Keeps-or_throw none e = record { at = λ s. refl }
  Keeps-or_throw (some a) e = record { at = λ s. refl }

  pub Keeps-deref : (o : Option A) → Keeps v (deref {S = S} o)
  Keeps-deref none = record { at = λ s. refl }
  Keeps-deref (some a) = record { at = λ s. refl }

  pub Keeps-column : (l : List A) (i : ℕ) → Keeps v (column {S = S} l i)
  Keeps-column l i = Keeps-deref (get_elem? l i)

  pub Keeps-column_at : (l : List A) (i : ℕ) → Keeps v (column_at {S = S} l i)
  Keeps-column_at l i = Keeps-or_throw (get_elem? l i) std_exception

  pub Keeps-if : (b : Bool) (m n : M S A) → Keeps v m → Keeps v n → Keeps v (if b then m else n)
  Keeps-if true m n km kn = km
  Keeps-if false m n km kn = kn

module _ {S V : Type 0} (v : S → V) where
  pub Keeps-throw_if : (b : Bool) (e : Exception) → Keeps v (throw_if {S = S} b e)
  Keeps-throw_if b e = record { at = λ s. refl }

module _ {S V A B : Type 0} (v : S → V) where
  rest :
      (r : Outcome A) (f : A → M S B) → ((a : A) → Keeps v (f a)) → Keeps v (lift {S = S} r >>= f)
  rest (returned a) f kf = kf a
  rest (thrown e) f kf = record { at = λ s. refl }
  rest undefined f kf = record { at = λ s. refl }
  rest blocked f kf = record { at = λ s. refl }

  pub Keeps-bind :
      (m : M S A) (f : A → M S B) → Keeps v m → ((a : A) → Keeps v (f a)) → Keeps v (m >>= f)
  Keeps-bind m f km kf = record { at = λ s. (rest (m s).0 f kf).at (m s).1 ∙ km.at s }

module _ {S V A B : Type 0} (v : S → V) where
  pub Keeps-for_each :
      (xs : List A) (f : A → M S B) → ((a : A) → Keeps v (f a)) → Keeps v (for_each xs f)
  unfolding for_each
  Keeps-for_each [] f kf = record { at = λ s. refl }
  Keeps-for_each (x ∷ xs) f kf =
      Keeps-bind v (f x) (λ y. for_each xs f >>= λ ys. pure (y ∷ ys)) (kf x)
        (λ y.
          Keeps-bind v (for_each xs f) (λ ys. pure (y ∷ ys)) (Keeps-for_each xs f kf)
            (λ ys. Keeps-pure v (y ∷ ys)))

module _ {S V A : Type 0} (v : S → V) where
  pub Keeps-all_of :
      (xs : List A) (f : A → M S Bool) → ((a : A) → Keeps v (f a)) → Keeps v (all_of xs f)
  unfolding all_of
  Keeps-all_of [] f kf = record { at = λ s. refl }
  Keeps-all_of (x ∷ xs) f kf =
      Keeps-bind v (f x) (λ done. if done then all_of xs f else pure false) (kf x)
        (λ done.
          Keeps-if v done (all_of xs f) (pure false) (Keeps-all_of xs f kf) (Keeps-pure v false))

  pub Keeps-option :
      {B : Type 0} (o : Option B) (m : M S A) (f : B → M S A)
      → Keeps v m
      → ((b : B) → Keeps v (f b))
      → Keeps v (elim o [ none ↦ m | some b ↦ f b ])
  Keeps-option none m f km kf = km
  Keeps-option (some b) m f km kf = kf b

  caught :
      (r : Outcome A) (handler : Exception → M S A)
      → ((e : Exception) → Keeps v (handler e))
      → Keeps v (try_catch (lift {S = S} r) handler)
  caught (returned a) handler kh = record { at = λ s. refl }
  caught (thrown e) handler kh = kh e
  caught undefined handler kh = record { at = λ s. refl }
  caught blocked handler kh = record { at = λ s. refl }

  pub Keeps-try_catch :
      (m : M S A) (handler : Exception → M S A)
      → Keeps v m
      → ((e : Exception) → Keeps v (handler e))
      → Keeps v (try_catch m handler)
  Keeps-try_catch m handler km kh = record {
    at = λ s. (caught (m s).0 handler kh).at (m s).1 ∙ km.at s;
  }

  pub Keeps-through : {W : Type 0} (f : V → W) (m : M S A) → Keeps v m → Keeps (λ s. f (v s)) m
  Keeps-through f m km = record { at = λ s. ap f (km.at s) }

pub ruleset keeps_rules = (
  Keeps-pure, Keeps-lift, Keeps-throw, Keeps-undefined_behaviour, Keeps-gets, Keeps-or_throw,
  Keeps-deref, Keeps-column, Keeps-column_at, Keeps-if, Keeps-throw_if, Keeps-bind, Keeps-for_each,
  Keeps-all_of, Keeps-option, Keeps-try_catch,
)
