-- ===== src/Effect/Preserves.antt =====
-- Invariants of the state, one rule for each way to build a step.
use open_workload_scheduler.Base.{Bool, true, false, Option, none, some, ◌≡◌, refl, if◌then◌else◌}
use open_workload_scheduler.Effect.{
  M, Outcome, Exception, returned, thrown, undefined, blocked, ◌>>=◌, pure, lift, throw, try_catch,
  gets, modify, deref, or_throw,
}

-- However `m` ends, the state has the property `P` if it had it before.
pub record Preserves {S A : Type 0} (P : S → Type 0) (m : M S A) : Type 0 where
  pub at : (s : S) → P s → P (m s).1

module _ {S A : Type 0} (P : S → Type 0) where
  pub Preserves-pure : (a : A) → Preserves P (pure a)
  Preserves-pure a = record { at = λ s h. h }

  pub Preserves-lift : (r : Outcome A) → Preserves P (lift r)
  Preserves-lift r = record { at = λ s h. h }

  pub Preserves-throw : (e : Exception) → Preserves P (throw {A = A} e)
  Preserves-throw e = record { at = λ s h. h }

  pub Preserves-gets : (f : S → A) → Preserves P (gets f)
  Preserves-gets f = record { at = λ s h. h }

  pub Preserves-deref : (o : Option A) → Preserves P (deref o)
  Preserves-deref none = record { at = λ s h. h }
  Preserves-deref (some a) = record { at = λ s h. h }

  pub Preserves-or_throw : (o : Option A) (e : Exception) → Preserves P (or_throw o e)
  Preserves-or_throw none e = record { at = λ s h. h }
  Preserves-or_throw (some a) e = record { at = λ s h. h }

  pub Preserves-if :
      (b : Bool) (m n : M S A) → Preserves P m → Preserves P n → Preserves P (if b then m else n)
  Preserves-if true m n hm hn = hm
  Preserves-if false m n hm hn = hn

  pub Preserves-option :
      {B : Type 0} (o : Option B) (m : M S A) (k : B → M S A)
      → Preserves P m
      → ((b : B) → Preserves P (k b))
      → Preserves P (elim o [ none ↦ m | some b ↦ k b ])
  Preserves-option none m k hm hk = hm
  Preserves-option (some b) m k hm hk = hk b

  caught :
      (r : Outcome A) (handler : Exception → M S A)
      → ((e : Exception) → Preserves P (handler e))
      → Preserves P (try_catch (lift r) handler)
  caught (returned a) handler hh = record { at = λ s h. h }
  caught (thrown e) handler hh = hh e
  caught undefined handler hh = record { at = λ s h. h }
  caught blocked handler hh = record { at = λ s h. h }

  pub Preserves-try_catch :
      (m : M S A) (handler : Exception → M S A)
      → Preserves P m
      → ((e : Exception) → Preserves P (handler e))
      → Preserves P (try_catch m handler)
  Preserves-try_catch m handler hm hh = record {
    at = λ s h. (caught (m s).0 handler hh).at (m s).1 (hm.at s h);
  }

module _ {S : Type 0} (P : S → Type 0) where
  pub Preserves-modify : (f : S → S) → ((s : S) → P s → P (f s)) → Preserves P (modify f)
  Preserves-modify f hf = record { at = λ s h. hf s h }

module _ {S A B : Type 0} (P : S → Type 0) where
  -- What was answered is known in what follows.
  pub Preserves-lift-bind :
      (r : Outcome A) (k : A → M S B)
      → ((a : A) → r ≡ returned a → Preserves P (k a))
      → Preserves P (lift r >>= k)
  Preserves-lift-bind (returned a) k hk = hk a refl
  Preserves-lift-bind (thrown e) k hk = record { at = λ s h. h }
  Preserves-lift-bind undefined k hk = record { at = λ s h. h }
  Preserves-lift-bind blocked k hk = record { at = λ s h. h }

  pub Preserves-bind :
      (m : M S A) (k : A → M S B)
      → Preserves P m
      → ((a : A) → Preserves P (k a))
      → Preserves P (m >>= k)
  Preserves-bind m k hm hk = record {
    at = λ s h. (Preserves-lift-bind (m s).0 k (λ a e. hk a)).at (m s).1 (hm.at s h);
  }

pub ruleset preserves_rules = (
  Preserves-pure, Preserves-lift, Preserves-throw, Preserves-gets, Preserves-deref,
  Preserves-or_throw, Preserves-if, Preserves-option, Preserves-try_catch, Preserves-modify,
  Preserves-bind,
)
