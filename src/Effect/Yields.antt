-- ===== src/Effect/Yields.antt =====
-- What holds of the value that a step returns.
use open_workload_scheduler.Base.{◌≡◌, arith, subst}
use open_workload_scheduler.Effect.{
  M, Outcome, returned, thrown, undefined, blocked, ◌>>=◌, lift, pure,
}

-- Every value that `m` returns has the property `P`.
pub record Yields {S A : Type 0} (P : A → Type 0) (m : M S A) : Type 0 where
  pub at : (s : S) (a : A) → (m s).0 ≡ returned a → P a

module _ {S A B : Type 0} (P : B → Type 0) where
  pub Yields-lift :
      (r : Outcome A) (k : A → M S B) → ((a : A) → Yields P (k a)) → Yields P (lift {S = S} r >>= k)
  Yields-lift (returned a) k hk = hk a
  Yields-lift (thrown e) k hk = record { at = λ s b h. ground arith }
  Yields-lift undefined k hk = record { at = λ s b h. ground arith }
  Yields-lift blocked k hk = record { at = λ s b h. ground arith }

  -- The last step decides.
  pub Yields-bind : (m : M S A) (k : A → M S B) → ((a : A) → Yields P (k a)) → Yields P (m >>= k)
  Yields-bind m k hk = record { at = λ s b h. (Yields-lift (m s).0 k hk).at (m s).1 b h }

module _ {S A : Type 0} (P : A → Type 0) where
  pub Yields-pure : (a : A) → P a → Yields P (pure {S = S} a)
  Yields-pure a h = record { at = λ s b e. subst P (ground arith) h }
