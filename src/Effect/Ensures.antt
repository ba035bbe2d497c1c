-- ===== src/Effect/Ensures.antt =====
-- What holds after a step that returns.
use open_workload_scheduler.Base.{◌≡◌, arith}
use open_workload_scheduler.Effect.{M, Outcome, returned, thrown, undefined, blocked, ◌>>=◌, lift}

-- If `m` returns, then `P` holds of the state.
pub record Ensures {S A : Type 0} (P : S → Type 0) (m : M S A) : Type 0 where
  pub at : (s : S) (a : A) → (m s).0 ≡ returned a → P (m s).1

module _ {S A B : Type 0} (P : S → Type 0) where
  ends_well :
      (r : Outcome A) (k : A → M S B)
      → ((a : A) → Ensures P (k a))
      → Ensures P (lift {S = S} r >>= k)
  ends_well (returned a) k hk = hk a
  ends_well (thrown e) k hk = record { at = λ s b h. ground arith }
  ends_well undefined k hk = record { at = λ s b h. ground arith }
  ends_well blocked k hk = record { at = λ s b h. ground arith }

  -- The last step decides.
  pub Ensures-bind : (m : M S A) (k : A → M S B) → ((a : A) → Ensures P (k a)) → Ensures P (m >>= k)
  Ensures-bind m k hk = record { at = λ s b h. (ends_well (m s).0 k hk).at (m s).1 b h }
