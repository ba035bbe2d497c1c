-- ===== src/Domain/RowReading.antt =====
-- src/domain.cpp: what the reads make of the rows that they get.
use Prim.Native.Char.{Char, code}
use Prim.Native.String as Text
use Prim.Native.String.compare as compare_text
use open_workload_scheduler.Base.{◌<◌, String, false, [], ◌∷◌, ◌≡◌, refl, arith, concat}
use open_workload_scheduler.Effect.{thrown, ex_processing}
use open_workload_scheduler.Platform.{Platform}
use open_workload_scheduler.Domain.State.{Domain}
use open_workload_scheduler.Domain.Rows.{is_after_null, resource_value}

-- The text begins with a character before 'N', such as a digit or a minus sign.
before_null : (c : Char) (s : String) → code c < b'N' → is_after_null (Text.◌∷◌ c s) ≡ false
before_null c s h = ground (arith, compare_text.cons-cons c "N" s "ULL")

module _ (p : Platform) where
  -- The value of a resource whose text begins with a character before N, such as every digit, makes
  -- get_resources' reading of it throw instead of giving the number.
  pub resource_value_throws :
      (c : Char) (s : String) (d : Domain)
      → code c < b'N'
      → let text = Text.◌∷◌ c s in
        resource_value p text d
        ≡ (thrown (ex_processing (concat ("cannot cast " ∷ text ∷ " to integer" ∷ []))), d)
  unfolding resource_value
  resource_value_throws c s d h = rw (before_null c s h) refl
