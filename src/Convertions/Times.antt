-- ===== src/Convertions/Times.antt =====
-- src/convertions.cpp, `build_unix_time_from_hhmm_time`: a text of hours and minutes as seconds.
use open_workload_scheduler.Base.{ℕ, suc, ◌-◌, ◌*◌, ltb, String, none, some, if◌then◌else◌}
use open_workload_scheduler.Base.Int.{ℤ, pos, negsuc, ◌+ℤ◌}
use open_workload_scheduler.Effect.{
  M, Outcome, returned, undefined, ex_processing, ◌>>=◌, pure, lift, column, or_throw,
}
use open_workload_scheduler.Platform.{Platform, int64}

-- The number if it is a `time_t`, which has 64 bits; past that the arithmetic overflows.
unfoldable pub in_time : ℤ → Outcome ℤ
in_time (pos n) = if ltb n 9223372036854775808 then returned (pos n) else undefined
in_time (negsuc n) = if ltb n 9223372036854775808 then returned (negsuc n) else undefined

-- The product with a positive number.
abbrev pub product : ℤ → ℕ → ℤ
product (pos n) seconds = pos (n * seconds)
product (negsuc n) seconds = negsuc (suc n * seconds - 1)

module _ (p : Platform) {S : Type 0} where
  -- A count of hours or minutes, added to the seconds so far.
  unfoldable pub add_part : String → ℕ → String → ℤ → M S ℤ
  unfolding in_time
  add_part pattern seconds text result = elim (p.regex_search pattern text) [
    | none ↦ pure result
    | some what ↦ column what 0 >>= λ digits.
        or_throw (p.cast int64 digits)
          (ex_processing "cannot compute time_constraint value. Cannot cast ")
        >>= λ n. lift (in_time (product n seconds)) >>= λ part. lift (in_time (result +ℤ part))
  ]

  unfoldable pub build_unix_time_from_hhmm_time : String → M S ℤ
  unfolding add_part
  build_unix_time_from_hhmm_time time = do
    hours ← add_part "^([[:digit:]]+)h" 3600 time (pos 0)
    add_part "([[:digit:]]+)min$" 60 time hours

-- `build_human_readable_time`, with `localtime` and `strftime` of the format "%c".
unfoldable pub build_human_readable_time :
    {Broken : Type 0} → (ℤ → Broken) → (String → Broken → String) → ℤ → String
build_human_readable_time localtime strftime time = strftime "%c" (localtime time)
