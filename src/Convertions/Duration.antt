-- ===== src/Convertions/Duration.antt =====
-- src/convertions.cpp and src/domain.cpp: the two readers of a duration agree.
use open_workload_scheduler.Base.{
  ℕ, ◌≤◌, String, some, ◌≡◌, arith, Option-cases, get_elem?, true, false, inl, inr,
}
use open_workload_scheduler.Base.Int.{ℤ, pos, negsuc, ◌+ℤ◌, pos_part, neg_part}
use open_workload_scheduler.Effect.{Outcome-cases, returned}
use open_workload_scheduler.Platform.{Platform, int, int64}
use open_workload_scheduler.Convertions.Times.{
  in_time, product, add_part, build_unix_time_from_hhmm_time,
}
use open_workload_scheduler.Domain.State.{Domain}
use open_workload_scheduler.Domain.Planning.{times, part_of_duration, read_duration}

-- At most 2 ^ 31, or its negative.
record IsSmall (z : ℤ) : Type 0 where
  above : pos_part z ≤ 2147483648
  below : neg_part z ≤ 2147483648

times-IsSmall :
    (n : ℤ) (seconds : ℕ) (m : ℤ)
    → times n seconds ≡ returned m
    → (m ≡ product n seconds) × IsSmall m
unfolding times
times-IsSmall (pos n) seconds m h =
    (ground arith, record { above = ground arith; below = ground arith })
times-IsSmall (negsuc n) seconds m h =
    (ground arith, record { above = ground arith; below = ground arith })

in_time-IsSmall : (m : ℤ) → IsSmall m → in_time m ≡ returned m
unfolding in_time
in_time-IsSmall (pos n) s = ground (arith, s.above)
in_time-IsSmall (negsuc n) s = ground (arith, s.below)

in_time-sum : (r m : ℤ) → IsSmall r → IsSmall m → in_time (r +ℤ m) ≡ returned (r +ℤ m)
unfolding in_time ◌+ℤ◌
in_time-sum r m s t = ground (arith, s.above, s.below, t.above, t.below)

sum_zero : (r : ℤ) → r +ℤ pos 0 ≡ r
unfolding ◌+ℤ◌
sum_zero (pos n) = ground arith
sum_zero (negsuc n) = ground arith

absurd_part : true ≡ false → ⊥
absurd_part h = ground arith

zero_sum : (r : ℤ) → pos 0 +ℤ r ≡ r
unfolding ◌+ℤ◌
zero_sum (pos n) = ground arith
zero_sum (negsuc n) = ground arith

zero-IsSmall : IsSmall (pos 0)
zero-IsSmall = record { above = omega arith; below = omega arith }

module _ (p : Platform)
    (wider : (text : String) (n : ℤ) → p.cast int text ≡ some n → p.cast int64 text ≡ some n) where
  part-IsSmall :
      (pattern : String) (seconds : ℕ) (text : String) (r m : ℤ) (d d' : Domain)
      → IsSmall r
      → part_of_duration p pattern seconds text d ≡ (returned m, d')
      → (add_part p pattern seconds text r d ≡ (returned (r +ℤ m), d)) × IsSmall m
  unfolding part_of_duration add_part
  part-IsSmall pattern seconds text r m d d' small h =
      elim (Option-cases (p.regex_search pattern text)) [
        | inl missing ↦
            let zero : m ≡ pos 0 = ground arith in
            (
              ground (arith, sum_zero r, zero),
              record { above = ground (arith, zero); below = ground (arith, zero) },
            )
        | inr (what, found) ↦ elim (Option-cases (get_elem? what 0)) [
          | inl empty ↦ elim (absurd_part (ground arith)) [ ]
          | inr (digits, first) ↦ elim (Option-cases (p.cast int digits)) [
            | inl bad ↦ elim (absurd_part (ground arith)) [ ]
            | inr (n, good) ↦
                let same : times n seconds ≡ returned m = ground arith in
                let (eq, part_small) = times-IsSmall n seconds m same in
                (
                  ground (
                    arith,
                    eq,
                    wider digits n good,
                    in_time-IsSmall m part_small,
                    in_time-sum r m small part_small,
                  ),
                  part_small,
                )
          ]
        ]
      ]

  part_kept :
      (pattern : String) (seconds : ℕ) (text : String) (d : Domain)
      → (part_of_duration p pattern seconds text d).1 ≡ d
  unfolding part_of_duration
  part_kept pattern seconds text d = ground arith

  -- If lexical_cast to time_t agrees with lexical_cast to int where the latter succeeds, then a
  -- duration that the constructor of the domain reads from a text is the number of seconds that
  -- build_unix_time_from_hhmm_time gives for that text, without overflow.
  pub build_unix_time-read_duration :
      (text : String) (duration : ℤ) (d d' : Domain)
      → read_duration p text d ≡ (returned duration, d')
      → build_unix_time_from_hhmm_time p text d ≡ (returned duration, d)
  unfolding read_duration build_unix_time_from_hhmm_time
  build_unix_time-read_duration text duration d d' h =
      let hour_pattern : String = "^([[:digit:]]+)h" in
      let minute_pattern : String = "([[:digit:]]+)min$" in
      let kept = part_kept hour_pattern 3600 text d in
      let kept' = part_kept minute_pattern 60 text d in
      elim (Outcome-cases (part_of_duration p hour_pattern 3600 text d).0) [
        | inr other ↦ ground (arith, other)
        | inl (hours, e) ↦ elim (Outcome-cases (part_of_duration p minute_pattern 60 text d).0) [
          | inr other ↦ ground (arith, other, e, kept)
          | inl (minutes, e') ↦
              let (a, small) =
                part-IsSmall hour_pattern 3600 text (pos 0) hours d d zero-IsSmall
                  (ground (arith, e, kept)) in
              let (b, small') =
                part-IsSmall minute_pattern 60 text hours minutes d d small
                  (ground (arith, e', kept')) in
              ground (arith, a, b, e, e', kept, zero_sum hours)
        ]
      ]
