-- ===== src/Startup/Rounds.antt =====
-- src/master.cpp, the loop of `main`: how the start time of the planning moves from round to round.
use open_workload_scheduler.Base.{
  ℕ, ◌+◌, ◌-◌, ◌/◌, ◌%◌, ◌≤◌, ◌<◌, List, [], ◌∷◌, ◌≡◌, arith, ◌⊎◌, inl, inr, ◌∙◌, ap,
}
use native.Mathlib.Nat.{div-add-mod, mul-le-mul_left, mul-suc}
use open_workload_scheduler.Base.Int.{pos}
use open_workload_scheduler.Effect.{
  Outcome, returned, thrown, undefined, blocked, M, lift, pure, ◌>>=◌,
}
use open_workload_scheduler.Platform.{Platform}
use open_workload_scheduler.Model.{Job}
use open_workload_scheduler.Config.{Config}
use open_workload_scheduler.Domain.State.{Domain}
use open_workload_scheduler.Domain.Frame.{plan}
use open_workload_scheduler.Domain.StartTime.{next_planning_start_time_bounds}
use open_workload_scheduler.Domain.Ready.{Gathering}
use open_workload_scheduler.Master.{tick}
use open_workload_scheduler.Master.Frame.{Move, still, moved, tick-Moves}
use open_workload_scheduler.Startup.{Times, master_rounds}

-- At the time `last`, the planning starts at `start`: a whole number of durations after the first one,
-- and at most one duration from then.
pub record IsPlanned (initial duration last start : ℕ) (d : Domain) : Type 0 where
  pub positive : 0 < duration
  pub length : d.planning_duration ≡ pos duration
  pub first : d.initial_planning_start_time ≡ pos initial
  pub starts : d.planning_start_time ≡ pos start
  pub whole : (start - initial) % duration ≡ 0
  pub begun : initial ≤ start
  pub soon : start ≤ last + duration

-- The times of each round, none of which goes back behind the one read before.
abbrev pub Clock : ℕ → List (ℕ × (ℕ × ℕ)) → Type 0
Clock last [] = Unit
Clock last ((now, (time, time')) ∷ rounds) =
    (last ≤ now) × (now ≤ time) × (time ≤ time') × Clock time' rounds

abbrev pub last_time : ℕ → List (ℕ × (ℕ × ℕ)) → ℕ
last_time last [] = last
last_time last ((now, (time, time')) ∷ rounds) = last_time time' rounds

abbrev pub in_seconds : List (ℕ × (ℕ × ℕ)) → List Times
in_seconds [] = []
in_seconds ((now, (time, time')) ∷ rounds) = (pos now, (pos time, pos time')) ∷ in_seconds rounds

le_or_lt : (a b : ℕ) → (a ≤ b) ⊎ (b < a)
le_or_lt a b = ground arith

-- Of two starts of plannings, one at most a duration after a time, the other behind it.
next_not_before :
    (duration initial last s n : ℕ)
    → 0 < duration
    → (s - initial) % duration ≡ 0
    → (n - initial) % duration ≡ 0
    → s ≤ last + duration
    → initial ≤ last
    → last < n
    → s ≤ n
next_not_before u i last s n positive hs hn soon later after =
    elim (le_or_lt ((s - i) / u) ((n - i) / u)) [
      | inl ordered ↦
          omega (arith, div-add-mod (s - i) u, div-add-mod (n - i) u, mul-le-mul_left u ordered)
      | inr swapped ↦ omega (
        arith,
        div-add-mod (s - i) u,
        div-add-mod (n - i) u,
        mul-le-mul_left u swapped,
        mul-suc u ((n - i) / u),
      )
    ]

-- What holds of a domain holds of every other one with the same plan.
IsPlanned-plan :
    (initial duration last start : ℕ) (d d' : Domain)
    → plan d' ≡ plan d
    → IsPlanned initial duration last start d
    → IsPlanned initial duration last start d'
IsPlanned-plan initial duration last start d d' same h = record {
  positive = h.positive;
  length = ap (λ e. e.planning_duration) same ∙ h.length;
  first = ap (λ e. e.initial_planning_start_time) same ∙ h.first;
  starts = ap (λ e. e.planning_start_time) same ∙ h.starts;
  whole = h.whole;
  begun = h.begun;
  soon = h.soon;
}

-- One round, for the start of the planning before and after it.
module _ (initial duration last start : ℕ) where
  Move-IsPlanned :
      (now time time' : ℕ) (d d' : Domain)
      → IsPlanned initial duration last start d
      → initial ≤ last
      → last ≤ time'
      → Move (pos now) (pos time) (pos time') (plan d) (plan d')
      → (start' : ℕ) × (start ≤ start') × IsPlanned initial duration time' start' d'
  Move-IsPlanned now time time' d d' h later ticked (still same) = (
    start,
    omega arith,
    let k = IsPlanned-plan initial duration last start d d' same h in
        record {
          positive = k.positive;
          length = k.length;
          first = k.first;
          starts = k.starts;
          whole = k.whole;
          begun = k.begun;
          soon = omega (arith, h.soon);
        },
  )
  Move-IsPlanned now time time' d d' h later ticked (moved near same) =
      let (n, next, after, soon, whole) =
        next_planning_start_time_bounds (plan d) time' initial duration h.length h.first h.positive
          (omega arith) in
      (
        n,
        next_not_before duration initial last start n h.positive h.whole whole h.soon later
            (omega (arith, after)),
        record {
          positive = h.positive;
          length = ap (λ e. e.planning_duration) same ∙ h.length;
          first = ap (λ e. e.initial_planning_start_time) same ∙ h.first;
          starts = ap (λ e. e.planning_start_time) same ∙ next;
          whole = whole;
          begun = omega (arith, after);
          soon = soon;
        },
      )

IsPlanned-later :
    (initial duration last last' start : ℕ) (d : Domain)
    → last ≤ last'
    → IsPlanned initial duration last start d
    → IsPlanned initial duration last' start d
IsPlanned-later initial duration last last' start d later h = record {
  positive = h.positive;
  length = h.length;
  first = h.first;
  starts = h.starts;
  whole = h.whole;
  begun = h.begun;
  soon = omega (arith, h.soon);
}

module _ (initial duration : ℕ) where
  -- Between the two times the step keeps what holds of the planning, and its start does not go back,
  -- however the step ends.
  abbrev pub Advances : {A : Type 0} → ℕ → ℕ → M Gathering A → Type 0
  Advances last last' m =
      (start : ℕ) (g : Gathering)
      → IsPlanned initial duration last start g.domain
      → (start' : ℕ) × (start ≤ start') × IsPlanned initial duration last' start' (m g).1.domain

  unmoved :
      (last last' start : ℕ) (d : Domain)
      → last ≤ last'
      → IsPlanned initial duration last start d
      → (start' : ℕ) × (start ≤ start') × IsPlanned initial duration last' start' d
  unmoved last last' start d later h =
      (start, omega arith, IsPlanned-later initial duration last last' start d later h)

  Advances-lift :
      {A B : Type 0} (last last' : ℕ) (r : Outcome A) (k : A → M Gathering B)
      → last ≤ last'
      → ((a : A) → Advances last last' (k a))
      → Advances last last' (lift r >>= k)
  Advances-lift last last' (returned a) k later hk start g h = hk a start g h
  Advances-lift last last' (thrown e) k later hk start g h =
      unmoved last last' start g.domain later h
  Advances-lift last last' undefined k later hk start g h =
      unmoved last last' start g.domain later h
  Advances-lift last last' blocked k later hk start g h = unmoved last last' start g.domain later h

  Advances-bind :
      {A B : Type 0} (last mid last' : ℕ) (m : M Gathering A) (k : A → M Gathering B)
      → mid ≤ last'
      → Advances last mid m
      → ((a : A) → Advances mid last' (k a))
      → Advances last last' (m >>= k)
  Advances-bind last mid last' m k later hm hk start g h =
      let (start', up, h') = hm start g h in
      let (start'', up', h'') = Advances-lift mid last' (m g).0 k later hk start' (m g).1 h' in
      (start'', omega (arith, up, up'), h'')

  last_time-later :
      (last : ℕ) (rounds : List (ℕ × (ℕ × ℕ))) → Clock last rounds → last ≤ last_time last rounds
  last_time-later last [] clock = omega arith
  last_time-later last ((now, (time, time')) ∷ rounds) clock =
      omega (arith, clock.0, clock.1, clock.2, last_time-later time' rounds clock.3)

  module _ (p : Platform) (c : Config) where
    tick-Advances :
        (last now time time' : ℕ)
        → initial ≤ last
        → last ≤ time'
        → Advances last time' (tick p c (pos now) (pos time) (pos time'))
    tick-Advances last now time time' begun ticked start g h =
        Move-IsPlanned initial duration last start now time time' g.domain
          (tick p c (pos now) (pos time) (pos time') g).1.domain h begun ticked
          (tick-Moves p c (pos now) (pos time) (pos time') g)

    master_rounds-Advances :
        (last : ℕ) (rounds : List (ℕ × (ℕ × ℕ)))
        → initial ≤ last
        → Clock last rounds
        → Advances last (last_time last rounds) (master_rounds p c (in_seconds rounds))
    unfolding master_rounds
    master_rounds-Advances last [] begun clock =
        λ start g h. unmoved last last start g.domain (omega arith) h
    master_rounds-Advances last ((now, (time, time')) ∷ rounds) begun clock =
        let end : ℕ = last_time time' rounds in
        let later : time' ≤ end = last_time-later time' rounds clock.3 in
        let rest : M Gathering (List (List Job)) = master_rounds p c (in_seconds rounds) in
        Advances-bind last time' end (tick p c (pos now) (pos time) (pos time'))
          (λ started. rest >>= λ more. pure (started ∷ more)) later
          (tick-Advances last now time time' begun (omega (arith, clock.0, clock.1, clock.2)))
          (λ started.
            Advances-bind time' end end rest (λ more. pure (started ∷ more)) (omega arith)
              (master_rounds-Advances time' rounds (omega (arith, begun, clock.0, clock.1, clock.2))
                clock.3)
              (λ more start g h. unmoved end end start g.domain (omega arith) h))

    -- Over any rounds whose clock does not go back, what holds of the planning still holds, and its start
    -- does not go back, however the rounds end.
    pub master_rounds-IsPlanned :
        (last : ℕ) (rounds : List (ℕ × (ℕ × ℕ))) (start : ℕ) (g : Gathering)
        → initial ≤ last
        → Clock last rounds
        → IsPlanned initial duration last start g.domain
        → (start' : ℕ) × (start ≤ start')
          × IsPlanned initial duration
              (last_time last rounds)
              start'
              (master_rounds p c (in_seconds rounds) g).1.domain
    master_rounds-IsPlanned last rounds start g begun clock =
        master_rounds-Advances last rounds begun clock start g
