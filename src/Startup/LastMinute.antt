-- ===== src/Startup/LastMinute.antt =====
-- src/master.cpp: the round that moves to the next planning.
use open_workload_scheduler.Base.{
  ℕ, ◌≤◌, ◌<◌, true, some, List, [], String, ◌≡◌, arith, ◌⊎◌, inl, inr, ap, ◌∙◌, subst,
}
use open_workload_scheduler.Base.Int.{pos, leb_ℤ}
use open_workload_scheduler.Effect.{returned}
use open_workload_scheduler.Platform.{Platform}
use open_workload_scheduler.Model.{Job}
use open_workload_scheduler.Config.{Config, get_param}
use open_workload_scheduler.Domain.State.{Domain}
use open_workload_scheduler.Domain.Frame.{plan}
use open_workload_scheduler.Domain.StartTime.{next_planning_start_time_bounds}
use open_workload_scheduler.Domain.Ready.{Gathering}
use open_workload_scheduler.Master.{tick}
use open_workload_scheduler.Master.Frame.{Move, still, moved, tick-Moves}
use open_workload_scheduler.Master.Rounds.{tick-AllStartable}
use open_workload_scheduler.Startup.Rounds.{IsPlanned}

later_start : (n now : ℕ) → now < n → (leb_ℤ (pos n) (pos now) ≡ true) → ⊥
later_start n now after h = ground arith

module _ (p : Platform) (c : Config) (initial duration : ℕ) where
  -- From a planning of the kind that the rounds keep, with a node name configured and a clock that
  -- does not go back, a round of the master that returns either leaves the start time, or moves it
  -- behind every time that the round read and starts no job.
  pub tick_switch_starts_nothing :
      (last now time time' start : ℕ) (g : Gathering) (n : String) (jobs : List Job)
      → get_param "node_name" c ≡ some n
      → initial ≤ last
      → last ≤ now
      → now ≤ time
      → time ≤ time'
      → IsPlanned initial duration last start g.domain
      → (tick p c (pos now) (pos time) (pos time') g).0 ≡ returned jobs
      → let d' = (tick p c (pos now) (pos time) (pos time') g).1.domain in
        (d'.planning_start_time ≡ pos start)
        ⊎ ((next : ℕ) × (d'.planning_start_time ≡ pos next) × (time' < next) × (jobs ≡ []))
  tick_switch_starts_nothing last now time time' start g n jobs named begun a b e h done =
      go (tick-Moves p c (pos now) (pos time) (pos time') g)
    where
      d' : Domain
      d' = (tick p c (pos now) (pos time) (pos time') g).1.domain

      go :
          Move (pos now) (pos time) (pos time') (plan g.domain) (plan d')
          → (d'.planning_start_time ≡ pos start)
            ⊎ ((next : ℕ) × (d'.planning_start_time ≡ pos next) × (time' < next) × (jobs ≡ []))
      go (still same) = inl (ap (λ d. d.planning_start_time) same ∙ h.starts)
      go (moved near same) =
          let (next, eq, after, soon, whole) =
            next_planning_start_time_bounds (plan g.domain) time' initial duration h.length h.first
              h.positive (omega arith) in
          let starts : d'.planning_start_time ≡ pos next =
            ap (λ d. d.planning_start_time) same ∙ eq in
          inr (
            next,
            starts,
            after,
            elim (tick-AllStartable p c (pos now) (pos time) (pos time') g n jobs named done).1 [
              | inl early ↦
                  elim (later_start next now (omega (arith, after))
                    (subst (λ s. leb_ℤ s (pos now) ≡ true) starts early)) [ ]
              | inr nothing ↦ nothing
            ],
          )
