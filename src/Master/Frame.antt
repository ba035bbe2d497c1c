-- ===== src/Master/Frame.antt =====
-- src/master.cpp: what one round of the loop changes in the domain.
use open_workload_scheduler.Base.{
  String, Bool, true, false, Option, List, [], ◌∷◌, ◌++◌, ◌≡◌, refl, arith, ◌⊎◌, inl, inr, sym,
  subst, Bool-cases,
}
use open_workload_scheduler.Base.Int.{ℤ, pos, leb_ℤ, ◌-ℤ◌}
use open_workload_scheduler.Effect.{
  M, Outcome, Exception, ex_job, returned, thrown, undefined, blocked, ◌>>=◌, pure, lift, modify,
  try_catch,
}
use open_workload_scheduler.Effect.Keeps.{Keeps, keeps_rules}
use open_workload_scheduler.Platform.{Platform}
use open_workload_scheduler.Model.{Job}
use open_workload_scheduler.Config.{Config, RunningMode, p2p, active, passive}
use open_workload_scheduler.Database.{Row}
use open_workload_scheduler.Domain.State.{Domain, get_next_planning_start_time}
use open_workload_scheduler.Domain.Frame.{plan}
use open_workload_scheduler.Domain.Planning.{switch_planning}
use open_workload_scheduler.Domain.Switching.{switched, switch_planning_lem}
use open_workload_scheduler.Domain.Ready.{
  Gathering, on_gathering, get_ready_jobs, push_ready, ready_job_of,
}
use open_workload_scheduler.JobRun.{new_job_object}
use open_workload_scheduler.Domain.Frame.{on_database-Keeps_plan}
use open_workload_scheduler.Master.{
  fetch, asked_node, switch_if_near, start_jobs, tick, skip_ex_job,
}

-- The attributes of the domain of a gathering, its mutex and its calls aside.
abbrev plan_of : Gathering → Domain
plan_of g = plan g.domain

on_gathering-Keeps : {A : Type 0} (m : M Domain A) → Keeps plan m → Keeps plan_of (on_gathering m)
on_gathering-Keeps m k = record { at = λ g. k.at g.domain }

skip_ex_job-Keeps : (e : Exception) → Keeps plan_of (skip_ex_job e)
skip_ex_job-Keeps (ex_job msg) = record { at = λ g. refl }
skip_ex_job-Keeps e = record { at = λ g. refl }

clear-Keeps : Keeps plan_of (modify (λ g. record g { jobs = [] }))
clear-Keeps = record { at = λ g. refl }

push-Keeps : (j : Job) → Keeps plan_of (modify (λ g. record g { jobs = g.jobs ++ j ∷ [] }))
push-Keeps j = record { at = λ g. refl }

-- From the first plan to the second nothing moved, or the start time moved to the next one at
-- `time'`, which happens only in the last minute before the next one at `time`.
pub data Move (now time time' : ℤ) (d d' : Domain) : Type 0 where
  still : d' ≡ d → Move now time time' d d'
  moved :
      leb_ℤ (get_next_planning_start_time d time -ℤ now) (pos 60) ≡ true
      → d' ≡ record d { planning_start_time = get_next_planning_start_time d time' }
      → Move now time time' d d'

switched-Moves :
    (r : Outcome Bool) (next : ℤ) (d d' : Domain)
    → plan d' ≡ switched r next (plan d)
    → (plan d' ≡ plan d) ⊎ (plan d' ≡ record (plan d) { planning_start_time = next })
switched-Moves (returned true) next d d' h = inr h
switched-Moves (returned false) next d d' h = inl h
switched-Moves (thrown e) next d d' h = inl h
switched-Moves undefined next d d' h = inl h
switched-Moves blocked next d d' h = inl h

module _ (now time time' : ℤ) where
  -- The step moves the plan so, however it ends.
  abbrev Moves : {A : Type 0} → M Gathering A → Type 0
  Moves m = (g : Gathering) → Move now time time' (plan_of g) (plan_of (m g).1)

  module _ {A B : Type 0} where
    after_kept :
        (k : A → M Gathering B) (hk : (a : A) → Moves (k a)) (r : Outcome A) (g g' : Gathering)
        → plan_of g' ≡ plan_of g
        → Move now time time' (plan_of g) (plan_of ((lift r >>= k) g').1)
    after_kept k hk (returned a) g g' same =
        subst (λ d. Move now time time' d (plan_of (k a g').1)) same (hk a g')
    after_kept k hk (thrown e) g g' same = still same
    after_kept k hk undefined g g' same = still same
    after_kept k hk blocked g g' same = still same

    Keeps-then-Moves :
        (m : M Gathering A) (k : A → M Gathering B)
        → Keeps plan_of m
        → ((a : A) → Moves (k a))
        → Moves (m >>= k)
    Keeps-then-Moves m k km hk g = after_kept k hk (m g).0 g (m g).1 (km.at g)

    before_kept :
        (k : A → M Gathering B) (kk : (a : A) → Keeps plan_of (k a)) (r : Outcome A)
        (g g' : Gathering)
        → Move now time time' (plan_of g) (plan_of g')
        → Move now time time' (plan_of g) (plan_of ((lift r >>= k) g').1)
    before_kept k kk (returned a) g g' h =
        subst (Move now time time' (plan_of g)) (sym ((kk a).at g')) h
    before_kept k kk (thrown e) g g' h = h
    before_kept k kk undefined g g' h = h
    before_kept k kk blocked g g' h = h

    Moves-then-Keeps :
        (m : M Gathering A) (k : A → M Gathering B)
        → Moves m
        → ((a : A) → Keeps plan_of (k a))
        → Moves (m >>= k)
    Moves-then-Keeps m k hm kk g = before_kept k kk (m g).0 g (m g).1 (hm g)

  handled :
      {A : Type 0} (f : Exception → M Gathering A) (kf : (e : Exception) → Keeps plan_of (f e))
      (r : Outcome A) (g g' : Gathering)
      → Move now time time' (plan_of g) (plan_of g')
      → Move now time time' (plan_of g) (plan_of (try_catch (lift r) f g').1)
  handled f kf (returned a) g g' h = h
  handled f kf (thrown e) g g' h = subst (Move now time time' (plan_of g)) (sym ((kf e).at g')) h
  handled f kf undefined g g' h = h
  handled f kf blocked g g' h = h

  Moves-caught :
      {A : Type 0} (m : M Gathering A) (f : Exception → M Gathering A)
      → Moves m
      → ((e : Exception) → Keeps plan_of (f e))
      → Moves (try_catch m f)
  Moves-caught m f hm kf g = handled f kf (m g).0 g (m g).1 (hm g)

module _ (p : Platform) where
  new_job_object-Keeps : (b : Bool) (j : Job) → Keeps plan (new_job_object b j)
  unfolding new_job_object
  new_job_object-Keeps b j = search keeps_rules depth 30 fits 2000

  ready_job_of-Keeps : (row : Row) → Keeps plan (ready_job_of p row)
  unfolding ready_job_of
  ready_job_of-Keeps row = search keeps_rules depth 30 fits 2000

  push_ready-Keeps : (rows : List Row) → Keeps plan_of (push_ready p rows)
  unfolding push_ready
  push_ready-Keeps [] = search keeps_rules
  push_ready-Keeps (row ∷ rows) =
      let rest : Keeps plan_of (push_ready p rows) = push_ready-Keeps rows in
      search (keeps_rules, on_gathering-Keeps, ready_job_of-Keeps, new_job_object-Keeps, push-Keeps)
        depth 30 fits 2000

  get_ready_jobs-Keeps : (n : Option String) → Keeps plan_of (get_ready_jobs p n)
  unfolding get_ready_jobs
  get_ready_jobs-Keeps n =
      search (keeps_rules, on_gathering-Keeps, on_database-Keeps_plan, push_ready-Keeps) depth 30
        fits 2000

module _ (p : Platform) (c : Config) where
  asked_node-Keeps : (mode : RunningMode) → Keeps plan_of (asked_node c mode)
  asked_node-Keeps p2p = search keeps_rules depth 30
  asked_node-Keeps active = search keeps_rules depth 30
  asked_node-Keeps passive = search keeps_rules depth 30

  fetch-Keeps : (now : ℤ) → Keeps plan_of (fetch p c now)
  unfolding fetch
  fetch-Keeps now = search (keeps_rules, get_ready_jobs-Keeps, asked_node-Keeps) depth 30 fits 2000

  start_jobs-Keeps : (now : ℤ) → Keeps plan_of (start_jobs p c now)
  unfolding start_jobs
  start_jobs-Keeps now = record { at = λ g. ground arith }

  switch-Moves :
      (now time time' : ℤ) (g : Gathering)
      → leb_ℤ (get_next_planning_start_time g.domain time -ℤ now) (pos 60) ≡ true
      → Move now time time' (plan_of g) (plan (switch_planning p c time' g.domain).1)
  unfolding get_next_planning_start_time
  switch-Moves now time time' g near =
      elim (switched-Moves (switch_planning p c time' g.domain).0
        (get_next_planning_start_time g.domain time') g.domain
        (switch_planning p c time' g.domain).1 (switch_planning_lem p c time' g.domain)) [
          | inl same ↦ still same
          | inr later ↦ moved near later
        ]

  switch_if_near-Moves :
      (now time time' : ℤ) → Moves now time time' (switch_if_near p c now time time')
  unfolding switch_if_near
  switch_if_near-Moves now time time' g =
      elim (Bool-cases (leb_ℤ (get_next_planning_start_time g.domain time -ℤ now) (pos 60))) [
        | inl near ↦ rw near (
            before_kept now time time' {A = Bool} (λ _. pure tt) (λ _. record { at = λ g. refl })
              (switch_planning p c time' g.domain).0 g
              (on_gathering (switch_planning p c time') g).1 (switch-Moves now time time' g near))
        | inr far ↦ rw far (still refl)
      ]

  pub tick-Moves : (now time time' : ℤ) → Moves now time time' (tick p c now time time')
  unfolding tick
  tick-Moves now time time' =
      search
        (
          keeps_rules, Keeps-then-Moves, Moves-then-Keeps, Moves-caught, fetch-Keeps,
          start_jobs-Keeps, skip_ex_job-Keeps, clear-Keeps, switch_if_near-Moves,
        )
        depth 30 fits 2000
