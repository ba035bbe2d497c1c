-- ===== src/Startup/Construction.antt =====
-- src/domain.cpp, the constructor of `Domain`: the planning that it starts with.
use open_workload_scheduler.Base.{
  ℕ, ◌≤◌, ◌<◌, String, Bool, false, some, List, ◌≡◌, ◌≢◌, arith, ◌∙◌, sym, subst, not,
}
use open_workload_scheduler.Base.Int.{ℤ, pos}
use open_workload_scheduler.Effect.{
  Outcome, Exception, thrown, returned, try_catch, ◌>>=◌, throw_if, lift, ex_processing,
}
use open_workload_scheduler.Effect.Ensures.{Ensures, Ensures-bind}
use open_workload_scheduler.Effect.Keeps.{Keeps}
use open_workload_scheduler.Platform.{Platform}
use open_workload_scheduler.Config.{Config}
use open_workload_scheduler.Domain.State.{Domain, get_next_planning_start_time}
use open_workload_scheduler.Domain.Frame.{plan, updating}
use open_workload_scheduler.Domain.StartTime.{next_planning_start_time_bounds}
use open_workload_scheduler.Domain.Planning.{
  give_up, planning_name, prepare_schema, fill_planning, set_next_planning, first_planning,
  construct,
}
use open_workload_scheduler.Domain.Switching.{
  prepare_schema-Keeps, fill_planning-Keeps, give_up-Keeps,
}
use open_workload_scheduler.Startup.Rounds.{
  IsPlanned, Clock, last_time, in_seconds, master_rounds-IsPlanned,
}
use open_workload_scheduler.Domain.Ready.{Gathering}
use open_workload_scheduler.Startup.{master_rounds, master_body}

module _ (p : Platform) (c : Config) (now : ℤ) where
  abbrev next_from : Domain → Domain
  next_from d = record d { planning_start_time = get_next_planning_start_time d now }

  answered-Keeps :
      (s : String)
      → Keeps plan (try_catch (prepare_schema p c s) (give_up (some false)) >>= fill_planning p s)
  answered-Keeps s =
      search (updating, prepare_schema-Keeps, fill_planning-Keeps, give_up-Keeps) depth 30 fits 2000

  set_next_planning-assigns :
      (d : Domain)
      → plan (set_next_planning p (λ time d. record d { planning_start_time = time }) c now d).1
        ≡ plan (next_from d)
  unfolding set_next_planning
  set_next_planning-assigns d =
      (answered-Keeps (planning_name p d (get_next_planning_start_time d now))).at (next_from d)

  checked-Keeps :
      (r : Outcome Bool)
      → Keeps plan (
          try_catch
            (lift r >>= λ done.
              throw_if (not done) (ex_processing "Error: cannot prepare the next planning"))
            (give_up tt))
  checked-Keeps r = search (updating, give_up-Keeps) depth 30 fits 2000

  first_planning-assigns : (d : Domain) → plan (first_planning p c now d).1 ≡ plan (next_from d)
  unfolding first_planning
  first_planning-assigns d =
      let (r, d') =
        set_next_planning p (λ time d. record d { planning_start_time = time }) c now d in
      (checked-Keeps r).at d' ∙ set_next_planning-assigns d

  -- The planning is the one that follows `now`.
  abbrev IsNext : Domain → Type 0
  IsNext d = d.planning_start_time ≡ get_next_planning_start_time d now

  IsNext-plan : (d d' : Domain) → plan d' ≡ plan (next_from d) → IsNext d'
  unfolding get_next_planning_start_time
  IsNext-plan d d' same = cc

  first_planning-Ensures : Ensures IsNext (first_planning p c now)
  first_planning-Ensures = record {
    at = λ d b h. IsNext-plan d (first_planning p c now d).1 (first_planning-assigns d);
  }

  construct-Ensures : Ensures IsNext (construct p c now)
  unfolding construct
  construct-Ensures = search (Ensures-bind, first_planning-Ensures) depth 30 fits 2000

module _ (p : Platform) (c : Config) (now initial duration : ℕ) where
  construct-IsPlanned :
      (d : Domain)
      → (construct p c (pos now) d).0 ≡ returned tt
      → (construct p c (pos now) d).1.planning_duration ≡ pos duration
      → (construct p c (pos now) d).1.initial_planning_start_time ≡ pos initial
      → 0 < duration
      → initial ≤ now
      → (start : ℕ) × IsPlanned initial duration now start (construct p c (pos now) d).1
  construct-IsPlanned d done length first positive begun =
      let d' = (construct p c (pos now) d).1 in
      let (next, eq, after, soon, whole) =
        next_planning_start_time_bounds d' now initial duration length first positive begun in
      (
        next,
        record {
          positive = positive;
          length = length;
          first = first;
          starts = (construct-Ensures p c (pos now)).at d tt done ∙ eq;
          whole = whole;
          begun = omega (arith, after);
          soon = soon;
        },
      )

  body_is_rounds :
      (rounds : List (ℕ × (ℕ × ℕ))) (g : Gathering)
      → (construct p c (pos now) g.domain).0 ≡ returned tt
      → (master_body p c (pos now) (in_seconds rounds) g).1
        ≡ (master_rounds p c
            (in_seconds rounds)
            (record g { domain = (construct p c (pos now) g.domain).1 })).1
  unfolding master_body
  body_is_rounds rounds g done = ground arith

  body_catches :
      (rounds : List (ℕ × (ℕ × ℕ))) (g : Gathering) (e : Exception)
      → (master_body p c (pos now) (in_seconds rounds) g).0 ≢ thrown e
  unfolding master_body
  body_catches rounds g e = λ escapes. ground arith

  -- If the constructor of the domain returns at the time now, with a positive planning duration and
  -- a first start that is not after now, then the planning starts at a whole number of durations
  -- after the first start, at most one duration after now; behind any number of rounds of the
  -- master whose clock never goes back this still holds for the last time read, the start has not
  -- gone back, and no exception has left the master, however a round ends.
  pub master_body-IsPlanned :
      (rounds : List (ℕ × (ℕ × ℕ))) (g : Gathering)
      → (construct p c (pos now) g.domain).0 ≡ returned tt
      → (construct p c (pos now) g.domain).1.planning_duration ≡ pos duration
      → (construct p c (pos now) g.domain).1.initial_planning_start_time ≡ pos initial
      → 0 < duration
      → initial ≤ now
      → Clock now rounds
      → (start : ℕ) × (start' : ℕ) × (start ≤ start')
        × IsPlanned initial duration now start (construct p c (pos now) g.domain).1
        × IsPlanned initial duration
            (last_time now rounds)
            start'
            (master_body p c (pos now) (in_seconds rounds) g).1.domain
        × ((e : Exception) → (master_body p c (pos now) (in_seconds rounds) g).0 ≢ thrown e)
  master_body-IsPlanned rounds g done length first positive begun clock =
      let d' = (construct p c (pos now) g.domain).1 in
      let (start, h) = construct-IsPlanned g.domain done length first positive begun in
      let g' : Gathering = record g { domain = d' } in
      let (start', up, h') =
        master_rounds-IsPlanned initial duration p c now rounds start g' begun clock h in
      (
        start,
        start',
        up,
        h,
        subst (λ k. IsPlanned initial duration (last_time now rounds) start' k.domain)
            (sym (body_is_rounds rounds g done)) h',
        body_catches rounds g,
      )
