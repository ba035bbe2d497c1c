-- ===== src/Threads/Progress.antt =====
-- src/domain.cpp under several threads: an update that waits can go on, unless one has thrown.
use open_workload_scheduler.Base.Int.{pos}
use open_workload_scheduler.Base.{
  ap, Bool, true, false, none, some, List, [], ◌∷◌, ◌++◌, ◌≡◌, refl, arith, ◌⊎◌, inl, inr, ◌∙◌,
  Option-cases, subst,
}
use open_workload_scheduler.Effect.{Exception, Outcome-cases, returned, thrown, undefined, blocked}
use open_workload_scheduler.Platform.{Platform}
use open_workload_scheduler.Database.Ends.{IsRelease}
use open_workload_scheduler.Domain.State.{Domain}
use open_workload_scheduler.Domain.Mutex.{Update, perform, perform-Leaves, Leaves}
use open_workload_scheduler.Threads.{
  Shared, unlocked, locked, Step, arrives, acquires, declines, returns, throws, reads, moves, Steps,
  here, then, start,
}
use open_workload_scheduler.Threads.Order.{IsGuarded, Steps-guard, Steps-IsGuarded}

-- A domain but for its calls and the start time of its planning.
abbrev pub lasting : Domain → Domain
lasting d = record d { planning_start_time = pos 0; calls = [] }

abbrev pub EndedWith : Shared → Update → Type 0
EndedWith w u = (us : List Update) × (w.ended ≡ us ++ u ∷ [])

stuck : (w : Shared) → IsGuarded w → w.has_thrown ≡ true → w.domain.is_locked ≡ false → ⊥
stuck w g died free = ground (arith, g.held)

alone : (w : Shared) → IsGuarded w → w.has_thrown ≡ true → (u : Update) → w.holder ≡ some u → ⊥
alone w g died u holds = ground (arith, g.one u holds)

module _ (p : Platform) where
  Steps-append : {w w' w'' : Shared} → Steps p w w' → Steps p w' w'' → Steps p w w''
  Steps-append a (here w) = a
  Steps-append a (then b step) = then (Steps-append a b) step

  -- The thread with the mutex can run its update to the end.
  finishes :
      (u : Update) (w : Shared)
      → IsRelease p
      → w.holder ≡ some u
      → (w' : Shared) × Step p w w'
        × ((w'.has_thrown ≡ true)
            ⊎ ((w'.holder ≡ none)
                × (w'.has_thrown ≡ w.has_thrown)
                × (w'.queue ≡ w.queue)
                × (w'.domain.is_locked ≡ false)
                × EndedWith w' u))
  finishes u w release holds =
      go (Outcome-cases (perform p u (unlocked w.domain)).0)
        (perform-Leaves p u (unlocked w.domain) refl)
    where
      d' : Domain
      d' = (perform p u (unlocked w.domain)).1

      go :
          ((b : Bool) × ((perform p u (unlocked w.domain)).0 ≡ returned b))
            ⊎ (((e : Exception) × ((perform p u (unlocked w.domain)).0 ≡ thrown e))
                ⊎ (((perform p u (unlocked w.domain)).0 ≡ undefined)
                    ⊎ ((perform p u (unlocked w.domain)).0 ≡ blocked)))
          → Leaves p (perform p u (unlocked w.domain)).0 d'
          → (w' : Shared) × Step p w w'
            × ((w'.has_thrown ≡ true)
                ⊎ ((w'.holder ≡ none)
                    × (w'.has_thrown ≡ w.has_thrown)
                    × (w'.queue ≡ w.queue)
                    × (w'.domain.is_locked ≡ false)
                    × EndedWith w' u))
      go (inl (b, done)) h =
          (_, returns u b w holds done, inr (refl, refl, refl, ground arith, (w.ended, refl)))
      go (inr (inl (e, raised))) h = (_, throws u e w holds raised, inl refl)
      go (inr (inr (inl bad))) h = elim (subst (λ r. Leaves p r d') bad h release) [ ]
      go (inr (inr (inr bad))) h = elim (subst (λ r. Leaves p r d') bad h) [ ]

  -- One thread waits, and none holds the mutex.
  runs :
      (u : Update) (after : List Update) (w : Shared)
      → IsRelease p
      → w.queue ≡ u ∷ after
      → w.domain.is_locked ≡ false
      → (w' : Shared) × Steps p w w' × ((w'.has_thrown ≡ true) ⊎ EndedWith w' u)
  runs u after w release queued free =
      let w' : Shared = record w { domain = locked w.domain; queue = after; holder = some u } in
      let (w'', step, ended) = finishes u w' release refl in
      (
        w'',
        then (then (here w) (acquires [] after u w queued free)) step,
        elim ended [ inl raised ↦ inl raised | inr done ↦ inr done.4 ],
      )

  -- In a release build, that is where no result of a statement is fetched and neither START
  -- TRANSACTION nor COMMIT matches the pattern of blank texts, under any interleaving of threads
  -- from a free mutex in which no update has thrown, there is a continuation in which the first
  -- update that waits for the mutex returns, or an update throws. The updates are those of one
  -- transaction.
  pub threads_go_on :
      (d : Domain) (w : Shared) (u : Update) (after : List Update)
      → IsRelease p
      → Steps p (start d) w
      → w.has_thrown ≡ false
      → w.queue ≡ u ∷ after
      → (w' : Shared) × Steps p w w' × ((w'.has_thrown ≡ true) ⊎ EndedWith w' u)
  threads_go_on d w u after release steps calm queued =
      let guard = Steps-guard p d w steps in
      elim (Option-cases w.holder) [
        | inl nobody ↦ runs u after w release queued (guard.held ∙ ground (arith, calm))
        | inr (v, holds) ↦
            let (w', step, first) = finishes v w release holds in
            elim first [
              | inl raised ↦ (w', then (here w) step, inl raised)
              | inr (nobody, same, queue, free, done) ↦
                  let (w'', rest, result) = runs u after w' release (queue ∙ queued) free in
                  (w'', Steps-append (then (here w) step) rest, result)
            ]
      ]

  -- What a step does once an update has thrown.
  Step-stop :
      {w w' : Shared}
      → Step p w w'
      → IsGuarded w
      → w.has_thrown ≡ true
      → (lasting w'.domain ≡ lasting w.domain) × (w'.ended ≡ w.ended) × (w'.has_thrown ≡ true)
  Step-stop (arrives u w) g died = (refl, refl, died)
  Step-stop (acquires before after u w queued free) g died = elim (stuck w g died free) [ ]
  Step-stop (declines before after u b w queued held same) g died = (refl, refl, died)
  Step-stop (returns u b w holds done) g died = elim (alone w g died u holds) [ ]
  Step-stop (throws u e w holds raised) g died = elim (alone w g died u holds) [ ]
  Step-stop (reads m w kept) g died = (
    ap {A = Domain} (λ x. record x { planning_start_time = pos 0; calls = [] }) (kept.at w.domain),
    refl,
    died,
  )
  Step-stop (moves time w) g died = (refl, refl, died)

  Steps-stop :
      {w w' : Shared}
      → Steps p w w'
      → IsGuarded w
      → w.has_thrown ≡ true
      → (lasting w'.domain ≡ lasting w.domain) × (w'.ended ≡ w.ended) × (w'.has_thrown ≡ true)
  Steps-stop (here w) g died = (refl, refl, died)
  Steps-stop (then before step) g died =
      let (a, e, t) = Steps-stop before g died in
      let (a', e', t') = Step-stop step (Steps-IsGuarded p before g) t in (a' ∙ a, e' ∙ e, t')

  -- Under any interleaving of threads from a free mutex, once an update has thrown, no continuation
  -- changes an attribute of the domain other than the start time of its planning, or returns
  -- another update that waits for the mutex.
  pub threads_stop :
      (d : Domain) (w w' : Shared)
      → Steps p (start d) w
      → w.has_thrown ≡ true
      → Steps p w w'
      → (lasting w'.domain ≡ lasting w.domain) × (w'.ended ≡ w.ended) × (w'.has_thrown ≡ true)
  threads_stop d w w' steps died more = Steps-stop more (Steps-guard p d w steps) died
