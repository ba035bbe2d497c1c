-- ===== src/JobRun/Journal.antt =====
-- src/job.cpp: what a run leaves in the database.
use open_workload_scheduler.Base.{
  String, Bool, true, false, some, List, [], ◌∷◌, ◌++◌, ◌≡◌, ◌⊎◌, inl, inr, refl, sym, ap, subst,
  arith, if◌then◌else◌, Bool-cases,
}
use open_workload_scheduler.Base.Int.{pos, eqb_ℤ, eq_of_parts}
use open_workload_scheduler.Effect.{
  Outcome, returned, thrown, undefined, blocked, ◌>>=◌, ◌>>◌, pure, lift, try_catch, modify,
}
use open_workload_scheduler.Platform.{Platform, Call}
use open_workload_scheduler.Model.{Job, JobState, running, succeded, failed}
use open_workload_scheduler.Database.Journal.{
  Transaction, Journal, IsTransactional, AllPlain, AllOrNothing,
}
use open_workload_scheduler.Domain.State.{Domain}
use open_workload_scheduler.Domain.Updates.{update_state_of_object, update_timed_state_of_object}
use open_workload_scheduler.Domain.Mutex.{
  Update, job_state, timed_job_state, perform, perform-Leaves, Leaves,
}
use open_workload_scheduler.Database.Ends.{IsRelease}
use open_workload_scheduler.Domain.Deadlock.{perform-HasNoEffect}
use open_workload_scheduler.Domain.Atomicity.{statements, schema}
use open_workload_scheduler.Domain.Journal.{perform-AllOrNothing}
use open_workload_scheduler.JobRun.{
  Execution, return_code_of, is_running, caught, update_state, update_timed_state, record_result,
  run,
}

-- The mark behind the command.
abbrev pub final_state : Execution → JobState
final_state x = if eqb_ℤ (return_code_of x) (pos 0) then succeded else failed

abbrev pub first_mark : Job → Update
first_mark j = job_state j.domain j.node_name j.name running

abbrev pub last_mark : Job → Execution → Update
last_mark j x =
    timed_job_state j.domain j.node_name j.name (final_state x) x.started_at x.stopped_at

module _ (p : Platform) where
  abbrev pub transaction : Update → Transaction
  transaction u = record { schema = some (schema p u); statements = statements p u }

  -- What a run that ended in that way has committed, by the transactions before it, those behind its
  -- first update, and those in front of the last one; `held` says whether the others kept the mutex.
  abbrev pub Marks :
      Job
      → Execution
      → Bool
      → (base behind front : List Transaction) → Outcome Bool
      → List Transaction
      → Type 0
  Marks j x held base behind front (returned true) log =
      (return_code_of x ≡ pos 0)
      × (behind ≡ base ++ transaction (first_mark j) ∷ [])
      × (log ≡ front ++ transaction (last_mark j x) ∷ [])
  Marks j x held base behind front (returned false) log =
      (log ≡ base)
      ⊎ ((behind ≡ base ++ transaction (first_mark j) ∷ [])
          × ((log ≡ front) ⊎ (log ≡ front ++ transaction (last_mark j x) ∷ [])))
  Marks j x held base behind front (thrown e) log =
      (log ≡ base) ⊎ (log ≡ base ++ transaction (first_mark j) ∷ [])
  Marks j x held base behind front undefined log = ¬ IsRelease p
  Marks j x held base behind front blocked log =
      (held ≡ true) × (behind ≡ base ++ transaction (first_mark j) ∷ []) × (log ≡ front)

module _ (p : Platform) (IsPlain IsRead : String → Type 0) (view : List Call → Journal)
    (t : IsTransactional p IsPlain IsRead view) where
  abbrev log_of : Domain → List Transaction
  log_of d = (view d.calls).log

  -- How the second half of a run ends, by the end of its update.
  abbrev told : Bool → Outcome Bool → Outcome Bool
  told succeeded (returned b) = if succeeded then returned b else returned false
  told succeeded (thrown e) = returned false
  told succeeded undefined = undefined
  told succeeded blocked = blocked

  record_result-told :
      (j : Job) (x : Execution) (d : Domain)
      → let (r, d') = perform p (last_mark j x) d in
        try_catch (record_result p j x) caught d ≡ (told (eqb_ℤ (return_code_of x) (pos 0)) r, d')
  unfolding record_result update_timed_state update_timed_state_of_object perform
  record_result-told j x d = elim (Bool-cases (eqb_ℤ (return_code_of x) (pos 0))) [
    | inl zero ↦ ground arith
    | inr other ↦ ground arith
  ]

  told-Marks :
      (j : Job) (x : Execution) (succeeded held : Bool) (r : Outcome Bool)
      (base behind front log : List Transaction)
      → eqb_ℤ (return_code_of x) (pos 0) ≡ succeeded
      → behind ≡ base ++ transaction p (first_mark j) ∷ []
      → AllOrNothing p (some j.domain) (statements p (last_mark j x)) front r log
      → Marks p j x held base behind front (told succeeded r) log
  told-Marks j x true held (returned true) base behind front log e h a =
      (eq_of_parts (return_code_of x) (pos 0) (ground arith), h, a)
  told-Marks j x true held (returned false) base behind front log e h a = inr (h, inl a)
  told-Marks j x false held (returned true) base behind front log e h a = inr (h, inr a)
  told-Marks j x false held (returned false) base behind front log e h a = inr (h, inl a)
  told-Marks j x _ held (thrown y) base behind front log e h a = inr (h, a)
  told-Marks j x _ held undefined base behind front log e h a = a
  told-Marks j x _ held blocked base behind front log e h a = elim a [ ]

  told-held :
      (j : Job) (x : Execution) (succeeded : Bool) (r : Outcome Bool)
      (base behind front log : List Transaction)
      → behind ≡ base ++ transaction p (first_mark j) ∷ []
      → (r ≡ blocked) ⊎ (r ≡ returned false)
      → log ≡ front
      → Marks p j x true base behind front (told succeeded r) log
  told-held j x true r base behind front log h (inl e) same = rw e (refl, h, same)
  told-held j x false r base behind front log h (inl e) same = rw e (refl, h, same)
  told-held j x true r base behind front log h (inr e) same = rw e (inr (h, inl same))
  told-held j x false r base behind front log h (inr e) same = rw e (inr (h, inl same))

  -- The second half, behind the first mark.
  result-Marks :
      (j : Job) (x : Execution) (base behind : List Transaction) (d : Domain)
      → AllPlain IsPlain (statements p (last_mark j x))
      → behind ≡ base ++ transaction p (first_mark j) ∷ []
      → let (r, d') = try_catch (record_result p j x) caught d in
        Marks p j x d.is_locked base behind (log_of d) r (log_of d')
  result-Marks j x base behind d plain h =
      let (r, d') = perform p (last_mark j x) d in
      let code = eqb_ℤ (return_code_of x) (pos 0) in
      subst (λ w. Marks p j x d.is_locked base behind (log_of d) w.0 (log_of w.1))
        (sym (record_result-told j x d))
        (elim (Bool-cases d.is_locked) [
          | inl held ↦
              let (how, same) = perform-HasNoEffect p (last_mark j x) d held in
              subst (λ b. Marks p j x b base behind (log_of d) (told code r) (log_of d')) (sym held)
                (told-held j x code r base behind (log_of d) (log_of d') h how (ap log_of same))
          | inr free ↦
              told-Marks j x code d.is_locked r base behind (log_of d) (log_of d') refl h
                (perform-AllOrNothing p IsPlain IsRead view t (last_mark j x) d free tt plain)
        ])

  marked-Marks :
      (j : Job) (x : Execution) (meanwhile : Domain → Domain) (base : List Transaction)
      (r : Outcome Bool) (d : Domain)
      → Leaves p r d
      → AllOrNothing p (some j.domain) (statements p (first_mark j)) base r (log_of d)
      → AllPlain IsPlain (statements p (last_mark j x))
      → let (r', d') =
          (lift r >>= λ marked.
          if marked then modify meanwhile >> try_catch (record_result p j x) caught else pure false)
            d in
        Marks p j x (meanwhile d).is_locked base (log_of d) (log_of (meanwhile d)) r' (log_of d')
  marked-Marks j x meanwhile base (returned true) d free a plain =
      result-Marks j x base (log_of d) (meanwhile d) plain a
  marked-Marks j x meanwhile base (returned false) d free a plain = inl a
  marked-Marks j x meanwhile base (thrown e) d held a plain = a
  marked-Marks j x meanwhile base undefined d free a plain = a
  marked-Marks j x meanwhile base blocked d free a plain = elim a [ ]

  -- On a server with the documented behaviour of transactions, for a run of a job that finds the
  -- mutex free, whose two marks are plain statements, and whatever the other threads make of the
  -- domain while its command runs: if it returns true, the return code is 0, the first update
  -- committed exactly the mark RUNNING, and the last one, behind all that the others committed,
  -- exactly SUCCEDED with the times of the run. If it returns false, either nothing was committed,
  -- or RUNNING and then, behind what the others committed, at most the mark of the return code
  -- (SUCCEDED for 0, else FAILED). If it throws, nothing or RUNNING alone was. It waits for ever
  -- only if the others left the mutex held, with RUNNING committed, and is undefined only outside
  -- of a release build, that is where results are fetched or START TRANSACTION or COMMIT matches
  -- the pattern of blank texts.
  pub run-Marks :
      (j : Job) (x : Execution) (meanwhile : Domain → Domain) (d : Domain)
      → d.is_locked ≡ false
      → AllPlain IsPlain (statements p (first_mark j))
      → AllPlain IsPlain (statements p (last_mark j x))
      → let (r, d') = run p j x meanwhile d in
        let behind = (perform p (first_mark j) d).1 in
        let front = meanwhile behind in
        Marks p j x front.is_locked (log_of d) (log_of behind) (log_of front) r (log_of d')
  unfolding run update_state update_state_of_object perform
  run-Marks j x meanwhile d free plain plain' =
      let (r, d') = perform p (first_mark j) d in
      let written = perform-AllOrNothing p IsPlain IsRead view t (first_mark j) d free tt plain in
      elim (Bool-cases (is_running j.state)) [
        | inl busy ↦ rw busy (inl refl)
        | inr idle ↦ rw idle (
            marked-Marks j x meanwhile (log_of d) r d' (perform-Leaves p (first_mark j) d free)
              written plain')
      ]
