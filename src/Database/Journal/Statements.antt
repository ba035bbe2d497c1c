-- ===== src/Database/Journal/Statements.antt =====
-- src/database.cpp: what one statement, a list of statements and COMMIT leave in the journal.
use open_workload_scheduler.Base.{
  String, true, false, Option, none, some, List, [], ◌∷◌, ◌++◌, ◌≡◌, refl, ap, arith, inl, inr, ◌⊎◌,
  subst, Bool-cases,
}
use mathlib.Core.List.{append_assoc, append-nil}
use open_workload_scheduler.Effect.{returned, thrown, undefined, ex_processing}
use open_workload_scheduler.Platform.{
  Platform, Call, query, close, Answer, failure, result_set, no_result, lost_result,
}
use open_workload_scheduler.Database.{atomic_execute, execute_all, commit, end}
use open_workload_scheduler.Database.Transactions.{start_text}
use open_workload_scheduler.Database.Journal.{
  Transaction, Journal, accepts, IsTransactional, AllPlain, AllOrNothing, extended, within,
}

module _ (p : Platform) (IsPlain IsRead : String → Type 0) (view : List Call → Journal)
    (t : IsTransactional p IsPlain IsRead view) where
  atomic_execute-log :
      (q : String) (calls : List Call)
      → ((view (query q ∷ calls)).log ≡ (view calls).log)
      → (view (atomic_execute p q calls).1).log ≡ (view calls).log
  unfolding atomic_execute
  atomic_execute-log q calls same = ground arith

  -- A statement of an open transaction commits nothing, and joins the transaction if it succeeds.
  pub atomic_execute_plain :
      (q : String) (calls : List Call) (name : Option String) (l : List String)
      (base : List Transaction)
      → IsPlain q
      → view calls ≡ within name l base
      → let (r, calls') = atomic_execute p q calls in
        ((view calls').log ≡ base)
        × (r ≡ returned true → view calls' ≡ within name (l ++ q ∷ []) base)
  unfolding atomic_execute
  atomic_execute_plain q calls name l base plain inside =
      let inside' : (view calls).pending ≡ some l = ap (λ (j : Journal). j.pending) inside in
      ground (arith, t.refuses q calls plain, t.performs q calls l plain)

  pub execute_all_plain :
      (queries : List String) (calls : List Call) (name : Option String) (l : List String)
      (base : List Transaction)
      → AllPlain IsPlain queries
      → view calls ≡ within name l base
      → let (r, calls') = execute_all p queries calls in
        ((view calls').log ≡ base)
        × (r ≡ returned true → view calls' ≡ within name (l ++ queries) base)
  unfolding execute_all
  execute_all_plain [] calls name l base plain inside = ground (arith, append-nil l)
  execute_all_plain (q ∷ queries) calls name l base plain inside =
      let after = (atomic_execute p q calls).1 in
      let step = atomic_execute_plain q calls name l base plain.0 inside in
      let undone = (atomic_execute p "ROLLBACK;" after).1 in
      ground (
        arith,
        append_assoc l (q ∷ []) queries,
        execute_all_plain queries after name (l ++ q ∷ []) base plain.1,
        t.closes undone,
        atomic_execute-log "ROLLBACK;" after (t.rolls_back after),
      )

  commit_accepted :
      (calls : List Call) (name : Option String) (l : List String) (base : List Transaction)
      → view calls ≡ within name l base
      → accepts (p.answers calls "COMMIT;") ≡ true
      → (view (close ∷ query "COMMIT;" ∷ calls)).log ≡ extended name l base
  commit_accepted calls name l base inside accepted =
      let inside' : (view calls).pending ≡ some l = ap (λ (j : Journal). j.pending) inside in
      ground (arith, t.closes (query "COMMIT;" ∷ calls), t.commits calls l)

  commit_refused :
      (calls : List Call) (name : Option String) (l : List String) (base : List Transaction)
      → view calls ≡ within name l base
      → accepts (p.answers calls "COMMIT;") ≡ false
      → ((view (query "COMMIT;" ∷ calls)).log ≡ base)
        ⊎ ((view (query "COMMIT;" ∷ calls)).log ≡ extended name l base)
  commit_refused calls name l base inside refused =
      let inside' : (view calls).pending ≡ some l = ap (λ (j : Journal). j.pending) inside in
      subst
        (λ (j : Journal).
          ((view (query "COMMIT;" ∷ calls)).log ≡ j.log)
          ⊎ ((view (query "COMMIT;" ∷ calls)).log ≡ extended j.schema l j.log))
        inside (t.refuses_commit calls l refused inside')

  commit_answered :
      (calls : List Call) (name : Option String) (l : List String) (base : List Transaction)
      (answer : Answer)
      → p.answers calls "COMMIT;" ≡ answer
      → view calls ≡ within name l base
      → p.regex_match "^\\s+$" "COMMIT;" ≡ false
      → let (r, calls') = commit p calls in AllOrNothing p name l base r (view calls').log
  unfolding commit atomic_execute end
  commit_answered calls name l base (failure error) said inside sent =
      let ends : commit p calls ≡ (thrown (ex_processing error), query "COMMIT;" ∷ calls) =
        ground arith in
      rw ends (commit_refused calls name l base inside (ap accepts said))
  commit_answered calls name l base (result_set rows) said inside sent =
      let ends : commit p calls ≡ (returned true, close ∷ query "COMMIT;" ∷ calls) = ground arith in
      rw ends (commit_accepted calls name l base inside (ap accepts said))
  commit_answered calls name l base no_result said inside sent =
      let ends : commit p calls ≡ (returned true, close ∷ query "COMMIT;" ∷ calls) = ground arith in
      rw ends (commit_accepted calls name l base inside (ap accepts said))
  commit_answered calls name l base lost_result said inside sent =
      let took = commit_accepted calls name l base inside (ap accepts said) in
      elim (Bool-cases p.debug_build) [
        | inl debug ↦
            let ends : (commit p calls).0 ≡ undefined = ground arith in
            rw ends (λ r. ground (arith, r.release))
        | inr release ↦
            let ends : commit p calls ≡ (returned true, close ∷ query "COMMIT;" ∷ calls) =
              ground arith in
            rw ends took
      ]

  pub commit-AllOrNothing :
      (calls : List Call) (name : Option String) (l : List String) (base : List Transaction)
      → view calls ≡ within name l base
      → let (r, calls') = commit p calls in AllOrNothing p name l base r (view calls').log
  unfolding commit atomic_execute end
  commit-AllOrNothing calls name l base inside =
      elim (Bool-cases (p.regex_match "^\\s+$" "COMMIT;")) [
        | inl blank ↦
            let ends : (commit p calls).0 ≡ undefined = ground arith in
            rw ends (λ r. ground (arith, r.commit))
        | inr sent ↦ commit_answered calls name l base (p.answers calls "COMMIT;") refl inside sent
      ]

  pub start_plain :
      (calls : List Call) (name : Option String) (base : List Transaction)
      → view calls ≡ record { schema = name; pending = none; log = base }
      → let (r, calls') = atomic_execute p start_text calls in
        ((view calls').log ≡ base) × (r ≡ returned true → view calls' ≡ within name [] base)
  unfolding atomic_execute
  start_plain calls name base outside =
      let outside' : (view calls).pending ≡ none = ap (λ (j : Journal). j.pending) outside in
      ground (arith, t.refuses_start calls, t.starts calls)
