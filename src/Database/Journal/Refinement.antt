-- ===== src/Database/Journal/Refinement.antt =====
-- src/database.cpp: `standalone_execute` runs its statements as one transaction.
use open_workload_scheduler.Base.{
  String, Bool, true, false, Option, List, [], ◌∷◌, ◌≡◌, refl, arith, ◌⊎◌, inl, inr, ◌∙◌,
  Bool-cases, if◌then◌else◌,
}
use open_workload_scheduler.Effect.{
  Ends-cases, Outcome, Ends-cases, Exception, returned, thrown, undefined, ex_processing, ◌>>=◌,
  pure, try_catch,
}
use open_workload_scheduler.Platform.{Platform, Call, connect, lost_connect, close}
use open_workload_scheduler.Database.{
  atomic_execute, execute_all, standalone_execute, commit, end, end_and_rethrow,
}
use open_workload_scheduler.Database.Transactions.{start_text, init_connected, init_lost}
use open_workload_scheduler.Database.Journal.{
  Transaction, Journal, IsTransactional, AllPlain, AllOrNothing, within,
}
use open_workload_scheduler.Database.Journal.Statements.{
  execute_all_plain, start_plain, commit-AllOrNothing,
}
use open_workload_scheduler.Database.Ends.{
  atomic_execute-Ends, atomic_execute-IsRelease, execute_all-Ends,
}

module _ (p : Platform) (IsPlain IsRead : String → Type 0) (view : List Call → Journal)
    (t : IsTransactional p IsPlain IsRead view) where
  end_and_rethrow_lem :
      (e : Exception) (calls : List Call)
      → (end_and_rethrow p e calls ≡ (thrown e, close ∷ calls))
        ⊎ (end_and_rethrow p e calls ≡ (thrown e, calls))
  unfolding end_and_rethrow end
  end_and_rethrow_lem (ex_processing msg) calls = inl refl
  end_and_rethrow_lem _ calls = inr refl

  abbrev transaction : List String → List Call → Outcome Bool × List Call
  transaction queries = do
    done ← try_catch (execute_all p queries) (end_and_rethrow p)
    if done then commit p else pure false

  transaction-AllOrNothing :
      (queries : List String) (calls : List Call) (name : Option String) (base : List Transaction)
      → AllPlain IsPlain queries
      → view calls ≡ within name [] base
      → let (r, calls') = transaction queries calls in
        AllOrNothing p name queries base r (view calls').log
  unfolding end_and_rethrow end
  transaction-AllOrNothing queries calls name base plain inside =
      let after = (execute_all p queries calls).1 in
      let facts =
        execute_all_plain p IsPlain IsRead view t queries calls name [] base plain inside in
      elim (Ends-cases (execute_all p queries calls).0 (execute_all-Ends p queries calls)) [
        | inl (true, h) ↦
            let ends : transaction queries calls ≡ commit p after = ground arith in
            rw ends
              (commit-AllOrNothing p IsPlain IsRead view t after name queries base (facts.1 h))
        | inl (false, h) ↦
            let ends : transaction queries calls ≡ (returned false, after) = ground arith in
            rw ends facts.0
        | inr (e, h) ↦ elim (end_and_rethrow_lem e after) [
          | inl ended ↦
              let ends : transaction queries calls ≡ (thrown e, close ∷ after) = ground arith in
              rw ends (inl (t.closes after ∙ facts.0))
          | inr kept ↦
              let ends : transaction queries calls ≡ (thrown e, after) = ground arith in
              rw ends (inl facts.0)
        ]
      ]

  -- On a server with the documented behaviour of transactions, standalone_execute on statements
  -- that are neither transaction control nor implicitly committing adds to the committed
  -- transactions either nothing or exactly one: that of the statements in order, in the given
  -- schema. It is added if the call returns true, and not if it returns false; an exception tells
  -- not which. The call never blocks, and is undefined only outside of a release build, that is
  -- where results are fetched or START TRANSACTION or COMMIT matches the pattern of blank texts.
  pub standalone_execute-AllOrNothing :
      (queries : List String) (name : Option String) (calls : List Call)
      → AllPlain IsPlain queries
      → let (r, calls') = standalone_execute p queries name calls in
        AllOrNothing p name queries (view calls).log r (view calls').log
  unfolding standalone_execute end
  standalone_execute-AllOrNothing queries name calls plain =
      let begun : List Call = connect name ∷ calls in
      let after = (atomic_execute p start_text begun).1 in
      let base = (view calls).log in
      let facts = start_plain p IsPlain IsRead view t begun name base (t.connects name calls) in
      elim (Bool-cases (p.connects calls name)) [
        | inl connected ↦
            elim (Ends-cases (atomic_execute p start_text begun).0
              (atomic_execute-Ends p start_text begun)) [
                | inl (true, h) ↦
                    let ends : standalone_execute p queries name calls ≡ transaction queries after =
                      ground (arith, init_connected p name calls connected) in
                    rw ends (transaction-AllOrNothing queries after name base plain (facts.1 h))
                | inl (false, h) ↦
                    let bad = atomic_execute-IsRelease p start_text begun h refl (λ r. r.start) in
                    let ends : (standalone_execute p queries name calls).0 ≡ undefined =
                      ground (arith, init_connected p name calls connected) in
                    rw ends bad
                | inr (e, h) ↦
                    let ends : standalone_execute p queries name calls ≡ (thrown e, after) =
                      ground (arith, init_connected p name calls connected) in
                    rw ends (inl facts.0)
              ]
        | inr lost ↦
            let ends : standalone_execute p queries name calls
                ≡ (thrown (ex_processing "Error: cannot connect: "), lost_connect name ∷ calls) =
              ground (arith, init_lost p name calls lost) in
            rw ends (inl (t.connects_not name calls))
      ]
