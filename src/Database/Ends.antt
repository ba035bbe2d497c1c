-- ===== src/Database/Ends.antt =====
-- src/database.cpp: the calls of the database end with a result or an exception, but for those of a
-- debug build that loses the result of a statement of `standalone_execute`.
use open_workload_scheduler.Base.{
  String, true, false, Option, List, [], ◌∷◌, ◌≡◌, refl, arith, empty, inl, inr,
}
use open_workload_scheduler.Effect.{Outcome, Ends, Ends-cases, returned, thrown, undefined, blocked}
use open_workload_scheduler.Platform.{Platform, Call}
use open_workload_scheduler.Database.{
  atomic_execute, execute_all, commit, init, standalone_execute, query_one_row, executed,
  mysql_query,
}

-- A build that fetches no result of a statement, and a matcher that takes neither START TRANSACTION
-- nor COMMIT for a blank text.
pub record IsRelease (p : Platform) : Type 0 where
  pub release : p.debug_build ≡ false
  pub start : p.regex_match "^\\s+$" "START TRANSACTION;" ≡ false
  pub commit : p.regex_match "^\\s+$" "COMMIT;" ≡ false

-- A call that returns or throws, or leaves the language, the latter not in such a build.
abbrev pub EndsIn : {A : Type 0} → Platform → Outcome A → Type 0
EndsIn p (returned a) = Unit
EndsIn p (thrown e) = Unit
EndsIn p undefined = ¬ IsRelease p
EndsIn p blocked = ⊥

module _ (p : Platform) where
  pub atomic_execute-Ends : (q : String) (calls : List Call) → Ends (atomic_execute p q calls).0
  unfolding atomic_execute
  atomic_execute-Ends q calls = ground arith

  -- A statement of a release build that is not blank does not return false.
  pub atomic_execute_done :
      (q : String) (calls : List Call)
      → (atomic_execute p q calls).0 ≡ returned false
      → empty q ≡ false
      → p.regex_match "^\\s+$" q ≡ false
      → p.debug_build ≡ false
      → ⊥
  unfolding atomic_execute executed mysql_query
  atomic_execute_done q calls h full sent release = ground arith

  pub execute_all-Ends :
      (queries : List String) (calls : List Call) → Ends (execute_all p queries calls).0
  unfolding execute_all
  execute_all-Ends [] calls = tt
  execute_all-Ends (q ∷ queries) calls =
      let after = (atomic_execute p q calls).1 in
      ground (
        arith,
        atomic_execute-Ends q calls,
        atomic_execute-Ends "ROLLBACK;" after,
        execute_all-Ends queries after,
      )

  -- What follows a statement that is not to fail, inside a build of that kind or outside.
  pub atomic_execute-IsRelease :
      (q : String) (calls : List Call)
      → (atomic_execute p q calls).0 ≡ returned false
      → empty q ≡ false
      → (IsRelease p → p.regex_match "^\\s+$" q ≡ false)
      → ¬ IsRelease p
  atomic_execute-IsRelease q calls h full sent r =
      atomic_execute_done q calls h full (sent r) r.release

  pub commit-EndsIn : (calls : List Call) → EndsIn p (commit p calls).0
  unfolding commit
  commit-EndsIn calls =
      elim (Ends-cases (atomic_execute p "COMMIT;" calls).0 (atomic_execute-Ends "COMMIT;" calls)) [
        | inl (true, h) ↦ ground arith
        | inl (false, h) ↦
            let bad = atomic_execute-IsRelease "COMMIT;" calls h refl (λ r. r.commit) in
            let ends : (commit p calls).0 ≡ undefined = ground arith in rw ends bad
        | inr (e, h) ↦ ground arith
      ]

  pub standalone_execute-EndsIn :
      (queries : List String) (name : Option String) (calls : List Call)
      → EndsIn p (standalone_execute p queries name calls).0
  unfolding standalone_execute init
  standalone_execute-EndsIn queries name calls =
      let begun = (init p name calls).1 in
      let started = (atomic_execute p "START TRANSACTION;" begun).1 in
      let executed = (execute_all p queries started).1 in
      ground (
        arith,
        atomic_execute-Ends "START TRANSACTION;" begun,
        atomic_execute-IsRelease "START TRANSACTION;" begun,
        execute_all-Ends queries started,
        commit-EndsIn executed,
      )

  pub query_one_row-Ends :
      (text : String) (name : Option String) (calls : List Call)
      → Ends (query_one_row p text name calls).0
  unfolding query_one_row init
  query_one_row-Ends text name calls = ground arith
