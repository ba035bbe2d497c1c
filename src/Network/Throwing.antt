-- ===== src/Network/Throwing.antt =====
-- src/domain.cpp: which exceptions the updates of a job throw.
use open_workload_scheduler.Base.{
  String, Bool, true, Option, some, List, [], ◌∷◌, ◌≡◌, refl, arith, Bool-cases, inl, inr, ◌⊎◌,
}
use open_workload_scheduler.Base.Int.{ℤ}
use open_workload_scheduler.Effect.{Outcome, returned, thrown, undefined, blocked}
use open_workload_scheduler.Platform.{Platform, Call}
use open_workload_scheduler.Model.{TimeConstraint, Job}
use open_workload_scheduler.Database.{
  atomic_execute, execute_all, commit, init, standalone_execute, query_one_row,
}
use open_workload_scheduler.Database.Transactions.{init_connected, init_lost}
use open_workload_scheduler.Domain.Mutex.{lock_free, lock_held}
use open_workload_scheduler.Domain.State.{Domain, lock, unlock, execute_and_unlock, locked_execute}
use open_workload_scheduler.Domain.Insertions.{
  add_job, check_node, insert_job, time_constraint_queries, node_count_query, add_job_queries,
}
use open_workload_scheduler.Domain.Updates.{
  update_job, remove_job, remove_job_by_name, update_state_of, update_job_state, job_state_query,
}
use open_workload_scheduler.Network.Clauses.{throws_only, is_of_statement, is_of_insertion}

module _ (p : Platform) where
  atomic_execute_throws :
      (q : String) (calls : List Call)
      → throws_only is_of_statement (atomic_execute p q calls).0 ≡ true
  unfolding atomic_execute
  atomic_execute_throws q calls = ground arith

  execute_all_throws :
      (queries : List String) (calls : List Call)
      → throws_only is_of_statement (execute_all p queries calls).0 ≡ true
  unfolding execute_all
  execute_all_throws [] calls = refl
  execute_all_throws (q ∷ queries) calls =
      let after = (atomic_execute p q calls).1 in
      ground (
        arith,
        atomic_execute_throws q calls,
        atomic_execute_throws "ROLLBACK;" after,
        execute_all_throws queries after,
      )

  init_throws :
      (name : Option String) (calls : List Call)
      → throws_only is_of_statement (init p name calls).0 ≡ true
  init_throws name calls = elim (Bool-cases (p.connects calls name)) [
    | inl connected ↦ rw (init_connected p name calls connected) refl
    | inr lost ↦ rw (init_lost p name calls lost) refl
  ]

  standalone_execute_throws :
      (queries : List String) (name : Option String) (calls : List Call)
      → throws_only is_of_statement (standalone_execute p queries name calls).0 ≡ true
  unfolding standalone_execute commit
  standalone_execute_throws queries name calls =
      let begun = (init p name calls).1 in
      let started = (atomic_execute p "START TRANSACTION;" begun).1 in
      let executed = (execute_all p queries started).1 in
      ground (
        arith,
        init_throws name calls,
        atomic_execute_throws "START TRANSACTION;" begun,
        execute_all_throws queries started,
        atomic_execute_throws "COMMIT;" executed,
      )

  execute_and_unlock_throws :
      (queries : List String) (name : Option String) (d : Domain)
      → throws_only is_of_statement (execute_and_unlock p queries name d).0 ≡ true
  unfolding execute_and_unlock unlock
  execute_and_unlock_throws queries name d =
      ground (arith, standalone_execute_throws queries name d.calls)

  -- The mutex throws nothing.
  lock_throws :
      (d : Domain)
      → (lock d ≡ (returned tt, record d { is_locked = true })) ⊎ (lock d ≡ (blocked, d))
  lock_throws d = elim (Bool-cases d.is_locked) [
    | inl held ↦ inr (lock_held p d held)
    | inr free ↦ inl (lock_free p d free)
  ]

  pub locked_execute_throws :
      (queries : List String) (name : Option String) (d : Domain)
      → throws_only is_of_statement (locked_execute p queries name d).0 ≡ true
  unfolding locked_execute
  locked_execute_throws queries name d =
      ground (
        arith,
        lock_throws d,
        execute_and_unlock_throws queries name (record d { is_locked = true }),
      )

  pub update_state_of_throws :
      (domain_name : String) (j : Job) (d : Domain)
      → throws_only is_of_statement (update_state_of p domain_name j d).0 ≡ true
  unfolding update_state_of update_job_state
  update_state_of_throws domain_name j d =
      ground
        (arith, locked_execute_throws (job_state_query p j.name j.state ∷ []) (some domain_name) d)

  pub update_job_throws :
      (j : Job) (d : Domain) → throws_only is_of_statement (update_job p j d).0 ≡ true
  unfolding update_job
  update_job_throws j d = locked_execute_throws _ _ d

  pub remove_job_throws :
      (j : Job) (d : Domain) → throws_only is_of_statement (remove_job p j d).0 ≡ true
  unfolding remove_job remove_job_by_name
  remove_job_throws j d = locked_execute_throws _ _ d

  query_one_row_throws :
      (text : String) (name : Option String) (calls : List Call)
      → throws_only is_of_insertion (query_one_row p text name calls).0 ≡ true
  unfolding query_one_row
  query_one_row_throws text name calls = ground (arith, init_throws name calls)

  check_node_throws :
      (j : Job) (d : Domain) → throws_only is_of_insertion (check_node p j d).0 ≡ true
  unfolding check_node
  check_node_throws j d =
      ground (arith, query_one_row_throws (node_count_query p j) (some j.domain) d.calls)

  time_constraint_queries_throws :
      (j : Job) (duration : ℤ) (tcs : List TimeConstraint)
      → throws_only is_of_insertion (time_constraint_queries p j duration tcs) ≡ true
  unfolding time_constraint_queries
  time_constraint_queries_throws j duration [] = refl
  time_constraint_queries_throws j duration (tc ∷ tcs) =
      ground (arith, time_constraint_queries_throws j duration tcs)

  statements_in_insertion :
      (r : Outcome Bool)
      → throws_only is_of_statement r ≡ true
      → throws_only is_of_insertion r ≡ true
  statements_in_insertion r h = ground arith

  insert_job_throws :
      (domain_name : String) (j : Job) (tcs : Outcome (List String)) (d : Domain)
      → throws_only is_of_insertion tcs ≡ true
      → throws_only is_of_insertion (insert_job p domain_name j tcs d).0 ≡ true
  unfolding insert_job
  insert_job_throws domain_name j (returned tcs) d h =
      statements_in_insertion
        (execute_and_unlock p (add_job_queries p j tcs) (some domain_name) d).0
        (execute_and_unlock_throws (add_job_queries p j tcs) (some domain_name) d)
  insert_job_throws domain_name j (thrown e) d h = h
  insert_job_throws domain_name j undefined d h = refl
  insert_job_throws domain_name j blocked d h = refl

  pub add_job_throws :
      (domain_name : String) (j : Job) (d : Domain)
      → throws_only is_of_insertion (add_job p domain_name j d).0 ≡ true
  unfolding add_job
  add_job_throws domain_name j d =
      let held = record d { is_locked = true } in
      let checked = (check_node p j held).1 in
      let tcs = time_constraint_queries p j checked.planning_duration j.time_constraints in
      ground (
        arith,
        lock_throws d,
        check_node_throws j held,
        insert_job_throws domain_name j tcs checked
            (time_constraint_queries_throws j checked.planning_duration j.time_constraints),
      )
