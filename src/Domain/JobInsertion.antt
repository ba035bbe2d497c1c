-- ===== src/Domain/JobInsertion.antt =====
-- src/domain.cpp: what `add_job` does to the database, and when it refuses.
use open_workload_scheduler.Base.{
  String, true, false, some, List, [], ◌∷◌, map, ◌≡◌, refl, arith, concat, ◌++◌, Option, none,
  Option-cases, inl, inr,
}
use open_workload_scheduler.Base.Int.{ℤ, pos, ◌≤ℤ◌, eqb_ℤ}
use open_workload_scheduler.Effect.{Outcome, returned, thrown, undefined, blocked, ex_node}
use open_workload_scheduler.Platform.{Platform, Call, connect, query, close, int}
use open_workload_scheduler.Model.{TimeConstraint, Job}
use open_workload_scheduler.Database.{Row, standalone_execute, query_one_row}
use open_workload_scheduler.Database.Transactions.{sent, start_text, standalone_execute-sent}
use open_workload_scheduler.Domain.State.{Domain, execute_and_unlock}
use open_workload_scheduler.Domain.Insertions.{
  job_query, prv_query, nxt_query, time_constraint_query, node_count_query, time_constraint_queries,
  check_node, add_job_queries, insert_job, add_job,
}
use open_workload_scheduler.Domain.Mutex.{lock_free}

-- Every value lies within the planning.
abbrev pub AllWithin : ℤ → List TimeConstraint → Type 0
AllWithin duration [] = Unit
AllWithin duration (tc ∷ tcs) = (tc.value ≤ℤ duration) × AllWithin duration tcs

module _ (p : Platform) where
  -- The statements of a tail, given by its outcome, extended by one constraint.
  extended :
      (j : Job) (duration : ℤ) (tc : TimeConstraint) (tcs : List TimeConstraint)
      (r : Outcome (List String)) (queries : List String)
      → time_constraint_queries p j duration tcs ≡ r
      → ((qs : List String)
          → r ≡ returned qs
          → (qs ≡ map (time_constraint_query p j) tcs) × AllWithin duration tcs)
      → time_constraint_queries p j duration (tc ∷ tcs) ≡ returned queries
      → (queries ≡ map (time_constraint_query p j) (tc ∷ tcs)) × AllWithin duration (tc ∷ tcs)
  unfolding time_constraint_queries
  extended j duration tc tcs (returned qs) queries e tail h = ground (arith, tail qs refl)
  extended j duration tc tcs (thrown x) queries e tail h = ground arith
  extended j duration tc tcs undefined queries e tail h = ground arith
  extended j duration tc tcs blocked queries e tail h = ground arith

  pub time_constraint_queries-returned :
      (j : Job) (duration : ℤ) (tcs : List TimeConstraint) (queries : List String)
      → time_constraint_queries p j duration tcs ≡ returned queries
      → (queries ≡ map (time_constraint_query p j) tcs) × AllWithin duration tcs
  unfolding time_constraint_queries
  time_constraint_queries-returned j duration [] queries h = ground arith
  time_constraint_queries-returned j duration (tc ∷ tcs) queries h =
      extended j duration tc tcs (time_constraint_queries p j duration tcs) queries refl
        (time_constraint_queries-returned j duration tcs) h

  -- From a free mutex, if the count of nodes with the job's node name is read as 0, add_job throws
  -- an ex_node that names the node, with nothing sent but the query for the count, and the mutex
  -- stays held.
  pub add_job_unknown_node :
      (domain_name : String) (j : Job) (d : Domain) (field : String) (rest : Row)
      (calls : List Call)
      → d.is_locked ≡ false
      → query_one_row p (node_count_query p j) (some j.domain) d.calls
        ≡ (returned (some (field ∷ rest)), calls)
      → p.cast int field ≡ some (pos 0)
      → add_job p domain_name j d ≡ (
        thrown (ex_node (concat ("The node " ∷ j.node_name ∷ " does not exist" ∷ []))),
        record d { is_locked = true; calls = calls },
      )
  unfolding add_job check_node
  add_job_unknown_node domain_name j d field rest calls free found zero_nodes =
      ground (arith, lock_free p d free)

  -- All statements that a job needs: the job, its links to the jobs before it and behind it, and its
  -- time constraints.
  abbrev pub all_queries : Job → List String
  all_queries j =
      (job_query p j ∷ map (prv_query p j) j.prv)
      ++ (map (nxt_query p j) j.nxt ++ map (time_constraint_query p j) j.time_constraints)

  pub add_job_queries-all_queries :
      (j : Job)
      → add_job_queries p j (map (time_constraint_query p j) j.time_constraints) ≡ all_queries j
  unfolding add_job_queries
  add_job_queries-all_queries j = refl

  -- The count of the nodes with the name of the job's node was read, and is not 0.
  abbrev pub IsKnown : Job → Outcome (Option Row) → Type 0
  IsKnown j found =
      (field : String) × (rest : Row) × (count : ℤ) × (found ≡ returned (some (field ∷ rest)))
      × (p.cast int field ≡ some count)
      × (eqb_ℤ count (pos 0) ≡ false)

  counted :
      (j : Job) (d : Domain) (found : Outcome (Option Row)) (o : String → Option ℤ)
      → (query_one_row p (node_count_query p j) (some j.domain) d.calls).0 ≡ found
      → ((field : String) → p.cast int field ≡ o field)
      → (check_node p j d).0 ≡ returned tt
      → IsKnown j found
  unfolding check_node
  counted j d (returned (some (field ∷ rest))) o e cast h = elim (Option-cases (p.cast int field)) [
    | inl bad ↦ absurd (ground arith)
    | inr (count, good) ↦ (field, rest, count, refl, good, ground arith)
  ]
  counted j d (returned (some [])) o e cast h = absurd (ground arith)
  counted j d (returned none) o e cast h = absurd (ground arith)
  counted j d (thrown x) o e cast h = absurd (ground arith)
  counted j d undefined o e cast h = absurd (ground arith)
  counted j d blocked o e cast h = absurd (ground arith)

  insert_job-sent :
      (domain_name : String) (j : Job) (tcs : Outcome (List String)) (d d' : Domain)
      → time_constraint_queries p j d.planning_duration j.time_constraints ≡ tcs
      → insert_job p domain_name j tcs d ≡ (returned true, d')
      → AllWithin d.planning_duration j.time_constraints
        × (d' ≡ record d {
          is_locked = false;
          calls =
              close
              ∷ query "COMMIT;"
              ∷ sent (all_queries j) (query start_text ∷ connect (some domain_name) ∷ d.calls);
        })
  unfolding insert_job execute_and_unlock
  insert_job-sent domain_name j (returned tcs) d d' e h =
      let qs = add_job_queries p j tcs in
      ground (
        arith,
        time_constraint_queries-returned j d.planning_duration j.time_constraints tcs e,
        add_job_queries-all_queries j,
        standalone_execute-sent p qs (some domain_name) d.calls
            (standalone_execute p qs (some domain_name) d.calls).1,
      )
  insert_job-sent domain_name j (thrown x) d d' e h = ground arith
  insert_job-sent domain_name j undefined d d' e h = ground arith
  insert_job-sent domain_name j blocked d d' e h = ground arith

  add_job_written :
      (domain_name : String) (j : Job) (d d' : Domain)
      → d.is_locked ≡ false
      → add_job p domain_name j d ≡ (returned true, d')
      → let checked = (query_one_row p (node_count_query p j) (some j.domain) d.calls).1 in
        AllWithin d.planning_duration j.time_constraints
        × (d' ≡ record d {
          is_locked = false;
          calls =
              close
              ∷ query "COMMIT;"
              ∷ sent (all_queries j) (query start_text ∷ connect (some domain_name) ∷ checked);
        })
  unfolding add_job check_node
  add_job_written domain_name j d d' free h =
      let checked = (query_one_row p (node_count_query p j) (some j.domain) d.calls).1 in
      ground (
        arith,
        lock_free p d free,
        insert_job-sent domain_name j
            (time_constraint_queries p j d.planning_duration j.time_constraints)
            (record d { is_locked = true; calls = checked }) d' refl,
      )

  -- When `Domain::add_job` returns true from a free mutex, the count of the nodes with the name of
  -- the job's node was read first and is not 0, no time constraint exceeds the planning, the mutex
  -- is free again, and behind the check of the node the database has received exactly one committed
  -- transaction: the job, its links to the jobs before and behind it, and its constraints, in this
  -- order.
  pub add_job-sent :
      (domain_name : String) (j : Job) (d d' : Domain)
      → d.is_locked ≡ false
      → add_job p domain_name j d ≡ (returned true, d')
      → let checked = (query_one_row p (node_count_query p j) (some j.domain) d.calls).1 in
        IsKnown j (query_one_row p (node_count_query p j) (some j.domain) d.calls).0
        × AllWithin d.planning_duration j.time_constraints
        × (d' ≡ record d {
          is_locked = false;
          calls =
              close
              ∷ query "COMMIT;"
              ∷ sent (all_queries j) (query start_text ∷ connect (some domain_name) ∷ checked);
        })
  unfolding add_job
  add_job-sent domain_name j d d' free h =
      let written = add_job_written domain_name j d d' free h in
      (
        counted j (record d { is_locked = true }) _ (p.cast int) refl (λ field. refl)
            (ground (arith, lock_free p d free)),
        written.0,
        written.1,
      )
