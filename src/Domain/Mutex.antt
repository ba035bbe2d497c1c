-- ===== src/Domain/Mutex.antt =====
-- src/domain.cpp: `updates_mutex` across the updates, exceptions included.
use open_workload_scheduler.Base.{
  String, Bool, true, false, Option, some, List, [], ◌∷◌, ◌≡◌, refl, arith,
}
use open_workload_scheduler.Base.Int.{ℤ}
use open_workload_scheduler.Effect.{M, Outcome, Ends, returned, thrown, undefined, blocked}
use open_workload_scheduler.Platform.{Platform}
use open_workload_scheduler.Model.{JobState, Resource, TimeConstraint, Job}
use open_workload_scheduler.Database.Ends.{IsRelease, standalone_execute-EndsIn, query_one_row-Ends}
use open_workload_scheduler.Domain.State.{Domain, lock, execute_and_unlock, locked_execute}
use open_workload_scheduler.Domain.Insertions.{
  add_node_by_name, add_weighted_node, add_resource, node_count_query, time_constraint_queries,
  check_node, add_job_queries, insert_job, add_job,
}
use open_workload_scheduler.Domain.Updates.{
  job_state_query, timed_job_state_query, update_job, remove_job_by_name, update_job_state,
  update_timed_job_state,
}

-- The updates of one transaction, with the schema in which each runs. `remove_node` and `add_node` of a
-- whole node are series of these.
pub data Update : Type 0 where
  node_name : String → String → Update
  weighted_node : String → String → ℤ → Update
  resource : String → Resource → String → Update
  new_job : String → Job → Update
  changed_job : Job → Update
  removed_job : String → String → Update
  job_state : String → String → String → JobState → Update
  timed_job_state : String → String → String → JobState → ℤ → ℤ → Update

module _ (p : Platform) where
  unfoldable pub perform : Update → M Domain Bool
  perform (node_name domain_name n) = add_node_by_name p domain_name n
  perform (weighted_node domain_name n w) = add_weighted_node p domain_name n w
  perform (resource domain_name r n) = add_resource p domain_name r n
  perform (new_job domain_name j) = add_job p domain_name j
  perform (changed_job j) = update_job p j
  perform (removed_job domain_name n) = remove_job_by_name p domain_name n
  perform (job_state domain_name node n js) = update_job_state p domain_name node n js
  perform (timed_job_state domain_name node n js t t') =
      update_timed_job_state p domain_name node n js t t'

  pub time_constraint_queries-Ends :
      (j : Job) (duration : ℤ) (tcs : List TimeConstraint)
      → Ends (time_constraint_queries p j duration tcs)
  unfolding time_constraint_queries
  time_constraint_queries-Ends j duration [] = tt
  time_constraint_queries-Ends j duration (tc ∷ tcs) =
      ground (arith, time_constraint_queries-Ends j duration tcs)

  -- The mutex behind an update that found it free.
  abbrev pub Leaves : Outcome Bool → Domain → Type 0
  Leaves (returned b) d = d.is_locked ≡ false
  Leaves (thrown e) d = d.is_locked ≡ true
  Leaves undefined d = ¬ IsRelease p
  Leaves blocked d = ⊥

  pub check_node-Ends :
      (j : Job) (d : Domain)
      → let (r, d') = check_node p j d in Ends r × (d'.is_locked ≡ d.is_locked)
  unfolding check_node
  check_node-Ends j d =
      ground (arith, query_one_row-Ends p (node_count_query p j) (some j.domain) d.calls)

  pub lock_free :
      (d : Domain) → d.is_locked ≡ false → lock d ≡ (returned tt, record d { is_locked = true })
  unfolding lock
  lock_free d free = rw free

  pub lock_held : (d : Domain) → d.is_locked ≡ true → lock d ≡ (blocked, d)
  unfolding lock
  lock_held d held = rw held

  pub execute_and_unlock-Leaves :
      (queries : List String) (name : Option String) (d : Domain)
      → d.is_locked ≡ true
      → let (r, d') = execute_and_unlock p queries name d in Leaves r d'
  unfolding execute_and_unlock
  execute_and_unlock-Leaves queries name d held =
      ground (arith, standalone_execute-EndsIn p queries name d.calls)

  locked_execute-Leaves :
      (queries : List String) (name : Option String) (d : Domain)
      → d.is_locked ≡ false
      → let (r, d') = locked_execute p queries name d in Leaves r d'
  unfolding locked_execute
  locked_execute-Leaves queries name d free = ground (
    arith,
    lock_free d free,
    execute_and_unlock-Leaves queries name (record d { is_locked = true }) refl,
  )

  insert_job-Leaves :
      (domain_name : String) (j : Job) (tcs : Outcome (List String)) (d : Domain)
      → Ends tcs
      → d.is_locked ≡ true
      → let (r, d') = insert_job p domain_name j tcs d in Leaves r d'
  unfolding insert_job
  insert_job-Leaves domain_name j (returned tcs) d ends held =
      execute_and_unlock-Leaves (add_job_queries p j tcs) (some domain_name) d held
  insert_job-Leaves domain_name j (thrown e) d ends held = held
  insert_job-Leaves domain_name j undefined d ends held = λ r. ends
  insert_job-Leaves domain_name j blocked d ends held = ends

  add_job-Leaves :
      (domain_name : String) (j : Job) (d : Domain)
      → d.is_locked ≡ false
      → let (r, d') = add_job p domain_name j d in Leaves r d'
  unfolding add_job
  add_job-Leaves domain_name j d free =
      let held = record d { is_locked = true } in
      let checked = (check_node p j held).1 in
      let tcs = time_constraint_queries p j checked.planning_duration j.time_constraints in
      ground (
        arith,
        lock_free d free,
        check_node-Ends j held,
        insert_job-Leaves domain_name j tcs checked
            (time_constraint_queries-Ends j checked.planning_duration j.time_constraints),
      )

  -- Each of the eight updates of the domain that run one transaction (all but remove_node, and
  -- add_node with a whole node), if it finds the mutex free, never blocks, and is undefined only
  -- outside of a release build, that is where results are fetched or START TRANSACTION or COMMIT
  -- matches the pattern of blank texts; the mutex is free behind an update that returns, and held
  -- behind one that throws.
  pub perform-Leaves :
      (u : Update) (d : Domain) → d.is_locked ≡ false → let (r, d') = perform u d in Leaves r d'
  unfolding perform add_node_by_name add_weighted_node add_resource update_job remove_job_by_name
      update_job_state update_timed_job_state
  perform-Leaves (node_name domain_name n) d free = locked_execute-Leaves _ _ d free
  perform-Leaves (weighted_node domain_name n w) d free = locked_execute-Leaves _ _ d free
  perform-Leaves (resource domain_name r n) d free = locked_execute-Leaves _ _ d free
  perform-Leaves (new_job domain_name j) d free = add_job-Leaves domain_name j d free
  perform-Leaves (changed_job j) d free = locked_execute-Leaves _ _ d free
  perform-Leaves (removed_job domain_name n) d free = locked_execute-Leaves _ _ d free
  perform-Leaves (job_state domain_name node n js) d free =
      ground (arith, locked_execute-Leaves (job_state_query p n js ∷ []) (some domain_name) d free)
  perform-Leaves (timed_job_state domain_name node n js t t') d free = ground (
    arith,
    locked_execute-Leaves (timed_job_state_query p n js t t' ∷ []) (some domain_name) d free,
  )
