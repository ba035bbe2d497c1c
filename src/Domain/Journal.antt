-- ===== src/Domain/Journal.antt =====
-- src/domain.cpp: what the updates leave in the database.
use open_workload_scheduler.Base.{
  String, Bool, Option, subst, true, false, Option, some, List, ◌∷◌, ◌≡◌, refl, arith, inl, inr,
  Bool-cases, if◌then◌else◌, empty, ◌||◌,
}
use open_workload_scheduler.Effect.{
  Outcome, Ends, Ends-cases, pure, returned, thrown, undefined, blocked,
}
use open_workload_scheduler.Platform.{Platform, Call, connect, query}
use open_workload_scheduler.Model.{Job}
use open_workload_scheduler.Database.{standalone_execute, query_one_row}
use open_workload_scheduler.Database.Transactions.{init_connected, init_lost}
use open_workload_scheduler.Database.Ends.{standalone_execute-EndsIn}
use open_workload_scheduler.Database.Journal.{
  Transaction, Journal, IsTransactional, AllPlain, AllOrNothing,
}
use open_workload_scheduler.Database.Journal.Refinement.{standalone_execute-AllOrNothing}
use open_workload_scheduler.Domain.State.{Domain, locked_execute, execute_and_unlock}
use open_workload_scheduler.Domain.Insertions.{
  add_node_by_name, add_weighted_node, add_resource, add_job, check_node, insert_job,
  time_constraint_queries, node_count_query,
}
use open_workload_scheduler.Domain.Updates.{
  update_job, remove_job_by_name, update_job_state, update_timed_job_state,
}
use open_workload_scheduler.Domain.Mutex.{
  Update, node_name, weighted_node, resource, new_job, changed_job, removed_job, job_state,
  timed_job_state, perform, lock_free, check_node-Ends, time_constraint_queries-Ends,
}
use open_workload_scheduler.Domain.Atomicity.{statements, schema}
use open_workload_scheduler.Domain.JobInsertion.{
  all_queries, add_job_queries-all_queries, time_constraint_queries-returned,
}

module _ (p : Platform) (IsPlain IsRead : String → Type 0) (view : List Call → Journal)
    (t : IsTransactional p IsPlain IsRead view) where
  abbrev log_of : Domain → List Transaction
  log_of d = (view d.calls).log

  ends_as :
      (name : Option String) (queries : List String) (base : List Transaction)
      (w : Outcome Bool × List Call) (w' : Outcome Bool × Domain)
      → w.0 ≡ w'.0
      → w.1 ≡ w'.1.calls
      → AllOrNothing p name queries base w.0 (view w.1).log
      → AllOrNothing p name queries base w'.0 (log_of w'.1)
  ends_as name queries base w w' same same' h =
      subst (λ r. AllOrNothing p name queries base r (log_of w'.1)) same
        (subst (λ calls. AllOrNothing p name queries base w.0 (view calls).log) same' h)

  execute_and_unlock-AllOrNothing :
      (queries : List String) (name : String) (d : Domain)
      → AllPlain IsPlain queries
      → let (r, d') = execute_and_unlock p queries (some name) d in
        AllOrNothing p (some name) queries (log_of d) r (log_of d')
  unfolding execute_and_unlock
  execute_and_unlock-AllOrNothing queries name d plain =
      ends_as (some name) queries (log_of d) (standalone_execute p queries (some name) d.calls)
        (execute_and_unlock p queries (some name) d)
        (ground (arith, standalone_execute-EndsIn p queries (some name) d.calls))
        (ground (arith, standalone_execute-EndsIn p queries (some name) d.calls))
        (standalone_execute-AllOrNothing p IsPlain IsRead view t queries (some name) d.calls plain)

  locked_execute-AllOrNothing :
      (queries : List String) (name : String) (d : Domain)
      → d.is_locked ≡ false
      → AllPlain IsPlain queries
      → let (r, d') = locked_execute p queries (some name) d in
        AllOrNothing p (some name) queries (log_of d) r (log_of d')
  unfolding locked_execute
  locked_execute-AllOrNothing queries name d free plain =
      let held : Domain = record d { is_locked = true } in
      let (r, d') = execute_and_unlock p queries (some name) held in
      ends_as (some name) queries (log_of d) (r, d'.calls) (locked_execute p queries (some name) d)
        (ground (arith, lock_free p d free)) (ground (arith, lock_free p d free))
        (execute_and_unlock-AllOrNothing queries name held plain)

  query_one_row_log :
      (text : String) (name : Option String) (calls : List Call)
      → IsRead text
      → (view (query_one_row p text name calls).1).log ≡ (view calls).log
  unfolding query_one_row
  query_one_row_log text name calls read =
      let begun : List Call = connect name ∷ calls in
      let facts = t.connects name calls in
      let facts' = t.reads text begun read in
      let facts'' = t.closes (query text ∷ begun) in
      elim (Bool-cases (p.connects calls name)) [
        | inl connected ↦
            ground (arith, init_connected p name calls connected, facts, facts', facts'')
        | inr lost ↦ ground (arith, init_lost p name calls lost, t.connects_not name calls)
      ]

  check_node_log :
      (j : Job) (d : Domain)
      → IsRead (node_count_query p j)
      → log_of (check_node p j d).1 ≡ log_of d
  unfolding check_node
  check_node_log j d read =
      ground (arith, query_one_row_log (node_count_query p j) (some j.domain) d.calls read)

  insert_job-AllOrNothing :
      (domain_name : String) (j : Job) (tcs : Outcome (List String)) (d : Domain)
      → time_constraint_queries p j d.planning_duration j.time_constraints ≡ tcs
      → Ends tcs
      → AllPlain IsPlain (all_queries p j)
      → let (r, d') = insert_job p domain_name j tcs d in
        AllOrNothing p (some domain_name) (all_queries p j) (log_of d) r (log_of d')
  unfolding insert_job
  insert_job-AllOrNothing domain_name j (returned tcs) d e ends plain =
      let written =
        (time_constraint_queries-returned p j d.planning_duration j.time_constraints tcs e).0 in
      rw (written, add_job_queries-all_queries p j)
        (execute_and_unlock-AllOrNothing (all_queries p j) domain_name d plain)
  insert_job-AllOrNothing domain_name j (thrown x) d e ends plain = inl refl
  insert_job-AllOrNothing domain_name j undefined d e ends plain = λ r. ends
  insert_job-AllOrNothing domain_name j blocked d e ends plain = ends

  add_job-AllOrNothing :
      (domain_name : String) (j : Job) (d : Domain)
      → d.is_locked ≡ false
      → IsRead (node_count_query p j)
      → AllPlain IsPlain (all_queries p j)
      → let (r, d') = add_job p domain_name j d in
        AllOrNothing p (some domain_name) (all_queries p j) (log_of d) r (log_of d')
  unfolding add_job
  add_job-AllOrNothing domain_name j d free read plain =
      let held : Domain = record d { is_locked = true } in
      let checked = (check_node p j held).1 in
      let tcs = time_constraint_queries p j checked.planning_duration j.time_constraints in
      let (r, d') = insert_job p domain_name j tcs checked in
      elim (Ends-cases (check_node p j held).0 (check_node-Ends p j held).0) [
        | inl (u, found) ↦
            ends_as (some domain_name) (all_queries p j) (log_of d) (r, d'.calls)
              (add_job p domain_name j d) (ground (arith, lock_free p d free))
              (ground (arith, lock_free p d free))
              (subst
                (λ base. AllOrNothing p (some domain_name) (all_queries p j) base r (log_of d'))
                (check_node_log j held read)
                (insert_job-AllOrNothing domain_name j tcs checked refl
                  (time_constraint_queries-Ends p j checked.planning_duration j.time_constraints)
                  plain))
        | inr (e, unknown) ↦
            ends_as (some domain_name) (all_queries p j) (log_of d) (thrown e, checked.calls)
              (add_job p domain_name j d) (ground (arith, lock_free p d free))
              (ground (arith, lock_free p d free)) (inl (check_node_log j held read))
      ]

  unless-AllOrNothing :
      (declines : Bool) (queries : List String) (name : String) (d : Domain)
      → d.is_locked ≡ false
      → AllPlain IsPlain queries
      → let (r, d') = (if declines then pure false else locked_execute p queries (some name)) d in
        AllOrNothing p (some name) queries (log_of d) r (log_of d')
  unless-AllOrNothing true queries name d free plain = refl
  unless-AllOrNothing false queries name d free plain =
      locked_execute-AllOrNothing queries name d free plain

  -- The queries that an update sends before its transaction.
  abbrev pub AllRead : Update → Type 0
  AllRead (new_job domain_name j) = IsRead (node_count_query p j)
  AllRead u = Unit

  -- On a server with the documented behaviour of transactions, each of the eight updates of the
  -- domain that run one transaction (all but remove_node, and add_node with a whole node), if it
  -- finds the mutex free, and if its statements are neither transaction control nor implicitly
  -- committing (and its query before the transaction, if it has one, is a read), adds to the
  -- committed transactions either nothing or exactly one: that of its statements in order, in its
  -- schema. It is added if the update returns true, and not if it returns false; an exception tells
  -- not which. The update never blocks, and is undefined only outside of a release build, that is
  -- where results are fetched or START TRANSACTION or COMMIT matches the pattern of blank texts.
  pub perform-AllOrNothing :
      (u : Update) (d : Domain)
      → d.is_locked ≡ false
      → AllRead u
      → AllPlain IsPlain (statements p u)
      → let (r, d') = perform p u d in
        AllOrNothing p (some (schema p u)) (statements p u) (log_of d) r (log_of d')
  unfolding perform add_node_by_name add_weighted_node add_resource update_job remove_job_by_name
      update_job_state update_timed_job_state
  perform-AllOrNothing (node_name domain_name n) d free read plain =
      locked_execute-AllOrNothing _ domain_name d free plain
  perform-AllOrNothing (weighted_node domain_name n w) d free read plain =
      locked_execute-AllOrNothing _ domain_name d free plain
  perform-AllOrNothing (resource domain_name r n) d free read plain =
      locked_execute-AllOrNothing _ domain_name d free plain
  perform-AllOrNothing (new_job domain_name j) d free read plain =
      add_job-AllOrNothing domain_name j d free read plain
  perform-AllOrNothing (changed_job j) d free read plain =
      locked_execute-AllOrNothing _ j.node_name d free plain
  perform-AllOrNothing (removed_job domain_name n) d free read plain =
      locked_execute-AllOrNothing _ domain_name d free plain
  perform-AllOrNothing (job_state domain_name node n js) d free read plain =
      unless-AllOrNothing (empty node || p.regex_match "^\\s+$" "") _ domain_name d free plain
  perform-AllOrNothing (timed_job_state domain_name node n js t t') d free read plain =
      unless-AllOrNothing (empty node || p.regex_match "^\\s+$" "") _ domain_name d free plain
