-- ===== src/Domain/Atomicity.antt =====
-- src/domain.cpp: the updates of one transaction send exactly that.
use open_workload_scheduler.Base.{String, true, false, some, List, [], ◌∷◌, ◌≡◌, arith, concat}
use open_workload_scheduler.Effect.{returned}
use open_workload_scheduler.Platform.{Platform, Call, connect, query, close}
use open_workload_scheduler.Database.{standalone_execute, query_one_row}
use open_workload_scheduler.Database.Transactions.{sent, start_text, standalone_execute-sent}
use open_workload_scheduler.Domain.State.{Domain, locked_execute, execute_and_unlock}
use open_workload_scheduler.Domain.Insertions.{
  add_node_by_name, add_weighted_node, add_resource, resource_query, node_count_query,
}
use open_workload_scheduler.Domain.Updates.{
  update_job, update_job_queries, remove_job_by_name, remove_job_queries, update_job_state,
  job_state_query, update_timed_job_state, timed_job_state_query,
}
use open_workload_scheduler.Domain.Mutex.{
  Update, node_name, weighted_node, resource, new_job, changed_job, removed_job, job_state,
  timed_job_state, perform, lock_free,
}
use open_workload_scheduler.Domain.JobInsertion.{all_queries, add_job-sent}

module _ (p : Platform) where
  -- What an update is meant to write.
  abbrev pub statements : Update → List String
  statements (node_name domain_name n) =
      concat ("INSERT IGNORE INTO " ∷ "node (node_name) VALUES ('" ∷ n ∷ "');" ∷ []) ∷ []
  statements (weighted_node domain_name n w) =
      concat (
        "INSERT IGNORE INTO node (node_name,node_weight) VALUES ('"
        ∷ n
        ∷ "','"
        ∷ p.to_string w
        ∷ "');"
        ∷ [])
      ∷ []
  statements (resource domain_name r n) = resource_query p r n ∷ []
  statements (new_job domain_name j) = all_queries p j
  statements (changed_job j) = update_job_queries p j
  statements (removed_job domain_name n) = remove_job_queries p n
  statements (job_state domain_name node n js) = job_state_query p n js ∷ []
  statements (timed_job_state domain_name node n js t t') = timed_job_state_query p n js t t' ∷ []

  -- The schema in which it is to run: the one that is given, and for a changed job that of its node.
  abbrev pub schema : Update → String
  schema (node_name domain_name n) = domain_name
  schema (weighted_node domain_name n w) = domain_name
  schema (resource domain_name r n) = domain_name
  schema (new_job domain_name j) = domain_name
  schema (changed_job j) = j.node_name
  schema (removed_job domain_name n) = domain_name
  schema (job_state domain_name node n js) = domain_name
  schema (timed_job_state domain_name node n js t t') = domain_name

  -- The calls before the transaction: only a new job asks for its node first.
  abbrev pub calls_before : Update → Domain → List Call
  calls_before (new_job domain_name j) d =
      (query_one_row p (node_count_query p j) (some j.domain) d.calls).1
  calls_before u d = d.calls

  abbrev pub committed : Update → Domain → Domain
  committed u d = record d {
    is_locked = false;
    calls =
        close
        ∷ query "COMMIT;"
        ∷ sent (statements u) (query start_text ∷ connect (some (schema u)) ∷ calls_before u d);
  }

  locked_execute-sent :
      (queries : List String) (name : String) (d d' : Domain)
      → d.is_locked ≡ false
      → locked_execute p queries (some name) d ≡ (returned true, d')
      → d' ≡ record d {
        is_locked = false;
        calls =
            close
            ∷ query "COMMIT;"
            ∷ sent queries (query start_text ∷ connect (some name) ∷ d.calls);
      }
  unfolding locked_execute execute_and_unlock
  locked_execute-sent queries name d d' free h = ground (
    arith,
    lock_free p d free,
    standalone_execute-sent p queries (some name) d.calls
        (standalone_execute p queries (some name) d.calls).1,
  )

  -- Each of the eight updates of the domain that run one transaction (all but remove_node, and
  -- add_node with a whole node), if it finds the mutex free and returns true, has sent exactly one
  -- committed transaction, with the statements of that update in order, on one connection to its
  -- schema that is then ended (a new job asks for its node before that, on a connection of its
  -- own); the mutex is free again and no other attribute has changed.
  pub perform-sent :
      (u : Update) (d d' : Domain)
      → d.is_locked ≡ false
      → perform p u d ≡ (returned true, d')
      → d' ≡ committed u d
  unfolding perform add_node_by_name add_weighted_node add_resource update_job remove_job_by_name
      update_job_state update_timed_job_state
  perform-sent (node_name domain_name n) d d' free h = locked_execute-sent _ domain_name d d' free h
  perform-sent (weighted_node domain_name n w) d d' free h =
      locked_execute-sent _ domain_name d d' free h
  perform-sent (resource domain_name r n) d d' free h =
      locked_execute-sent _ domain_name d d' free h
  perform-sent (new_job domain_name j) d d' free h = (add_job-sent p domain_name j d d' free h).2
  perform-sent (changed_job j) d d' free h = locked_execute-sent _ j.node_name d d' free h
  perform-sent (removed_job domain_name n) d d' free h =
      locked_execute-sent _ domain_name d d' free h
  perform-sent (job_state domain_name node n js) d d' free h =
      ground (arith, locked_execute-sent (job_state_query p n js ∷ []) domain_name d d' free)
  perform-sent (timed_job_state domain_name node n js t t') d d' free h =
      ground
        (arith, locked_execute-sent (timed_job_state_query p n js t t' ∷ []) domain_name d d' free)
