-- ===== src/Domain/Insertions.antt =====
-- src/domain.cpp: the operations that add nodes, resources and jobs. Each sends its statements as one
-- transaction, under `updates_mutex`.
use open_workload_scheduler.Base.{
  String, Bool, false, not, some, List, [], ◌∷◌, ◌++◌, map, concat, if◌then◌else◌,
}
use open_workload_scheduler.Base.Int.{ℤ, pos, ltb_ℤ, eqb_ℤ}
use open_workload_scheduler.Effect.{
  M, Outcome, returned, thrown, undefined, blocked, ex_node, ex_processing, std_exception, ◌>>=◌,
  ◌>>◌, pure, lift, throw_if, or_throw, gets, column_at, all_of,
}
use open_workload_scheduler.Platform.{Platform, int}
use open_workload_scheduler.Model.{Resource, TimeConstraint, Job, Node}
use open_workload_scheduler.Convertions.{build_string_from_time_constraint_type}
use open_workload_scheduler.Database.{query_one_row}
use open_workload_scheduler.Domain.State.{
  Domain, on_database, lock, execute_and_unlock, locked_execute,
}

module _ (p : Platform) where
  -- `add_node(const char*, const char*)`
  unfoldable pub add_node_by_name : String → String → M Domain Bool
  add_node_by_name domain_name n =
      locked_execute p
        (concat ("INSERT IGNORE INTO " ∷ "node (node_name) VALUES ('" ∷ n ∷ "');" ∷ []) ∷ [])
        (some domain_name)

  -- `add_node(const char*, const std::string&, const rpc::integer&)`
  unfoldable pub add_weighted_node : String → String → ℤ → M Domain Bool
  add_weighted_node domain_name n w =
      locked_execute p
        (concat (
            "INSERT IGNORE INTO node (node_name,node_weight) VALUES ('"
            ∷ n
            ∷ "','"
            ∷ p.to_string w
            ∷ "');"
            ∷ [])
          ∷ [])
        (some domain_name)

  unfoldable pub resource_query : Resource → String → String
  resource_query r node_name = concat (
      "INSERT INTO resource (resource_name,resource_node_name,resource_current_value,resource_initial_value) VALUES ('"
      ∷ r.name
      ∷ "','"
      ∷ node_name
      ∷ "','"
      ∷ p.to_string r.current_value
      ∷ "','"
      ∷ p.to_string r.initial_value
      ∷ "');"
      ∷ [])

  unfoldable pub add_resource : String → Resource → String → M Domain Bool
  add_resource domain_name r node_name =
      locked_execute p (resource_query r node_name ∷ []) (some domain_name)

  -- The statements of `add_job`.
  unfoldable pub job_query : Job → String
  job_query j = concat (
      "INSERT INTO job (job_name,job_cmd_line,job_node_name,job_weight) VALUES ('"
      ∷ j.name
      ∷ "','"
      ∷ j.cmd_line
      ∷ "','"
      ∷ j.node_name
      ∷ "','"
      ∷ p.to_string j.weight
      ∷ "');"
      ∷ [])

  unfoldable pub prv_query : Job → String → String
  prv_query j i = concat (
      "INSERT INTO " ∷ "jobs_link (job_name_prv,job_name_nxt) VALUES ('" ∷ i ∷ "','" ∷ j.name
      ∷ "');" ∷ [])

  unfoldable pub nxt_query : Job → String → String
  nxt_query j i = concat (
      "INSERT INTO jobs_link (job_name_nxt,job_name_prv) VALUES ('" ∷ i ∷ "','" ∷ j.name ∷ "');"
      ∷ [])

  unfoldable pub time_constraint_query : Job → TimeConstraint → String
  unfolding build_string_from_time_constraint_type
  time_constraint_query j tc = concat (
      "INSERT INTO time_constraint (time_c_job_name, time_c_type, time_c_value) VALUES ('"
      ∷ j.name
      ∷ "','"
      ∷ build_string_from_time_constraint_type tc.kind
      ∷ "',SEC_TO_TIME("
      ∷ p.to_string tc.value
      ∷ "));"
      ∷ [])

  -- The statements for the time constraints in a planning of that duration; a value above it throws.
  unfoldable pub time_constraint_queries : Job → ℤ → List TimeConstraint → Outcome (List String)
  time_constraint_queries j duration [] = returned []
  time_constraint_queries j duration (tc ∷ tcs) =
      if ltb_ℤ duration tc.value
      then thrown (
          ex_processing
            "the given value of the time_constraint is higher than the planning's duration (")
      else elim (time_constraint_queries j duration tcs) [
        | returned queries ↦ returned (time_constraint_query j tc ∷ queries)
        | thrown e ↦ thrown e
        | undefined ↦ undefined
        | blocked ↦ blocked
      ]

  unfoldable pub node_count_query : Job → String
  node_count_query j =
      concat ("SELECT COUNT(*) FROM node WHERE node_name = '" ∷ j.node_name ∷ "';" ∷ [])

  -- The first half of `add_job`, with the mutex held: the node of the job must be known.
  unfoldable pub check_node : Job → M Domain (Unit {0})
  check_node j = do
    found ← on_database (query_one_row p (node_count_query j) (some j.domain))
    row ← or_throw found (ex_processing "Cannot query the node table")
    field ← column_at row 0
    count ← or_throw (p.cast int field) std_exception
    throw_if (eqb_ℤ count (pos 0))
        (ex_node (concat ("The node " ∷ j.node_name ∷ " does not exist" ∷ [])))

  -- All the statements of `add_job`, those of the time constraints given.
  unfoldable pub add_job_queries : Job → List String → List String
  add_job_queries j tcs =
      job_query j ∷ (map (prv_query j) j.prv ++ (map (nxt_query j) j.nxt ++ tcs))

  -- The second half of `add_job`: its statements in one transaction, if none of them has thrown.
  unfoldable pub insert_job : String → Job → Outcome (List String) → M Domain Bool
  insert_job domain_name j tcs =
      lift tcs >>= λ queries. execute_and_unlock p (add_job_queries j queries) (some domain_name)

  -- `add_job`: three ways to throw stand between its `lock` and its `unlock`.
  unfoldable pub add_job : String → Job → M Domain Bool
  add_job domain_name j = do
    lock
    check_node j
    duration ← gets (λ d. d.planning_duration)
    insert_job domain_name j (time_constraint_queries j duration j.time_constraints)

  -- `add_node(const char*, const rpc::t_node&)`: the node, its resources, its jobs.
  unfoldable pub add_node : String → Node → M Domain Bool
  unfolding add_weighted_node add_resource add_job
  add_node domain_name n = do
    added ← add_weighted_node domain_name n.name n.weight
    if not added then pure false else do
      with_resources ← all_of n.resources (λ r. add_resource domain_name r n.name)
      if not with_resources then pure false else all_of n.jobs (λ j. add_job domain_name j)
