-- ===== src/Domain/Reads.antt =====
-- src/domain.cpp: the operations that read jobs, nodes and plannings.
use open_workload_scheduler.Base.{
  String, Bool, Option, some, none, List, [], ◌∷◌, ◌++◌, concat, ◌&&◌, not, ◌==◌, if◌then◌else◌,
}
use open_workload_scheduler.Base.Int.{ℤ, pos, ltb_ℤ, to_int16}
use open_workload_scheduler.Effect.{
  M, ex_job, ex_processing, std_exception, ◌>>=◌, ◌>>◌, pure, lift, throw, or_throw, gets, column,
  column_at, for_each,
}
use open_workload_scheduler.Platform.{Platform, int, int16, int64}
use open_workload_scheduler.Model.{RecoveryType, Job, Node, new_recovery_type, new_job, new_node}
use open_workload_scheduler.Convertions.{build_job_state_from_string}
use open_workload_scheduler.Database.{Row, is_nonempty, query_one_row, query_full_result}
use open_workload_scheduler.Domain.State.{Domain, on_database}
use open_workload_scheduler.Domain.Rows.{
  cast_or_zero, get_jobs_next, get_recovery_type, get_resources, get_time_constraints, is_present,
  restrict, rows_or_throw,
}

module _ (p : Platform) where
  -- A time of a job row: 0 where the column is NULL.
  unfoldable pub time_of : String → M Domain ℤ
  time_of text =
      if is_present text then or_throw (p.cast int64 text) std_exception else pure (pos 0)

  unfoldable pub recovery_of : String → String → M Domain RecoveryType
  unfolding get_recovery_type
  recovery_of domain_name text =
      if is_present text
      then or_throw (p.cast int text) std_exception >>= get_recovery_type p domain_name
      else pure new_recovery_type

  -- The body of the loop of `get_jobs`.
  unfoldable pub job_of : String → Row → M Domain Job
  unfolding build_job_state_from_string time_of get_jobs_next get_time_constraints recovery_of
  job_of domain_name row = do
    owner ← gets (λ d. d.name)
    name ← column row 0
    node_name ← column row 2
    cmd_line ← column row 1
    weight_text ← column row 3
    weight ← or_throw (p.cast int weight_text) (ex_processing "cannot cast value ")
    state_text ← column row 4
    state ← lift (build_job_state_from_string state_text)
    start_text ← column row 6
    start_time ← time_of start_text
    stop_text ← column row 7
    stop_time ← time_of stop_text
    nxt ← get_jobs_next p domain_name name
    time_constraints ← get_time_constraints p domain_name name
    recovery_text ← column row 5
    recovery_type ← recovery_of domain_name recovery_text
    pure (record new_job {
      start_time = start_time;
      stop_time = stop_time;
      state = state;
      name = name;
      node_name = node_name;
      domain = owner;
      cmd_line = cmd_line;
      weight = to_int16 weight;
      nxt = nxt;
      time_constraints = time_constraints;
      recovery_type = recovery_type;
    })

  unfoldable pub get_jobs : String → Option String → M Domain (List Job)
  unfolding job_of
  get_jobs domain_name running_node = do
    rows ←
        rows_or_throw p
          (restrict running_node
            "SELECT job_name,job_cmd_line,job_node_name,job_weight,job_state,job_rectype_id, unix_timestamp(job_start_time), unix_timestamp(job_stop_time) FROM job"
            " WHERE job_node_name = '")
          domain_name
    for_each rows (job_of domain_name)

  unfoldable pub get_job : String → Option String → String → M Domain Job
  unfolding build_job_state_from_string get_jobs_next get_time_constraints
  get_job domain_name running_node job_name = do
    found ← on_database (
        query_one_row p
          (restrict running_node
            (concat (
              "SELECT job_name,job_cmd_line,job_node_name,job_weight,job_state,job_rectype_id FROM job"
              ∷ " WHERE job_name = '" ∷ job_name ∷ "'" ∷ []))
            " AND job_node_name = '")
          (some domain_name))
    row ← or_throw found (ex_job "The query failed")
    owner ← gets (λ d. d.name)
    name ← column row 0
    node_name ← column row 2
    cmd_line ← column row 1
    weight_text ← column row 3
    weight ← or_throw (p.cast int weight_text) std_exception
    state_text ← column row 4
    state ← lift (build_job_state_from_string state_text)
    nxt ← get_jobs_next p domain_name name
    time_constraints ← get_time_constraints p domain_name name
    pure (record new_job {
      state = state;
      name = name;
      node_name = node_name;
      domain = owner;
      cmd_line = cmd_line;
      weight = to_int16 weight;
      nxt = nxt;
      time_constraints = time_constraints;
    })

  -- `get_node` into the node `given`, which stays as it is if no row is found.
  unfoldable pub get_node : String → Node → String → M Domain Node
  unfolding get_resources get_jobs
  get_node domain_name given node_name = do
    found ← on_database (
        query_one_row p
          (concat
            ("SELECT node_name,node_weight FROM node WHERE node_name = '" ∷ node_name ∷ "';" ∷ []))
          (some domain_name))
    row ← or_throw found (ex_job "The query failed")
    if not (is_nonempty row) then pure given else do
      name ← column row 0
      weight_text ← column row 1
      weight ← or_throw (p.cast int16 weight_text) std_exception
      owner ← gets (λ d. d.name)
      resources ← get_resources p domain_name
      jobs ← get_jobs domain_name (some name)
      pure (record {
        name = name;
        weight = weight;
        domain_name = owner;
        resources = given.resources ++ resources;
        jobs = given.jobs ++ jobs;
      })

  -- The body of the loop of `get_nodes`; a weight that cannot be cast is only logged.
  unfoldable pub node_of : String → Row → M Domain Node
  unfolding get_node
  node_of domain_name row = do
    name ← column row 0
    weight_text ← column row 1
    get_node domain_name
        (record new_node { name = name; weight = cast_or_zero (p.cast int16 weight_text) }) name

  unfoldable pub get_nodes : String → M Domain (List Node)
  unfolding node_of
  get_nodes domain_name = do
    rows ← rows_or_throw p "SELECT node_name,node_weight FROM node;" domain_name
    for_each rows (node_of domain_name)

  -- The result of `query_one_row` is not tested: a refused statement leaves the row empty.
  abbrev row_or_empty : String → Option String → M Domain Row
  row_or_empty text domain_name = do
    found ← on_database (query_one_row p text domain_name)
    pure (elim found [ none ↦ [] | some row ↦ row ])

  abbrev rows_or_empty : String → Option String → M Domain (List Row)
  rows_or_empty text domain_name = do
    found ← on_database (query_full_result p text domain_name)
    pure (elim found [ none ↦ [] | some rows ↦ rows ])

  -- `sql_exec(const std::string&, const std::string&)` and `sql_exec(const std::string&)`
  unfoldable pub sql_exec_on : String → String → M Domain (Unit {0})
  sql_exec_on running_node s = rows_or_empty s (some running_node) >> pure tt

  unfoldable pub sql_exec : String → M Domain (Unit {0})
  sql_exec s = rows_or_empty s none >> pure tt

  unfoldable pub count_jobs : String → String → M Domain ℤ
  count_jobs text domain_name = do
    row ← row_or_empty text (some domain_name)
    field ← column_at row 0
    or_throw (p.cast int16 field) std_exception

  unfoldable pub monitor_failed_jobs : String → M Domain ℤ
  unfolding count_jobs
  monitor_failed_jobs = count_jobs "SELECT COUNT(*) FROM job WHERE job_state = 'failed';"

  unfoldable pub monitor_waiting_jobs : String → M Domain ℤ
  unfolding count_jobs
  monitor_waiting_jobs = count_jobs "SELECT COUNT(*) FROM job WHERE job_state = 'waiting';"

  -- The loop of `get_available_planning_names` over the lines.
  unfoldable pub planning_names : List Row → M Domain (List String)
  planning_names [] = pure []
  planning_names (line ∷ lines) = do
    name ← column_at line 0
    names ← planning_names lines
    pure (
        if p.regex_match "^\\w+(_\\d+){0,1}$" name && not (name == "information_schema")
        then name ∷ names
        else names)

  unfoldable pub get_available_planning_names : M Domain (List String)
  unfolding planning_names
  get_available_planning_names = do
    lines ← rows_or_empty "SHOW DATABASES" none
    planning_names lines

  -- `contains_data`; `none` is the null pointer.
  unfoldable pub contains_data : Option String → M Domain Bool
  contains_data none = throw (ex_processing "the given node_name is NULL")
  contains_data (some node_name) = do
    owner ← gets (λ d. d.name)
    row ←
        row_or_empty
          (concat ("SELECT COUNT(*) FROM job WHERE job_name_name LIKE '" ∷ node_name ∷ "';" ∷ []))
          (some owner)
    field ← column row 0
    count ← or_throw (p.cast int field) std_exception
    pure (ltb_ℤ (pos 0) count)
