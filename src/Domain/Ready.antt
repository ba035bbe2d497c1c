-- ===== src/Domain/Ready.antt =====
-- src/domain.cpp: the two versions of `get_ready_jobs`, over the view `get_ready_job`.
use open_workload_scheduler.Base.{
  String, true, Option, some, none, List, [], ◌∷◌, ◌++◌, concat, not, if◌then◌else◌,
}
use open_workload_scheduler.Base.Int.{ℤ, ltb_ℤ, to_int16}
use open_workload_scheduler.Effect.{
  M, ex_job, ex_processing, std_exception, ◌>>=◌, ◌>>◌, pure, lift, throw, throw_if, try_catch,
  or_throw, gets, modify, column, for_each,
}
use open_workload_scheduler.Platform.{Platform, int}
use open_workload_scheduler.Model.{RecoveryType, Job, new_job}
use open_workload_scheduler.Convertions.{build_job_state_from_string}
use open_workload_scheduler.Database.{Row, is_nonempty, query_full_result}
use open_workload_scheduler.Domain.State.{Domain, on_database, get_current_planning_name}
use open_workload_scheduler.Domain.Rows.{restrict, get_recovery_type}
use open_workload_scheduler.JobRun.{new_job_object}

abbrev pub ready_text : String
ready_text =
    "SELECT job_name,job_cmd_line,job_node_name,job_weight,job_state,job_rectype_id FROM get_ready_job"

-- A domain and the vector of jobs that a loop fills.
pub record Gathering : Type 0 where
  pub domain : Domain
  pub jobs : List Job

abbrev pub on_gathering : {A : Type 0} → M Domain A → M Gathering A
on_gathering m g = let (r, d) = m g.domain in (r, record g { domain = d })

module _ (p : Platform) where
  -- The fields that both versions read from a row.
  unfoldable pub ready_job_of : Row → M Domain Job
  unfolding build_job_state_from_string get_current_planning_name
  ready_job_of row = do
    name ← column row 0
    cmd_line ← column row 1
    node_name ← column row 2
    weight_text ← column row 3
    weight ← or_throw (p.cast int weight_text) (ex_processing "cannot cast value ")
    state_text ← column row 4
    state ← lift (build_job_state_from_string state_text)
    planning ← gets (get_current_planning_name p)
    pure (record new_job {
      state = state;
      name = name;
      node_name = node_name;
      domain = planning;
      cmd_line = cmd_line;
      weight = to_int16 weight;
    })

  -- The loop of `get_ready_jobs`: what was pushed before an exception stays in the vector.
  unfoldable pub push_ready : List Row → M Gathering (Unit {0})
  unfolding ready_job_of new_job_object
  push_ready [] = pure tt
  push_ready (row ∷ rows) = do
    j ← on_gathering (ready_job_of row >>= new_job_object true)
    modify (λ g. record g { jobs = g.jobs ++ j ∷ [] })
    push_ready rows

  -- `get_ready_jobs(v_jobs&, const char*)`, which the master and the client run.
  unfoldable pub get_ready_jobs : Option String → M Gathering (Unit {0})
  unfolding push_ready get_current_planning_name
  get_ready_jobs running_node = do
    planning ← gets (λ g. get_current_planning_name p g.domain)
    found ← on_gathering (
        on_database (
          query_full_result p (restrict running_node ready_text " WHERE job_node_name = '")
            (some planning)))
    rows ← or_throw found (ex_job "The database query failed")
    push_ready rows

  -- The recovery type of a row; every exception becomes an `ex_processing`.
  unfoldable pub ready_recovery_of : Row → M Domain RecoveryType
  unfolding get_recovery_type get_current_planning_name
  ready_recovery_of row = do
    planning ← gets (get_current_planning_name p)
    text ← column row 5
    try_catch (or_throw (p.cast int text) std_exception >>= get_recovery_type p planning)
        (λ e. throw (ex_processing "cannot cast value "))

  -- The text of the remote version: the quote at the end is there for every node.
  unfoldable pub remote_ready_text : Option String → String
  remote_ready_text none = concat (ready_text ∷ "';" ∷ [])
  remote_ready_text (some node) =
      concat (ready_text ∷ " WHERE job_node_name = '" ∷ node ∷ "';" ∷ [])

  -- `get_ready_jobs(rpc::v_jobs&, const char*)` at the time `now`, which the remote calls use.
  unfoldable pub get_ready_jobs_remote : Option String → ℤ → M Domain (List Job)
  unfolding ready_job_of ready_recovery_of remote_ready_text get_current_planning_name
  get_ready_jobs_remote running_node now = do
    start ← gets (λ d. d.planning_start_time)
    if ltb_ℤ start now then pure [] else do
      planning ← gets (get_current_planning_name p)
      found ← on_database (query_full_result p (remote_ready_text running_node) (some planning))
      rows ← or_throw found (ex_job "The query failed")
      throw_if (not (is_nonempty rows)) (ex_job "The database returned an empty result")
      for_each rows λ row. do
        j ← ready_job_of row
        recovery ← ready_recovery_of row
        pure (record j { recovery_type = recovery })
