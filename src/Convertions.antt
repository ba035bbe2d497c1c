-- ===== src/Convertions.antt =====
-- src/convertions.cpp: the texts that stand for the enums in the database.
pub mod RoundTrip
pub mod Times
pub mod Duration
use open_workload_scheduler.Base.{String, if◌then◌else◌, ◌==◌}
use open_workload_scheduler.Effect.{Exception, ex_processing, Outcome, returned, thrown}
use open_workload_scheduler.Model.{
  JobState, RectypeAction, TimeConstraintType, waiting, running, succeded, failed, restart,
  stop_schedule, at, before, after,
}

unfoldable pub build_job_state_from_string : String → Outcome JobState
build_job_state_from_string state =
    if state == "waiting"
    then returned waiting
    else if state == "running"
    then returned running
    else if state == "succeded"
    then returned succeded
    else if state == "failed"
    then returned failed
    else thrown (ex_processing "ex_processing: string state is not related to a job's state")

unfoldable pub build_string_from_job_state : JobState → String
build_string_from_job_state waiting = "waiting"
build_string_from_job_state running = "running"
build_string_from_job_state succeded = "succeded"
build_string_from_job_state failed = "failed"

unfoldable pub build_rectype_action_from_string : String → Outcome RectypeAction
build_rectype_action_from_string rt_action =
    if rt_action == "restart"
    then returned restart
    else if rt_action == "stop_schedule"
    then returned stop_schedule
    else thrown (ex_processing "ex_pocessing: string action is not related to a rectype action")

-- The `default` case of the source is for values outside the enum.
unfoldable pub build_string_from_rectype_action : RectypeAction → String
build_string_from_rectype_action restart = "restart"
build_string_from_rectype_action stop_schedule = "stop_schedule"

unfoldable pub build_time_constraint_type_from_string : String → Outcome TimeConstraintType
build_time_constraint_type_from_string kind =
    if kind == "at"
    then returned at
    else if kind == "before"
    then returned before
    else if kind == "after"
    then returned after
    else thrown (ex_processing "ex_processing: the given type is not valid")

unfoldable pub build_string_from_time_constraint_type : TimeConstraintType → String
build_string_from_time_constraint_type at = "at"
build_string_from_time_constraint_type before = "before"
build_string_from_time_constraint_type after = "after"
