-- ===== src/JobRun.antt =====
-- src/job.cpp, class `Job`: the object made from a `t_job`, and the run of its command line.
pub mod Journal
use open_workload_scheduler.Base.{
  String, Bool, true, false, Option, none, some, List, [], ◌∷◌, empty, not, if◌then◌else◌,
}
use open_workload_scheduler.Base.Int.{ℤ, pos, eqb_ℤ, to_int16}
use open_workload_scheduler.Effect.{
  M, Exception, ex_job, ◌>>=◌, ◌>>◌, pure, throw, throw_if, try_catch, modify,
}
use open_workload_scheduler.Platform.{Platform}
use open_workload_scheduler.Model.{JobState, waiting, running, succeded, failed, Job}
use open_workload_scheduler.Domain.State.{Domain}
use open_workload_scheduler.Domain.Updates.{update_state_of_object, update_timed_state_of_object}

-- The constructor `Job::Job`; `with_domain` says whether its domain is not null.
unfoldable pub new_job_object : Bool → Job → M Domain Job
new_job_object with_domain j = do
  throw_if (not with_domain) (ex_job "Empty domain")
  throw_if (empty j.name) (ex_job "Empty name")
  throw_if (empty j.node_name) (ex_job "Empty node_name")
  throw_if (empty j.cmd_line) (ex_job "Empty command line")
  throw_if (empty j.domain) (ex_job "Empty domain name")
  pure j

abbrev pub is_running : JobState → Bool
is_running running = true
is_running _ = false

-- What the shell makes of a command line: the times before and after, and the status that `pclose`
-- gives, or `none` where `popen` fails.
pub record Execution : Type 0 where
  pub started_at : ℤ
  pub stopped_at : ℤ
  pub status : Option ℤ

-- `return_code` is a 16-bit field.
abbrev pub return_code_of : Execution → ℤ
return_code_of x = elim x.status [ none ↦ pos 1 | some status ↦ to_int16 status ]

-- `catch (const std::exception e) { ... return false; }`: every exception here is one.
abbrev pub caught : Exception → M Domain Bool
caught e = pure false

module _ (p : Platform) where
  -- `Job::update_state(js)` and its timed version.
  unfoldable pub update_state : Job → JobState → M Domain Bool
  unfolding update_state_of_object
  update_state j js = update_state_of_object p j.domain (some j) js

  unfoldable pub update_timed_state : Job → JobState → Execution → M Domain Bool
  unfolding update_timed_state_of_object
  update_timed_state j js x =
      update_timed_state_of_object p j.domain (some j) js x.started_at x.stopped_at

  -- The last part of `run`: `true` for a return code of 0 whose state was written.
  unfoldable pub record_result : Job → Execution → M Domain Bool
  unfolding update_timed_state
  record_result j x =
      if eqb_ℤ (return_code_of x) (pos 0)
      then update_timed_state j succeded x
      else update_timed_state j failed x >> pure false

  -- `Job::run`, where `meanwhile` is what the other threads make of the domain while the command runs,
  -- as the job then holds no mutex. The first update stands outside of any `try`.
  unfoldable pub run : Job → Execution → (Domain → Domain) → M Domain Bool
  unfolding update_state record_result
  run j x meanwhile = if is_running j.state then pure false else do
    marked ← update_state j running
    if marked then modify meanwhile >> try_catch (record_result j x) caught else pure false
