-- ===== src/Convertions/RoundTrip.antt =====
-- src/convertions.cpp: reading and writing the texts of an enum are inverse to one another.
use open_workload_scheduler.Base.{String, ◌≡◌, refl, ◌↔◌, arith, eq_iff}
use open_workload_scheduler.Effect.{returned}
use open_workload_scheduler.Model.{
  JobState, RectypeAction, TimeConstraintType, waiting, running, succeded, failed, restart,
  stop_schedule, at, before, after,
}
use open_workload_scheduler.Convertions.{
  build_job_state_from_string, build_string_from_job_state, build_rectype_action_from_string,
  build_string_from_rectype_action, build_time_constraint_type_from_string,
  build_string_from_time_constraint_type,
}

job_state_of_text :
    (text : String) (js : JobState)
    → build_job_state_from_string text ≡ returned js
    → text ≡ build_string_from_job_state js
unfolding build_job_state_from_string build_string_from_job_state
job_state_of_text text js h = ground (
  arith,
  eq_iff text "waiting",
  eq_iff text "running",
  eq_iff text "succeded",
  eq_iff text "failed",
)

pub text_of_job_state :
    (js : JobState) → build_job_state_from_string (build_string_from_job_state js) ≡ returned js
unfolding build_job_state_from_string build_string_from_job_state
text_of_job_state waiting = refl
text_of_job_state running = refl
text_of_job_state succeded = refl
text_of_job_state failed = refl

-- A text is read as a job state if and only if it is the text that is written for that state.
pub job_state_round_trip :
    (text : String) (js : JobState)
    → (build_job_state_from_string text ≡ returned js) ↔ (text ≡ build_string_from_job_state js)
job_state_round_trip text js = (job_state_of_text text js, λ e. rw e (text_of_job_state js))

rectype_action_of_text :
    (text : String) (action : RectypeAction)
    → build_rectype_action_from_string text ≡ returned action
    → text ≡ build_string_from_rectype_action action
unfolding build_rectype_action_from_string build_string_from_rectype_action
rectype_action_of_text text action h =
    ground (arith, eq_iff text "restart", eq_iff text "stop_schedule")

text_of_rectype_action :
    (action : RectypeAction)
    → build_rectype_action_from_string (build_string_from_rectype_action action) ≡ returned action
unfolding build_rectype_action_from_string build_string_from_rectype_action
text_of_rectype_action restart = refl
text_of_rectype_action stop_schedule = refl

-- A text is read as a recovery action if and only if it is the text that is written for that
-- action.
pub rectype_action_round_trip :
    (text : String) (action : RectypeAction)
    → (build_rectype_action_from_string text ≡ returned action)
      ↔ (text ≡ build_string_from_rectype_action action)
rectype_action_round_trip text action =
    (rectype_action_of_text text action, λ e. rw e (text_of_rectype_action action))

time_constraint_type_of_text :
    (text : String) (kind : TimeConstraintType)
    → build_time_constraint_type_from_string text ≡ returned kind
    → text ≡ build_string_from_time_constraint_type kind
unfolding build_time_constraint_type_from_string build_string_from_time_constraint_type
time_constraint_type_of_text text kind h =
    ground (arith, eq_iff text "at", eq_iff text "before", eq_iff text "after")

text_of_time_constraint_type :
    (kind : TimeConstraintType)
    → build_time_constraint_type_from_string (build_string_from_time_constraint_type kind)
      ≡ returned kind
unfolding build_time_constraint_type_from_string build_string_from_time_constraint_type
text_of_time_constraint_type at = refl
text_of_time_constraint_type before = refl
text_of_time_constraint_type after = refl

-- A text is read as a kind of time constraint if and only if it is the text that is written for
-- that kind.
pub time_constraint_type_round_trip :
    (text : String) (kind : TimeConstraintType)
    → (build_time_constraint_type_from_string text ≡ returned kind)
      ↔ (text ≡ build_string_from_time_constraint_type kind)
time_constraint_type_round_trip text kind =
    (time_constraint_type_of_text text kind, λ e. rw e (text_of_time_constraint_type kind))
