-- ===== src/Tests/Planning.antt =====
-- The theorems on src/domain.cpp, src/job.cpp, src/master.cpp and src/client.cpp, run on a small server.
use open_workload_scheduler.Domain.Rows.{get_jobs_next, get_time_constraints}
use open_workload_scheduler.Domain.Reads.{job_of, time_of, recovery_of}
use open_workload_scheduler.Domain.ReadBack.{IsReadBack, job_of-row_of}
use open_workload_scheduler.Domain.Planning.{read_duration, part_of_duration, times}
use open_workload_scheduler.Convertions.Duration.{build_unix_time-read_duration}
use open_workload_scheduler.Convertions.Times.{build_unix_time_from_hhmm_time}
use open_workload_scheduler.Base.{
  ℕ, ◌+◌, ◌-◌, ◌%◌, ◌≤◌, ◌<◌, ◌⊎◌, true, false, some, none, List, [], ◌∷◌, ◌≡◌, refl, arith, ◌==◌,
  ◌&&◌, if◌then◌else◌,
}
use open_workload_scheduler.Base.Int.{pos, leb_ℤ, to_int16, rem, ◌+ℤ◌, ◌-ℤ◌}
use open_workload_scheduler.Effect.{returned, ex_node, for_each}
use open_workload_scheduler.Platform.{no_result, Call, connect, query, close, Platform}
use open_workload_scheduler.Model.{Job, JobState, waiting, running, succeded}
use open_workload_scheduler.Model
use open_workload_scheduler.Config.{active, get_param}
use open_workload_scheduler.Convertions.{
  build_job_state_from_string, build_string_from_job_state, build_string_from_time_constraint_type,
}
use open_workload_scheduler.Database.{
  atomic_execute, execute_all, standalone_execute, commit, init, end, mysql_query, executed,
  one_row_of, full_result_of, fetch_one_row, fetch_full_result, present_fields, full_row,
  query_one_row, query_full_result,
}
use open_workload_scheduler.Database.Transactions.{sent, start_text}
use open_workload_scheduler.Domain.State.{
  Domain, lock, unlock, execute_and_unlock, locked_execute, get_current_planning_name,
  get_next_planning_start_time,
}
use open_workload_scheduler.Domain.Insertions.{
  job_query, prv_query, nxt_query, time_constraint_query, time_constraint_queries, node_count_query,
  check_node, add_job_queries, insert_job, add_job,
}
use open_workload_scheduler.Domain.Updates.{remove_job_by_name, remove_job_queries}
use open_workload_scheduler.Domain.Ready.{Gathering, get_ready_jobs, push_ready, ready_job_of}
use open_workload_scheduler.Domain.Mutex.{
  removed_job, Update, node_name, new_job, perform, perform-Leaves, Leaves,
}
use open_workload_scheduler.Domain.Deadlock.{perform_all, perform_all_after_throw}
use open_workload_scheduler.Domain.JobInsertion.{AllWithin, IsKnown, all_queries, add_job-sent}
use open_workload_scheduler.Domain.StartTime.{next_planning_start_time_bounds}
use open_workload_scheduler.JobRun.{new_job_object}
use open_workload_scheduler.Master.{tick, fetch, switch_if_near, start_jobs, local_waiting}
use open_workload_scheduler.Master.Rounds.{AllStartable, tick-AllStartable}
use open_workload_scheduler.Domain.Atomicity.{committed, perform-sent}
use open_workload_scheduler.Tests.Data.{platform, config_of, domain, job, stray_job, gathering}

abbrev behind : Domain
behind = (add_job platform "prod" job domain).1

abbrev checked : List Call
checked = (query_one_row platform (node_count_query platform job) (some "prod") []).1

add_job-sent_example :
    IsKnown platform job (query_one_row platform (node_count_query platform job) (some "prod") []).0
    × AllWithin (pos 100) job.time_constraints
    × (behind ≡ record domain {
      is_locked = false;
      calls =
          close
          ∷ query "COMMIT;"
          ∷ sent (all_queries platform job) (query start_text ∷ connect (some "prod") ∷ checked);
    })
unfolding add_job lock check_node query_one_row init mysql_query one_row_of fetch_one_row
    present_fields end node_count_query insert_job time_constraint_queries time_constraint_query
    build_string_from_time_constraint_type execute_and_unlock unlock standalone_execute
    atomic_execute executed execute_all commit add_job_queries job_query prv_query nxt_query
add_job-sent_example = add_job-sent platform "prod" job domain behind refl refl

abbrev stray : Update
stray = new_job "prod" stray_job

perform_all_after_throw_example :
    perform_all platform (node_name "prod" "n2" ∷ []) (perform platform stray domain).1
    ≡ (perform platform stray domain).1
unfolding perform add_job lock check_node query_one_row init mysql_query one_row_of fetch_one_row
    present_fields end node_count_query
perform_all_after_throw_example =
    perform_all_after_throw platform stray (node_name "prod" "n2" ∷ [])
      (ex_node "The node n2 does not exist") domain refl refl

perform-Leaves_example :
    Leaves platform (perform platform stray domain).0 (perform platform stray domain).1
perform-Leaves_example = perform-Leaves platform stray domain refl

next_planning_start_time_bounds_example :
    (next : ℕ) × (get_next_planning_start_time domain (pos 250) ≡ pos next)
    × (250 < next)
    × (next ≤ 250 + 100)
    × ((next - 10) % 100 ≡ 0)
next_planning_start_time_bounds_example =
    next_planning_start_time_bounds domain 250 10 100 refl refl (omega arith) (omega arith)

-- The job that the server has ready.
abbrev ready_job : Job
ready_job = record Model.new_job {
  state = waiting;
  name = "backup";
  node_name = "n1";
  domain = "prod_0";
  cmd_line = "cp";
  weight = pos 1;
}

abbrev after_round : Gathering
after_round = (tick platform (config_of (some active)) (pos 30) (pos 30) (pos 30) gathering).1

tick-AllStartable_example :
    AllStartable "n1" (ready_job ∷ [])
    × ((leb_ℤ after_round.domain.planning_start_time (pos 30) ≡ true) ⊎ ((ready_job ∷ []) ≡ []))
unfolding tick fetch get_ready_jobs query_full_result init mysql_query full_result_of
    fetch_full_result full_row end push_ready ready_job_of new_job_object
    build_job_state_from_string get_current_planning_name switch_if_near
    get_next_planning_start_time rem to_int16 ◌+ℤ◌ ◌-ℤ◌ start_jobs local_waiting get_param
tick-AllStartable_example =
    tick-AllStartable platform (config_of (some active)) (pos 30) (pos 30) (pos 30) gathering "n1"
      (ready_job ∷ []) refl refl

-- A server that has no ready job.
abbrev idle : Platform
idle = record platform { answers = λ calls text. no_result }

abbrev no_jobs : Gathering
no_jobs = record gathering { jobs = [] }

-- With a regular expression library that finds one hour in "1h".
abbrev clock : Platform
clock = record platform {
  regex_search = λ pattern text.
      if pattern == "^([[:digit:]]+)h" && (text == "1h") then some ("1" ∷ []) else none;
}

abbrev removal : Update
removal = removed_job "prod" "backup"

perform-sent_example : (perform platform removal domain).1 ≡ committed platform removal domain
unfolding perform remove_job_by_name remove_job_queries locked_execute lock execute_and_unlock
    unlock standalone_execute init atomic_execute mysql_query executed execute_all commit end
perform-sent_example =
    perform-sent platform removal domain (perform platform removal domain).1 refl refl

build_unix_time-read_duration_example :
    build_unix_time_from_hhmm_time clock "1h" domain ≡ (returned (pos 3600), domain)
unfolding read_duration part_of_duration times ◌+ℤ◌
build_unix_time-read_duration_example =
    build_unix_time-read_duration clock (λ text n h. h) "1h" (pos 3600) domain domain refl

abbrev light_job : Job
light_job = record job { weight = pos 0 }

abbrev read_job : Job
read_job = record Model.new_job {
  state = waiting;
  name = "backup";
  node_name = "n1";
  domain = "prod";
  cmd_line = "cp";
  weight = pos 0;
}

job_of-row_of_example : IsReadBack light_job "prod" read_job
unfolding job_of build_job_state_from_string build_string_from_job_state time_of get_jobs_next
    get_time_constraints recovery_of query_full_result init mysql_query full_result_of
    fetch_full_result full_row end to_int16 for_each
job_of-row_of_example =
    job_of-row_of platform "prod" light_job read_job "NULL" "NULL" "NULL" 0 domain refl
      (omega arith) refl refl
