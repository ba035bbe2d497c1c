-- ===== src/Domain/Frame.antt =====
-- src/domain.cpp: what the reads and the updates of the domain leave alone.
use open_workload_scheduler.Base.{String, false, Option, List, [], refl, arith}
use open_workload_scheduler.Base.Int.{ℤ}
use open_workload_scheduler.Effect.{M, Outcome}
use open_workload_scheduler.Effect.Keeps.{Keeps, keeps_rules, Keeps-through}
use open_workload_scheduler.Platform.{Platform, Call}
use open_workload_scheduler.Model.{Job, Node, Resource}
use open_workload_scheduler.Database.{Row}
use open_workload_scheduler.Domain.State.{
  Domain, on_database, lock, unlock, execute_and_unlock, locked_execute,
}
use open_workload_scheduler.Domain.Rows.{
  get_jobs_next, get_recovery_type, get_time_constraints, time_constraint_of, resource_value,
  resource_of, get_resources,
}
use open_workload_scheduler.Domain.Reads.{
  time_of, recovery_of, job_of, get_jobs, get_job, get_node, node_of, get_nodes,
}
use open_workload_scheduler.Domain.Insertions.{
  check_node, insert_job, add_job, add_weighted_node, add_resource, add_node,
}

-- A domain but for the calls to its database: what a read leaves alone.
abbrev pub attributes : Domain → Domain
attributes d = record d { calls = [] }

-- A domain but for its mutex too: what an update leaves alone.
abbrev pub plan : Domain → Domain
plan d = record d { is_locked = false; calls = [] }

pub on_database-Keeps : {A : Type 0} (m : M (List Call) A) → Keeps attributes (on_database m)
on_database-Keeps m = record { at = λ d. refl }

pub on_database-Keeps_plan : {A : Type 0} (m : M (List Call) A) → Keeps plan (on_database m)
on_database-Keeps_plan m = record { at = λ d. refl }

pub lock-Keeps : Keeps plan lock
unfolding lock
lock-Keeps = record { at = λ d. ground arith }

pub unlock-Keeps : Keeps plan unlock
unfolding unlock
unlock-Keeps = record { at = λ d. refl }

pub ruleset reading = (keeps_rules, on_database-Keeps)

pub ruleset updating = (keeps_rules, on_database-Keeps_plan, lock-Keeps, unlock-Keeps)

module _ (p : Platform) where
  get_jobs_next-Keeps : (s j : String) → Keeps attributes (get_jobs_next p s j)
  unfolding get_jobs_next
  get_jobs_next-Keeps s j = search reading depth 30 fits 2000

  get_time_constraints-Keeps : (s j : String) → Keeps attributes (get_time_constraints p s j)
  unfolding get_time_constraints time_constraint_of
  get_time_constraints-Keeps s j = search reading depth 30 fits 2000

  get_recovery_type-Keeps : (s : String) (n : ℤ) → Keeps attributes (get_recovery_type p s n)
  unfolding get_recovery_type
  get_recovery_type-Keeps s n = search reading depth 30 fits 2000

  resource_value-Keeps : (s : String) → Keeps attributes (resource_value p s)
  unfolding resource_value
  resource_value-Keeps s = search reading depth 30 fits 2000

  get_resources-Keeps : (s : String) → Keeps attributes (get_resources p s)
  unfolding get_resources resource_of
  get_resources-Keeps s = search (reading, resource_value-Keeps) depth 30 fits 2000

  time_of-Keeps : (s : String) → Keeps attributes (time_of p s)
  unfolding time_of
  time_of-Keeps s = search reading depth 30 fits 2000

  recovery_of-Keeps : (s text : String) → Keeps attributes (recovery_of p s text)
  unfolding recovery_of
  recovery_of-Keeps s text = search (reading, get_recovery_type-Keeps) depth 30 fits 2000

  job_of-Keeps : (s : String) (row : Row) → Keeps attributes (job_of p s row)
  unfolding job_of
  job_of-Keeps s row =
      search
        (reading, get_jobs_next-Keeps, get_time_constraints-Keeps, time_of-Keeps, recovery_of-Keeps)
        depth 30 fits 2000

  pub get_jobs-Keeps : (s : String) (n : Option String) → Keeps attributes (get_jobs p s n)
  unfolding get_jobs
  get_jobs-Keeps s n = search (reading, job_of-Keeps) depth 30 fits 2000

  pub get_job-Keeps :
      (s : String) (n : Option String) (j : String) → Keeps attributes (get_job p s n j)
  unfolding get_job
  get_job-Keeps s n j =
      search (reading, get_jobs_next-Keeps, get_time_constraints-Keeps) depth 30 fits 2000

  pub get_node-Keeps :
      (s : String) (given : Node) (n : String) → Keeps attributes (get_node p s given n)
  unfolding get_node
  get_node-Keeps s given n =
      search (reading, get_resources-Keeps, get_jobs-Keeps) depth 30 fits 2000

  pub get_nodes-Keeps : (s : String) → Keeps attributes (get_nodes p s)
  unfolding get_nodes node_of
  get_nodes-Keeps s = search (reading, get_node-Keeps) depth 30 fits 2000

  execute_and_unlock-Keeps :
      (queries : List String) (n : Option String) → Keeps plan (execute_and_unlock p queries n)
  unfolding execute_and_unlock
  execute_and_unlock-Keeps queries n = search updating depth 30 fits 2000

  pub locked_execute-Keeps :
      (queries : List String) (n : Option String) → Keeps plan (locked_execute p queries n)
  unfolding locked_execute
  locked_execute-Keeps queries n = search (updating, execute_and_unlock-Keeps) depth 30 fits 2000

  check_node-Keeps : (j : Job) → Keeps plan (check_node p j)
  unfolding check_node
  check_node-Keeps j = search updating depth 30 fits 2000

  insert_job-Keeps :
      (s : String) (j : Job) (tcs : Outcome (List String)) → Keeps plan (insert_job p s j tcs)
  unfolding insert_job
  insert_job-Keeps s j tcs = search (updating, execute_and_unlock-Keeps) depth 30 fits 2000

  pub add_job-Keeps : (s : String) (j : Job) → Keeps plan (add_job p s j)
  unfolding add_job
  add_job-Keeps s j = search (updating, check_node-Keeps, insert_job-Keeps) depth 30 fits 2000

  add_weighted_node-Keeps : (s n : String) (w : ℤ) → Keeps plan (add_weighted_node p s n w)
  unfolding add_weighted_node
  add_weighted_node-Keeps s n w = search (updating, locked_execute-Keeps) depth 30 fits 2000

  add_resource-Keeps : (s : String) (r : Resource) (n : String) → Keeps plan (add_resource p s r n)
  unfolding add_resource
  add_resource-Keeps s r n = search (updating, locked_execute-Keeps) depth 30 fits 2000

  pub add_node-Keeps : (s : String) (n : Node) → Keeps plan (add_node p s n)
  unfolding add_node
  add_node-Keeps s n =
      search (updating, add_weighted_node-Keeps, add_resource-Keeps, add_job-Keeps) depth 30 fits
        2000
