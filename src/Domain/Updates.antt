-- ===== src/Domain/Updates.antt =====
-- src/domain.cpp: the operations that change and remove jobs, each one transaction under
-- `updates_mutex`.
use open_workload_scheduler.Base.{
  String, Bool, false, Option, none, some, List, [], ◌∷◌, ◌++◌, map, concat, empty, ◌||◌,
  if◌then◌else◌,
}
use open_workload_scheduler.Base.Int.{ℤ}
use open_workload_scheduler.Effect.{M, ◌>>=◌, deref, pure}
use open_workload_scheduler.Platform.{Platform}
use open_workload_scheduler.Model.{JobState, TimeConstraint, Job}
use open_workload_scheduler.Convertions.{
  build_string_from_job_state, build_string_from_time_constraint_type,
}
use open_workload_scheduler.Domain.State.{Domain, locked_execute}

module _ (p : Platform) where
  -- The statements of `update_job`.
  unfoldable pub replace_job_query : Job → String
  replace_job_query j = concat (
      "REPLACE INTO job (job_name,job_cmd_line,job_node_name,job_weight) VALUES ('"
      ∷ j.name
      ∷ "','"
      ∷ j.cmd_line
      ∷ "','"
      ∷ j.node_name
      ∷ "','"
      ∷ p.to_string j.weight
      ∷ "');"
      ∷ [])

  unfoldable pub replace_prv_query : Job → String → String
  replace_prv_query j i = concat (
      "REPLACE INTO" ∷ "jobs_link (job_name_prv,job_name_nxt) VALUES ('" ∷ i ∷ "','" ∷ j.name
      ∷ "');" ∷ [])

  unfoldable pub replace_nxt_query : Job → String → String
  replace_nxt_query j i = concat (
      "REPLACE INTO jobs_link (job_name_nxt,job_name_prv) VALUES ('" ∷ i ∷ "','" ∷ j.name ∷ "');"
      ∷ [])

  unfoldable pub replace_time_constraint_query : Job → TimeConstraint → String
  unfolding build_string_from_time_constraint_type
  replace_time_constraint_query j tc = concat (
      "REPLACE INTO time_constraint (time_c_job_name, time_c_type, time_c_value) VALUES ('"
      ∷ j.name
      ∷ "','"
      ∷ build_string_from_time_constraint_type tc.kind
      ∷ "','"
      ∷ p.to_string tc.value
      ∷ "');"
      ∷ [])

  -- The statement that `update_job` pushes a second time at its end.
  unfoldable pub last_query : String → List String → String
  last_query text [] = text
  last_query text (q ∷ queries) = last_query q queries

  unfoldable pub update_job_queries : Job → List String
  unfolding replace_job_query replace_prv_query replace_nxt_query replace_time_constraint_query
      last_query
  update_job_queries j =
      let links_to = concat ("DELETE FROM jobs_link WHERE job_name_nxt ='" ∷ j.name ∷ "');" ∷ []) in
      let links_from =
        concat ("DELETE FROM jobs_link WHERE job_name_prv ='" ∷ j.name ∷ "');" ∷ []) in
      let no_constraint =
        concat ("DELETE FROM time_constraint WHERE time_c_job_name = '" ∷ j.name ∷ "');" ∷ []) in
      let constraints = map (replace_time_constraint_query j) j.time_constraints in
      replace_job_query j
      ∷ links_to
      ∷ (map (replace_prv_query j) j.prv
          ++ (links_from
              ∷ (map (replace_nxt_query j) j.nxt
                  ++ (no_constraint ∷ (constraints ++ last_query no_constraint constraints ∷ [])))))

  -- `update_job`: the transaction runs in the schema named after the job's node.
  unfoldable pub update_job : Job → M Domain Bool
  update_job j = locked_execute p (update_job_queries j) (some j.node_name)

  unfoldable pub remove_job_queries : String → List String
  remove_job_queries j_name =
      concat ("DELETE FROM job WHERE job_name = '" ∷ j_name ∷ "';" ∷ [])
      ∷ concat (
          "DELETE FROM jobs_link WHERE job_name_nxt = '" ∷ j_name ∷ "' OR job_name_prv = '" ∷ j_name
          ∷ "';" ∷ [])
      ∷ concat ("DELETE FROM time_constraint WHERE time_c_job_name = '" ∷ j_name ∷ "';" ∷ [])
      ∷ []

  -- `remove_job(const char*, const std::string&)`
  unfoldable pub remove_job_by_name : String → String → M Domain Bool
  remove_job_by_name domain_name j_name =
      locked_execute p (remove_job_queries j_name) (some domain_name)

  -- `remove_job(const rpc::t_job&)`
  unfoldable pub remove_job : Job → M Domain Bool
  unfolding remove_job_by_name
  remove_job j = remove_job_by_name j.domain j.name

  unfoldable pub job_state_query : String → JobState → String
  unfolding build_string_from_job_state
  job_state_query j_name js = concat (
      "UPDATE job SET job_state = '"
      ∷ build_string_from_job_state js
      ∷ "' WHERE job_name = '"
      ∷ j_name
      ∷ "';"
      ∷ [])

  -- `update_job_state(const char*, const std::string&, const std::string&, const type&)`. The blank
  -- test reads `query`, which is still empty.
  unfoldable pub update_job_state : String → String → String → JobState → M Domain Bool
  update_job_state domain_name running_node j_name js =
      if empty running_node || p.regex_match "^\\s+$" ""
      then pure false
      else locked_execute p (job_state_query j_name js ∷ []) (some domain_name)

  unfoldable pub timed_job_state_query : String → JobState → ℤ → ℤ → String
  unfolding build_string_from_job_state
  timed_job_state_query j_name js start_time stop_time = concat (
      "UPDATE job SET job_state = '"
      ∷ build_string_from_job_state js
      ∷ "', job_start_time = FROM_UNIXTIME("
      ∷ p.to_string start_time
      ∷ "), job_stop_time = FROM_UNIXTIME("
      ∷ p.to_string stop_time
      ∷ ") WHERE job_name = '"
      ∷ j_name
      ∷ "';"
      ∷ [])

  -- `update_job_state` with the times at which the job started and stopped.
  unfoldable pub update_timed_job_state :
      String → String → String → JobState → ℤ → ℤ → M Domain Bool
  update_timed_job_state domain_name running_node j_name js start_time stop_time =
      if empty running_node || p.regex_match "^\\s+$" ""
      then pure false
      else locked_execute p (timed_job_state_query j_name js start_time stop_time ∷ [])
          (some domain_name)

  -- `update_job_state(const char*, const rpc::t_job&)`
  unfoldable pub update_state_of : String → Job → M Domain Bool
  unfolding update_job_state
  update_state_of domain_name j = update_job_state domain_name j.node_name j.name j.state

  -- `update_job_state(const char*, const Job*, type)`; `none` is the null pointer.
  unfoldable pub update_state_of_object : String → Option Job → JobState → M Domain Bool
  unfolding update_job_state
  update_state_of_object domain_name none js = pure false
  update_state_of_object domain_name (some j) js =
      update_job_state domain_name j.node_name j.name js

  -- The same with the times, which does not test the pointer.
  unfoldable pub update_timed_state_of_object :
      String → Option Job → JobState → ℤ → ℤ → M Domain Bool
  unfolding update_timed_job_state
  update_timed_state_of_object domain_name o js start_time stop_time = do
    j ← deref o
    update_timed_job_state domain_name j.node_name j.name js start_time stop_time
