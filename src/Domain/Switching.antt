-- ===== src/Domain/Switching.antt =====
-- src/domain.cpp: what setting the next planning and switching to it change.
use open_workload_scheduler.Base.{String, Bool, true, Option, some, none, ◌≡◌, refl, arith}
use open_workload_scheduler.Base.Int.{ℤ}
use open_workload_scheduler.Effect.{Outcome, Exception, ex_processing, returned, modify}
use open_workload_scheduler.Effect.Keeps.{Keeps, Keeps-through}
use open_workload_scheduler.Platform.{Platform}
use open_workload_scheduler.Config.{Config}
use open_workload_scheduler.Database.{Row}
use open_workload_scheduler.Domain.State.{Domain, get_next_planning_start_time}
use open_workload_scheduler.Domain.Reads.{get_nodes}
use open_workload_scheduler.Domain.Planning.{
  give_up, create_schema, prepare_schema, copy_nodes, fill_planning, set_next_planning,
  switch_planning,
}
use open_workload_scheduler.Domain.Frame.{
  plan, attributes, updating, get_nodes-Keeps, add_node-Keeps,
}

pub give_up-Keeps : {A : Type 0} (a : A) (e : Exception) → Keeps plan (give_up a e)
give_up-Keeps a (ex_processing msg) = record { at = λ d. refl }
give_up-Keeps a e = record { at = λ d. refl }

skip-Keeps : Keeps plan (modify (λ d. d))
skip-Keeps = record { at = λ d. refl }

-- What a switch to the planning that starts at `next` makes of a plan, by how it ends.
abbrev pub switched : Outcome Bool → ℤ → Domain → Domain
switched (returned true) next d = record d { planning_start_time = next }
switched _ next d = d

module _ (p : Platform) where
  get_nodes-Keeps_plan : (s : String) → Keeps plan (get_nodes p s)
  get_nodes-Keeps_plan s = Keeps-through attributes plan (get_nodes p s) (get_nodes-Keeps p s)

  copy_nodes-Keeps : (s : String) → Keeps plan (copy_nodes p s)
  unfolding copy_nodes
  copy_nodes-Keeps s = search (updating, get_nodes-Keeps_plan, add_node-Keeps) depth 30 fits 2000

  create_schema-Keeps :
      (c : Config) (s : String) (found : Option Row) → Keeps plan (create_schema p c s found)
  unfolding create_schema
  create_schema-Keeps c s none = search updating
  create_schema-Keeps c s (some row) = search updating depth 30 fits 2000

  pub prepare_schema-Keeps : (c : Config) (s : String) → Keeps plan (prepare_schema p c s)
  unfolding prepare_schema
  prepare_schema-Keeps c s = search (updating, create_schema-Keeps) depth 30

  pub fill_planning-Keeps :
      (s : String) (answer : Option Bool) → Keeps plan (fill_planning p s answer)
  unfolding fill_planning
  fill_planning-Keeps s (some b) = search updating
  fill_planning-Keeps s none = copy_nodes-Keeps s

  pub set_next_planning-Keeps :
      (c : Config) (now : ℤ) → Keeps plan (set_next_planning p (λ time d. d) c now)
  unfolding set_next_planning
  set_next_planning-Keeps c now =
      search (updating, skip-Keeps, prepare_schema-Keeps, fill_planning-Keeps, give_up-Keeps) depth
        30 fits 2000

  -- However switch_planning ends, the attributes of the domain other than its mutex and its calls
  -- are what they were, but for the start time of the planning, which is the next one if and only
  -- if the call returned true.
  pub switch_planning_lem :
      (c : Config) (now : ℤ) (d : Domain)
      → let (r, d') = switch_planning p c now d in
        plan d' ≡ switched r (get_next_planning_start_time d now) (plan d)
  unfolding switch_planning
  switch_planning_lem c now d = ground (arith, (set_next_planning-Keeps c now).at d)
