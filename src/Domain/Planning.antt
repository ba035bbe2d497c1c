-- ===== src/Domain/Planning.antt =====
-- src/domain.cpp: the constructor, and how one planning follows another.
use open_workload_scheduler.Base.{
  ℕ, suc, ◌-◌, ◌*◌, ltb, String, Bool, true, false, Option, none, some, [], ◌∷◌, concat, empty,
  ◌==◌, ◌&&◌, not, if◌then◌else◌,
}
use open_workload_scheduler.Base.Int.{ℤ, pos, negsuc, eqb_ℤ, ◌+ℤ◌, to_int16, pos_part, neg_part}
use open_workload_scheduler.Effect.{
  M, Exception, ex_processing, std_exception, Outcome, returned, undefined, ◌>>=◌, ◌>>◌, pure,
  throw, throw_if, try_catch, or_throw, gets, modify, deref, column, column_at, all_of,
}
use open_workload_scheduler.Platform.{Platform, int}
use open_workload_scheduler.Model.{Planning, new_node}
use open_workload_scheduler.Config.{Config, get_param}
use open_workload_scheduler.Database.{Row, prepare, query_one_row, init_domain_structure}
use open_workload_scheduler.Domain.State.{Domain, on_database, get_next_planning_start_time}
use open_workload_scheduler.Domain.Insertions.{add_node}
use open_workload_scheduler.Domain.Reads.{get_node, get_nodes}

-- `catch ( const rpc::ex_processing& e ) { return false; }`
abbrev pub give_up : {A : Type 0} → A → Exception → M Domain A
give_up a (ex_processing msg) = pure a
give_up a e = throw e

-- `what * seconds` in `int`: past 2 ^ 31 - 1 it overflows.
unfoldable pub times : ℤ → ℕ → Outcome ℤ
times (pos n) seconds =
    if ltb (n * seconds) 2147483648 then returned (pos (n * seconds)) else undefined
times (negsuc n) seconds =
    if ltb (suc n * seconds) 2147483649 then returned (negsuc (suc n * seconds - 1)) else undefined

-- The sum of two `int`s.
unfoldable pub plus : ℤ → ℤ → Outcome ℤ
plus a b =
    let sum = a +ℤ b in
    if ltb (pos_part sum) 2147483648 && ltb (neg_part sum) 2147483649
    then returned sum
    else undefined

module _ (p : Platform) where
  -- `get_planning`: the node, in the planning's times. `t_day`'s duration is a 16-bit field.
  unfoldable pub get_planning : String → String → M Domain Planning
  unfolding get_node
  get_planning domain_name node_name = do
    node ← get_node p domain_name new_node node_name
    d ← gets (λ d. d)
    pure (record {
      begin_time = d.planning_start_time;
      duration = to_int16 d.planning_duration;
      nodes = node ∷ [];
    })

  unfoldable pub planning_name : Domain → ℤ → String
  planning_name d time = concat (d.name ∷ "_" ∷ p.to_string time ∷ [])

  -- What the `try` of `set_next_planning` does with the answer to its question for the schema: `some b`
  -- where it returns `b`, `none` where it goes on.
  unfoldable pub create_schema : Config → String → Option Row → M Domain (Option Bool)
  unfolding init_domain_structure get_param
  create_schema c next_name none = pure (some false)
  create_schema c next_name (some row) = do
    field ← column_at row 0
    if field == "1" then pure (some true) else do
      skeleton ← deref (get_param "db_skeleton" c)
      created ← on_database (init_domain_structure p next_name (p.read_lines skeleton))
      pure (if created then none else some true)

  -- The `try` of `set_next_planning`.
  unfoldable pub prepare_schema : Config → String → M Domain (Option Bool)
  unfolding query_one_row create_schema
  prepare_schema c next_name = do
    found ← on_database (
        query_one_row p
          (concat (
            "SELECT IF('" ∷ next_name
            ∷ "' IN(SELECT SCHEMA_NAME FROM INFORMATION_SCHEMA.SCHEMATA), 1, 0) AS found;" ∷ []))
          none)
    create_schema c next_name found

  -- The nodes of the template, copied one by one into the next planning.
  unfoldable pub copy_nodes : String → M Domain Bool
  unfolding get_nodes add_node
  copy_nodes next_name = do
    owner ← gets (λ d. d.name)
    nodes ← get_nodes p owner
    all_of nodes (add_node p next_name)

  -- What `set_next_planning` does behind its `try`.
  unfoldable pub fill_planning : String → Option Bool → M Domain Bool
  unfolding copy_nodes
  fill_planning next_name (some b) = pure b
  fill_planning next_name none = copy_nodes next_name

  -- `set_next_planning` at the time `now`; `assign` stores the time through the reference `_return`.
  unfoldable pub set_next_planning : (ℤ → Domain → Domain) → Config → ℤ → M Domain Bool
  unfolding get_next_planning_start_time planning_name prepare_schema fill_planning
  set_next_planning assign c now = do
    d ← gets (λ d. d)
    let start = get_next_planning_start_time d now
    modify (assign start)
    let next_name = planning_name d start
    answer ← try_catch (prepare_schema c next_name) (give_up (some false))
    fill_planning next_name answer

  -- `switch_planning`: the start time moves only if the next planning could be set.
  unfoldable pub switch_planning : Config → ℤ → M Domain Bool
  unfolding set_next_planning get_next_planning_start_time
  switch_planning c now = do
    result ← gets (λ d. get_next_planning_start_time d now)
    done ← set_next_planning (λ time d. d) c now
    if not done
        then pure false
        else modify (λ d. record d { planning_start_time = result }) >> pure true

  -- A count of hours or minutes of the duration or of the start time.
  unfoldable pub part_of_duration : String → ℕ → String → M Domain ℤ
  unfolding times
  part_of_duration pattern seconds text = elim (p.regex_search pattern text) [
    | none ↦ pure (pos 0)
    | some what ↦ column what 0 >>= λ digits.
        or_throw (p.cast int digits)
          (ex_processing "Error: cannot set planning duration. Cannot cast ")
        >>= λ n d. (times n seconds, d)
  ]

  -- `planning_duration` from the parameter `day_duration`.
  unfoldable pub read_duration : String → M Domain ℤ
  unfolding part_of_duration
  read_duration text = do
    hours ← part_of_duration "^([[:digit:]]+)h" 3600 text
    minutes ← part_of_duration "([[:digit:]]+)min$" 60 text
    throw_if (eqb_ℤ (hours +ℤ minutes) (pos 0)) (ex_processing "Error: planning duration is 0")
    pure (hours +ℤ minutes)

  -- `initial_planning_start_time` from the parameter `day_start_time`: 0 if it is no `hh:mm`.
  unfoldable pub read_start_time : String → M Domain ℤ
  unfolding times plus
  read_start_time text = elim (p.regex_search "^([[:digit:]]{2}):([[:digit:]]{2})$" text) [
    | none ↦ pure (pos 0)
    | some what ↦ do
      hh ← column what 0
      mm ← column what 1
      hours ← or_throw (p.cast int hh) std_exception
      minutes ← or_throw (p.cast int mm) std_exception
      h ← λ d. (times hours 3600, d)
      m ← λ d. (times minutes 60, d)
      λ d. (plus h m, d)
  ]

  -- The last `try` of the constructor: a planning that cannot be prepared is only logged.
  unfoldable pub first_planning : Config → ℤ → M Domain (Unit {0})
  unfolding set_next_planning
  first_planning c now =
      try_catch
        (do
          done ← set_next_planning (λ time d. record d { planning_start_time = time }) c now
          throw_if (not done) (ex_processing "Error: cannot prepare the next planning"))
        (give_up tt)

  -- The constructor `Domain::Domain` with a config that is not null, on an object that is not
  -- initialised.
  unfoldable pub construct : Config → ℤ → M Domain (Unit {0})
  unfolding get_param read_duration read_start_time prepare init_domain_structure first_planning
  construct c now = do
    duration_text ← deref (get_param "day_duration" c)
    name ← deref (get_param "domain_name" c)
    throw_if (empty name) (ex_processing "The domain's name is empty")
    duration ← read_duration duration_text
    start_text ← deref (get_param "day_start_time" c)
    start ← read_start_time start_text
    modify (λ d. record d {
      name = name;
      initial_planning_start_time = start;
      planning_duration = duration;
      is_locked = false;
    })
    prepared ← on_database (prepare p)
    throw_if (not prepared) (ex_processing "Error: cannot prepare the database")
    skeleton ← deref (get_param "db_skeleton" c)
    created ← on_database (init_domain_structure p name (p.read_lines skeleton))
    throw_if (not created) (ex_processing "Error: cannot prepare the template planning")
    first_planning c now

-- `dump_planning`, whose body is a comment; `none` is the null pointer.
unfoldable pub dump_planning : Option String → M Domain String
dump_planning none = throw (ex_processing "planning_name is NULL")
dump_planning (some planning_name) = pure ""
