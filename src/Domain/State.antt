-- ===== src/Domain/State.antt =====
-- src/domain.cpp: the attributes of class `Domain`, its mutex, and the accessors.
use open_workload_scheduler.Base.{
  String, Bool, true, false, Option, List, [], ◌∷◌, concat, if◌then◌else◌,
}
use open_workload_scheduler.Base.Int.{ℤ, ◌+ℤ◌, ◌-ℤ◌, rem}
use open_workload_scheduler.Effect.{M, returned, blocked, ◌>>=◌, ◌>>◌, pure}
use open_workload_scheduler.Platform.{Platform, Call}
use open_workload_scheduler.Database.{standalone_execute}

pub record Domain : Type 0 where
  pub name : String
  pub planning_start_time : ℤ
  pub initial_planning_start_time : ℤ
  pub planning_duration : ℤ
  -- `updates_mutex` is held
  pub is_locked : Bool
  -- the calls made to the database, the newest first
  pub calls : List Call

-- A call of the database object.
abbrev pub on_database : {A : Type 0} → M (List Call) A → M Domain A
on_database m d = let (r, calls) = m d.calls in (r, record d { calls = calls })

-- `updates_mutex.lock()`: it waits for ever if nobody is left to unlock.
unfoldable pub lock : M Domain (Unit {0})
lock d = if d.is_locked then (blocked, d) else (returned tt, record d { is_locked = true })

unfoldable pub unlock : M Domain (Unit {0})
unlock d = (returned tt, record d { is_locked = false })

module _ (p : Platform) where
  -- The end of each update: run the statements under the mutex, and unlock. Where the database throws,
  -- nothing unlocks.
  unfoldable pub execute_and_unlock : List String → Option String → M Domain Bool
  unfolding unlock
  execute_and_unlock queries domain_name = do
    done ← on_database (standalone_execute p queries domain_name)
    unlock
    pure done

  unfoldable pub locked_execute : List String → Option String → M Domain Bool
  locked_execute queries domain_name = do lock; execute_and_unlock queries domain_name

  -- `get_current_planning_name`
  unfoldable pub get_current_planning_name : Domain → String
  get_current_planning_name d = concat (d.name ∷ "_" ∷ p.to_string d.planning_start_time ∷ [])

-- `get_next_planning_start_time` at the time `now`; the duration is not 0.
unfoldable pub get_next_planning_start_time : Domain → ℤ → ℤ
get_next_planning_start_time d now =
    now +ℤ d.planning_duration -ℤ rem (now -ℤ d.initial_planning_start_time) d.planning_duration

-- `get_current_planning_remaining_time` at the time `now`.
unfoldable pub get_current_planning_remaining_time : Domain → ℤ → ℤ
get_current_planning_remaining_time d now = d.planning_start_time +ℤ d.planning_duration -ℤ now
