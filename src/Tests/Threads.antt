-- ===== src/Tests/Threads.antt =====
-- The theorems on the domain under several threads, run on two updates.
use open_workload_scheduler.Database.{
  standalone_execute, init, atomic_execute, end, query_one_row, mysql_query, executed, execute_all,
  commit, one_row_of, fetch_one_row, present_fields,
}
use open_workload_scheduler.Domain.Insertions.{
  add_node_by_name, add_job, check_node, node_count_query,
}
use open_workload_scheduler.Base.{true, none, some, [], ◌∷◌, ◌≡◌, refl, ◌⊎◌}
use open_workload_scheduler.Effect.{ex_node}
use open_workload_scheduler.Domain.State.{locked_execute, lock, execute_and_unlock, unlock}
use open_workload_scheduler.Domain.Mutex.{Update, new_job, node_name, perform}
use open_workload_scheduler.Threads.{
  Shared, Steps, start, here, then, arrives, acquires, returns, throws,
}
use open_workload_scheduler.Threads.Order.{IsGuarded, Steps-guard}
use open_workload_scheduler.Threads.Progress.{threads_go_on, threads_stop, EndedWith, lasting}
use open_workload_scheduler.Tests.Data.{platform, domain, stray_job}

abbrev good : Update
good = node_name "prod" "n2"

abbrev bad : Update
bad = new_job "prod" stray_job

-- The second update arrives while the first one holds the mutex.
abbrev busy : Shared
busy = record (start domain) {
  domain = record domain { is_locked = true };
  queue = bad ∷ [];
  holder = some good;
}

busy-Steps : Steps platform (start domain) busy
busy-Steps =
    then
      (then (then (here (start domain)) (arrives good (start domain)))
        (acquires [] [] good (record (start domain) { queue = good ∷ [] }) refl refl))
      (arrives bad
        (record (start domain) { domain = record domain { is_locked = true }; holder = some good }))

Steps-guard_example : IsGuarded busy
Steps-guard_example = Steps-guard platform domain busy busy-Steps

threads_go_on_example :
    (w : Shared) × Steps platform busy w × ((w.has_thrown ≡ true) ⊎ EndedWith w bad)
threads_go_on_example =
    threads_go_on platform domain busy bad [] record { release = refl; start = refl; commit = refl }
      busy-Steps refl refl

-- The first update has returned.
abbrev relieved : Shared
relieved = record busy {
  domain = (perform platform good domain).1;
  holder = none;
  ended = good ∷ [];
}

relieved-Steps : Steps platform (start domain) relieved
unfolding perform add_node_by_name locked_execute lock execute_and_unlock unlock standalone_execute
    init atomic_execute mysql_query executed execute_all commit end
relieved-Steps = then busy-Steps (returns good true busy refl refl)

-- A job of a node that the server does not know holds the mutex.
abbrev doomed : Shared
doomed = record (start domain) { domain = record domain { is_locked = true }; holder = some bad }

abbrev dead : Shared
dead = record doomed { domain = (perform platform bad domain).1; holder = none; has_thrown = true }

dead-Steps : Steps platform (start domain) dead
unfolding perform add_job lock check_node query_one_row init mysql_query one_row_of fetch_one_row
    present_fields end node_count_query
dead-Steps =
    then
      (then (then (here (start domain)) (arrives bad (start domain)))
        (acquires [] [] bad (record (start domain) { queue = bad ∷ [] }) refl refl))
      (throws bad (ex_node "The node n2 does not exist") doomed refl refl)

abbrev late : Shared
late = record dead { queue = good ∷ [] }

threads_stop_example :
    (lasting late.domain ≡ lasting dead.domain)
    × (late.ended ≡ dead.ended)
    × (late.has_thrown ≡ true)
threads_stop_example =
    threads_stop platform domain dead late dead-Steps refl (then (here dead) (arrives good dead))
