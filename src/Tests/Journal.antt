-- ===== src/Tests/Journal.antt =====
-- The theorems on what reaches the database, with a journal computed from the calls.
use Prim.Native.Char.{code}
use Prim.Native.String as Text
use open_workload_scheduler.Base.{
  String, Bool, true, false, Option, none, some, List, [], ◌∷◌, ◌++◌, ◌≡◌, refl, arith, inl, ◌&&◌,
  eqb, ◌==◌, if◌then◌else◌,
}
use open_workload_scheduler.Platform.{Platform, Call, connect, lost_connect, query, close}
use open_workload_scheduler.Database.{
  standalone_execute, executed, init, atomic_execute, end, mysql_query, execute_all, commit,
}
use open_workload_scheduler.Database.Journal.{Journal, accepts, IsTransactional, AllOrNothing}
use open_workload_scheduler.Database.Journal.Refinement.{standalone_execute-AllOrNothing}
use open_workload_scheduler.Convertions.{
  build_string_from_job_state, build_string_from_time_constraint_type,
}
use open_workload_scheduler.Domain.State.{Domain, locked_execute, lock, execute_and_unlock, unlock}
use open_workload_scheduler.Domain.Insertions.{
  add_node, resource_query, add_node_by_name, node_count_query, add_job_queries, job_query,
  prv_query, nxt_query, time_constraint_query,
}
use open_workload_scheduler.Domain.Mutex.{Update, perform, node_name, new_job}
use open_workload_scheduler.Domain.Atomicity.{statements}
use open_workload_scheduler.Domain.Journal.{perform-AllOrNothing}
use open_workload_scheduler.Domain.Series.{AllOrPart, insertions, add_node-AllOrPart}
use open_workload_scheduler.Model.{Node}
use open_workload_scheduler.JobRun.{Execution, run}
use open_workload_scheduler.JobRun.Journal.{Marks, first_mark, run-Marks}
use open_workload_scheduler.Domain.Updates.{job_state_query, timed_job_state_query}
use open_workload_scheduler.Base.Int.{pos, to_int16}
use open_workload_scheduler.Threads.Order.{nothing, performed}
use open_workload_scheduler.Threads.Journal.{log-transactions}
use open_workload_scheduler.Tests.Data.{platform, domain, job}

-- The statements that begin with "SE".
abbrev second_is_e : String → Bool
second_is_e Text.[] = false
second_is_e (Text.◌∷◌ c s) = eqb (code c) b'E'

abbrev is_select : String → Bool
is_select Text.[] = false
is_select (Text.◌∷◌ c s) = eqb (code c) b'S' && second_is_e s

abbrev committed : Option (List String) → Journal → Journal
committed none j = j
committed (some l) j = record j {
  pending = none;
  log = j.log ++ record { schema = j.schema; statements = l } ∷ [];
}

abbrev added : String → Option (List String) → Journal → Journal
added q none j = record j { log = j.log ++ record { schema = j.schema; statements = q ∷ [] } ∷ [] }
added q (some l) j = record j { pending = some (l ++ q ∷ []) }

abbrev result : Bool → String → Journal → Journal
result accepted q j =
    if is_select q
    then j
    else if q == "ROLLBACK;"
    then record j { pending = none }
    else if accepted
    then (if q == "START TRANSACTION;"
        then record j { pending = some [] }
        else if q == "COMMIT;"
        then committed j.pending j
        else added q j.pending j)
    else j

module _ (p : Platform) where
  -- The journal of the calls.
  view : List Call → Journal
  view [] = record { schema = none; pending = none; log = [] }
  view (connect name ∷ calls) = record { schema = name; pending = none; log = (view calls).log }
  view (lost_connect name ∷ calls) = view calls
  view (close ∷ calls) = record (view calls) { pending = none }
  view (query q ∷ calls) = result (accepts (p.answers calls q)) q (view calls)
  view (_ ∷ calls) = view calls

  abbrev IsPlain : String → Type 0
  IsPlain q =
      (is_select q ≡ false)
      × ((q == "START TRANSACTION;") ≡ false)
      × ((q == "COMMIT;") ≡ false)
      × ((q == "ROLLBACK;") ≡ false)

  abbrev IsRead : String → Type 0
  IsRead q = is_select q ≡ true

  view-IsTransactional : IsTransactional p IsPlain IsRead view
  unfolding view
  view-IsTransactional = record {
    connects = λ name calls. refl;
    closes = λ calls. refl;
    connects_not = λ name calls. refl;
    refuses = λ q calls plain refused. ground arith;
    refuses_start = λ calls refused outside. ground arith;
    refuses_commit = λ calls l refused inside. inl (ground arith);
    starts = λ calls accepted outside. ground arith;
    performs = λ q calls l plain accepted inside. ground arith;
    commits = λ calls l accepted inside. ground arith;
    reads = λ q calls read. ground arith;
    rolls_back = λ calls. refl;
  }

abbrev two_rows : List String
two_rows = "INSERT 1;" ∷ "INSERT 2;" ∷ []

standalone_execute-AllOrNothing_example :
    let (r, calls) = standalone_execute platform two_rows (some "prod") [] in
    AllOrNothing platform (some "prod") two_rows [] r (view platform calls).log
unfolding view
standalone_execute-AllOrNothing_example =
    standalone_execute-AllOrNothing platform (IsPlain platform) (IsRead platform) (view platform)
      (view-IsTransactional platform) two_rows (some "prod") []
      ((refl, refl, refl, refl), ((refl, refl, refl, refl), tt))

perform-AllOrNothing_example :
    let (r, d) = perform platform (new_job "prod" job) domain in
    AllOrNothing platform
      (some "prod")
      (statements platform (new_job "prod" job))
      []
      r
      (view platform d.calls).log
unfolding view node_count_query add_job_queries job_query prv_query nxt_query time_constraint_query
    build_string_from_time_constraint_type
perform-AllOrNothing_example =
    perform-AllOrNothing platform (IsPlain platform) (IsRead platform) (view platform)
      (view-IsTransactional platform) (new_job "prod" job) domain refl refl
      (
        (refl, refl, refl, refl),
        (
          (refl, refl, refl, refl),
          ((refl, refl, refl, refl), ((refl, refl, refl, refl), ((refl, refl, refl, refl), tt))),
        ),
      )

abbrev new_node : Update
new_node = node_name "prod" "n2"

log-transactions_example :
    (view platform (perform platform new_node domain).1.calls).log
    ≡ [] ++ (record { schema = some "prod"; statements = statements platform new_node } ∷ [])
unfolding view perform add_node_by_name locked_execute lock execute_and_unlock unlock
    standalone_execute init atomic_execute mysql_query executed execute_all commit end
log-transactions_example =
    log-transactions platform (IsPlain platform) (IsRead platform) (view platform)
      (view-IsTransactional platform) (performed [] domain new_node true nothing refl refl)
      (tt, ((refl, refl, refl, refl), tt), tt)

-- A command that fails.
abbrev failure_run : Execution
failure_run = record { started_at = pos 1; stopped_at = pos 2; status = some (pos 1) }

-- While it runs, another thread adds a node.
abbrev busy_minute : Domain → Domain
busy_minute d = (perform platform new_node d).1

run-Marks_example :
    let (r, d) = run platform job failure_run busy_minute domain in
    let behind = (perform platform (first_mark job) domain).1 in
    let front = busy_minute behind in
    Marks platform job failure_run front.is_locked []
      (view platform behind.calls).log
      (view platform front.calls).log
      r
      (view platform d.calls).log
unfolding view job_state_query timed_job_state_query build_string_from_job_state to_int16
run-Marks_example =
    run-Marks platform (IsPlain platform) (IsRead platform) (view platform)
      (view-IsTransactional platform) job failure_run busy_minute domain refl
      ((refl, refl, refl, refl), tt) ((refl, refl, refl, refl), tt)

-- A node with one resource and one job.
abbrev whole_node : Node
whole_node = record {
  name = "n1";
  weight = pos 1;
  domain_name = "prod";
  resources = record { name = "disk"; current_value = pos 1; initial_value = pos 1 } ∷ [];
  jobs = job ∷ [];
}

add_node-AllOrPart_example :
    let (r, d) = add_node platform "prod" whole_node domain in
    AllOrPart platform (insertions "prod" whole_node) [] r (view platform d.calls).log
unfolding view node_count_query add_job_queries job_query prv_query nxt_query time_constraint_query
    build_string_from_time_constraint_type resource_query
add_node-AllOrPart_example =
    add_node-AllOrPart platform (IsPlain platform) (IsRead platform) (view platform)
      (view-IsTransactional platform) "prod" whole_node domain refl
      (
        (tt, ((refl, refl, refl, refl), tt)),
        (
          (tt, ((refl, refl, refl, refl), tt)),
          (
            (
              refl,
              (
                (refl, refl, refl, refl),
                (
                  (refl, refl, refl, refl),
                  (
                    (refl, refl, refl, refl),
                    ((refl, refl, refl, refl), ((refl, refl, refl, refl), tt)),
                  ),
                ),
              ),
            ),
            tt,
          ),
        ),
      )
