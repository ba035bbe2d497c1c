-- ===== src/Database/Connections.antt =====
-- src/database.cpp: which calls end the connection that they open.
use open_workload_scheduler.Base.{
  ℕ, suc, ◌+◌, String, Bool, true, false, Option, none, some, List, [], ◌∷◌, ◌≡◌, refl, arith,
}
use open_workload_scheduler.Effect.{Outcome, returned, thrown}
use open_workload_scheduler.Platform.{Platform, Call, connect, query, close, failure}
use open_workload_scheduler.Database.{
  Row, atomic_execute, execute_all, standalone_execute, commit, init, query_one_row,
  query_full_result,
}
use open_workload_scheduler.Database.Transactions.{init_connected}

abbrev pub opened : List Call → ℕ
opened [] = 0
opened (connect name ∷ calls) = suc (opened calls)
opened (_ ∷ calls) = opened calls

abbrev pub closed : List Call → ℕ
closed [] = 0
closed (close ∷ calls) = suc (closed calls)
closed (_ ∷ calls) = closed calls

module _ (p : Platform) where
  -- A statement opens and closes nothing, however it ends.
  atomic_execute_keeps :
      (q : String) (calls : List Call)
      → let calls' = (atomic_execute p q calls).1 in
        (opened calls' ≡ opened calls) × (closed calls' ≡ closed calls)
  unfolding atomic_execute
  atomic_execute_keeps q calls = ground arith

  -- What `execute_all` has closed, by how it ended.
  abbrev Closes : Outcome Bool → List Call → List Call → Type 0
  Closes (returned true) calls calls' = closed calls' ≡ closed calls
  Closes (returned false) calls calls' = closed calls' ≡ suc (closed calls)
  Closes (thrown e) calls calls' = closed calls' ≡ closed calls
  Closes _ calls calls' = Unit

  execute_all-Closes :
      (queries : List String) (calls : List Call)
      → let (r, calls') = execute_all p queries calls in
        (opened calls' ≡ opened calls) × Closes r calls calls'
  unfolding execute_all
  execute_all-Closes [] calls = (refl, refl)
  execute_all-Closes (q ∷ queries) calls =
      let after = (atomic_execute p q calls).1 in
      ground (
        arith,
        atomic_execute_keeps q calls,
        atomic_execute_keeps "ROLLBACK;" after,
        execute_all-Closes queries after,
      )

  -- A transaction that returns, with true or false, has ended as many connections as it opened.
  pub standalone_execute_balanced :
      (queries : List String) (name : Option String) (done : Bool) (calls calls' : List Call)
      → standalone_execute p queries name calls ≡ (returned done, calls')
      → opened calls' + closed calls ≡ closed calls' + opened calls
  unfolding standalone_execute commit init
  standalone_execute_balanced queries name done calls calls' h =
      let begun : List Call = connect name ∷ calls in
      let started : List Call = (atomic_execute p "START TRANSACTION;" begun).1 in
      let executed : List Call = (execute_all p queries started).1 in
      ground (
        arith,
        atomic_execute_keeps "START TRANSACTION;" begun,
        execute_all-Closes queries started,
        atomic_execute_keeps "COMMIT;" executed,
      )

  -- If a connection opens and the server refuses the query on it, query_full_result and
  -- query_one_row return false with the connection still open.
  pub query_refused :
      (text : String) (name : Option String) (error : String) (calls : List Call)
      → p.connects calls name ≡ true
      → p.answers (connect name ∷ calls) text ≡ failure error
      → (query_full_result p text name calls ≡ (returned none, query text ∷ connect name ∷ calls))
        × (query_one_row p text name calls ≡ (returned none, query text ∷ connect name ∷ calls))
  unfolding query_full_result query_one_row
  query_refused text name error calls connected refused = (
    ground (arith, init_connected p name calls connected),
    ground (arith, init_connected p name calls connected),
  )

  -- A query for all rows that succeeds has ended as many connections as it opened.
  pub query_full_result_balanced :
      (text : String) (name : Option String) (rows : List Row) (calls calls' : List Call)
      → query_full_result p text name calls ≡ (returned (some rows), calls')
      → opened calls' + closed calls ≡ closed calls' + opened calls
  unfolding query_full_result init
  query_full_result_balanced text name rows calls calls' h = ground arith

  -- A query for one row that succeeds has ended as many connections as it opened.
  pub query_one_row_balanced :
      (text : String) (name : Option String) (row : Row) (calls calls' : List Call)
      → query_one_row p text name calls ≡ (returned (some row), calls')
      → opened calls' + closed calls ≡ closed calls' + opened calls
  unfolding query_one_row init
  query_one_row_balanced text name row calls calls' h = ground arith
