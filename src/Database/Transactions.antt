-- ===== src/Database/Transactions.antt =====
-- src/database.cpp: what `standalone_execute` has sent to the server when it ends.
use open_workload_scheduler.Base.{
  String, true, false, Option, List, [], ◌∷◌, ◌++◌, ◌≡◌, refl, arith,
}
use open_workload_scheduler.Effect.{returned, thrown, ex_processing}
use open_workload_scheduler.Platform.{Platform, Call, connect, lost_connect, query, close}
use open_workload_scheduler.Database.{init, atomic_execute, execute_all, standalone_execute, commit}

-- The calls after the statements have been sent one after the other.
abbrev pub sent : List String → List Call → List Call
sent [] calls = calls
sent (q ∷ queries) calls = sent queries (query q ∷ calls)

abbrev pub start_text : String
start_text = "START TRANSACTION;"

module _ (p : Platform) where
  -- A statement that succeeds has been sent once, and nothing else has.
  pub atomic_execute-sent :
      (q : String) (calls calls' : List Call)
      → atomic_execute p q calls ≡ (returned true, calls')
      → calls' ≡ query q ∷ calls
  unfolding atomic_execute
  atomic_execute-sent q calls calls' h = ground arith

  pub execute_all-sent :
      (queries : List String) (calls calls' : List Call)
      → execute_all p queries calls ≡ (returned true, calls')
      → calls' ≡ sent queries calls
  unfolding execute_all
  execute_all-sent [] calls calls' h = ground arith
  execute_all-sent (q ∷ queries) calls calls' h = ground (
    arith,
    atomic_execute-sent q calls (atomic_execute p q calls).1,
    execute_all-sent queries (query q ∷ calls) calls',
  )

  commit-sent :
      (calls calls' : List Call)
      → commit p calls ≡ (returned true, calls')
      → calls' ≡ close ∷ query "COMMIT;" ∷ calls
  unfolding commit
  commit-sent calls calls' h =
      ground (arith, atomic_execute-sent "COMMIT;" calls (atomic_execute p "COMMIT;" calls).1)

  init-sent :
      (name : Option String) (calls calls' : List Call)
      → init p name calls ≡ (returned tt, calls')
      → calls' ≡ connect name ∷ calls
  unfolding init
  init-sent name calls calls' h = ground arith

  pub init_connected :
      (name : Option String) (calls : List Call)
      → p.connects calls name ≡ true
      → init p name calls ≡ (returned tt, connect name ∷ calls)
  unfolding init
  init_connected name calls connected = rw connected

  pub init_lost :
      (name : Option String) (calls : List Call)
      → p.connects calls name ≡ false
      → init p name calls
        ≡ (thrown (ex_processing "Error: cannot connect: "), lost_connect name ∷ calls)
  unfolding init
  init_lost name calls lost = rw lost

  -- A transaction that returns true has sent, on one connection of its own, START TRANSACTION,
  -- every statement in order and COMMIT, and has ended the connection.
  pub standalone_execute-sent :
      (queries : List String) (name : Option String) (calls calls' : List Call)
      → standalone_execute p queries name calls ≡ (returned true, calls')
      → calls' ≡ close ∷ query "COMMIT;" ∷ sent queries (query start_text ∷ connect name ∷ calls)
  unfolding standalone_execute
  standalone_execute-sent queries name calls calls' h =
      let begun : List Call = connect name ∷ calls in
      let started : List Call = query start_text ∷ begun in
      ground (
        arith,
        init-sent name calls (init p name calls).1,
        atomic_execute-sent start_text begun (atomic_execute p start_text begun).1,
        execute_all-sent queries started (execute_all p queries started).1,
        commit-sent (sent queries started) calls',
      )

  -- The server accepts each statement in turn.
  abbrev pub Accepted : List String → List Call → Type 0
  Accepted [] calls = Unit
  Accepted (q ∷ queries) calls =
      (atomic_execute p q calls ≡ (returned true, query q ∷ calls))
      × Accepted queries (query q ∷ calls)

  execute_all-refused :
      (before : List String) (q : String) (after : List String) (msg : String) (calls : List Call)
      → Accepted before calls
      → atomic_execute p q (sent before calls)
        ≡ (thrown (ex_processing msg), query q ∷ sent before calls)
      → execute_all p (before ++ q ∷ after) calls
        ≡ (thrown (ex_processing msg), query q ∷ sent before calls)
  unfolding execute_all
  execute_all-refused [] q after msg calls ok refused = ground arith
  execute_all-refused (b ∷ before) q after msg calls ok refused =
      ground (arith, execute_all-refused before q after msg (query b ∷ calls) ok.1 refused)

  -- If the server refuses a statement with an error, after accepting the start of the transaction
  -- and the statements before, the exception carries the error, no later statement, commit or
  -- rollback is sent, and the connection is ended.
  pub standalone_execute-refused :
      (before : List String) (q : String) (after : List String) (msg : String)
      (name : Option String) (calls : List Call)
      → p.connects calls name ≡ true
      → Accepted (start_text ∷ before) (connect name ∷ calls)
      → atomic_execute p q (sent (start_text ∷ before) (connect name ∷ calls))
        ≡ (thrown (ex_processing msg), query q ∷ sent (start_text ∷ before) (connect name ∷ calls))
      → standalone_execute p (before ++ q ∷ after) name calls ≡ (
        thrown (ex_processing msg),
        close ∷ query q ∷ sent (start_text ∷ before) (connect name ∷ calls),
      )
  unfolding standalone_execute
  standalone_execute-refused before q after msg name calls connected ok refused = ground (
    arith,
    init_connected name calls connected,
    execute_all-refused before q after msg (query start_text ∷ connect name ∷ calls) ok.1 refused,
  )

  execute_all-Accepted :
      (queries : List String) (calls : List Call)
      → Accepted queries calls
      → execute_all p queries calls ≡ (returned true, sent queries calls)
  unfolding execute_all
  execute_all-Accepted [] calls ok = refl
  execute_all-Accepted (q ∷ queries) calls ok =
      ground (arith, execute_all-Accepted queries (query q ∷ calls) ok.1)

  Accepted-split :
      (queries : List String) (q : String) (calls : List Call)
      → Accepted (queries ++ q ∷ []) calls
      → Accepted queries calls
        × (atomic_execute p q (sent queries calls) ≡ (returned true, query q ∷ sent queries calls))
  Accepted-split [] q calls ok = (tt, ok.0)
  Accepted-split (r ∷ queries) q calls ok =
      let (l, last) = Accepted-split queries q (query r ∷ calls) ok.1 in ((ok.0, l), last)

  -- A transaction whose connection opens and whose statements the server accepts, from the start to
  -- the commit, returns true, with the statements sent in order and the connection ended.
  pub standalone_execute-Accepted :
      (queries : List String) (name : Option String) (calls : List Call)
      → p.connects calls name ≡ true
      → Accepted (start_text ∷ (queries ++ "COMMIT;" ∷ [])) (connect name ∷ calls)
      → standalone_execute p queries name calls ≡ (
        returned true,
        close ∷ query "COMMIT;" ∷ sent (start_text ∷ queries) (connect name ∷ calls),
      )
  unfolding standalone_execute commit
  standalone_execute-Accepted queries name calls connected ok =
      let (all, last) =
        Accepted-split queries "COMMIT;" (query start_text ∷ connect name ∷ calls) ok.1 in
      ground (
        arith,
        init_connected name calls connected,
        execute_all-Accepted queries (query start_text ∷ connect name ∷ calls) all,
      )
