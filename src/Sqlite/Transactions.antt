-- ===== src/Sqlite/Transactions.antt =====
-- src/database.cpp, `Sqlite::standalone_execute`: what it has sent when it ends.
use open_workload_scheduler.Base.{String, true, false, List, [], ◌∷◌, ◌++◌, ◌≡◌, ◌↔◌, refl, arith}
use open_workload_scheduler.Effect.{returned}
use open_workload_scheduler.Sqlite.{
  SqliteCall, open_v2, exec, close, handle, SqliteLibrary, Sqlite, init, end, atomic_execute,
  execute_or_roll_back, finish, standalone_execute,
}

-- The calls after the statements have been sent one after the other.
abbrev pub executed : List String → List SqliteCall → List SqliteCall
executed [] calls = calls
executed (q ∷ queries) calls = executed queries (exec q ∷ calls)

executed-append :
    (before after : List String) (calls : List SqliteCall)
    → executed (before ++ after) calls ≡ executed after (executed before calls)
executed-append [] after calls = refl
executed-append (q ∷ before) after calls = executed-append before after (exec q ∷ calls)

module _ (lib : SqliteLibrary) where
  -- The library accepts these statements, sent one after the other.
  abbrev pub Accepts : List String → List SqliteCall → Type 0
  Accepts [] calls = Unit
  Accepts (q ∷ queries) calls = (lib.executes calls q ≡ true) × Accepts queries (exec q ∷ calls)

  execute_or_roll_back-true :
      (queries : List String) (s : Sqlite)
      → (execute_or_roll_back lib queries s).0 ≡ returned true
      → Accepts queries s.calls
        × (execute_or_roll_back lib queries s
            ≡ (returned true, record s { calls = executed queries s.calls }))
  unfolding execute_or_roll_back atomic_execute end
  execute_or_roll_back-true [] s h = (tt, refl)
  execute_or_roll_back-true (q ∷ queries) s h =
      ground (arith, execute_or_roll_back-true queries (record s { calls = exec q ∷ s.calls }))

  Accepts-append :
      (before after : List String) (calls : List SqliteCall)
      → Accepts before calls
      → Accepts after (executed before calls)
      → Accepts (before ++ after) calls
  Accepts-append [] after calls h k = k
  Accepts-append (q ∷ before) after calls h k =
      (h.0, Accepts-append before after (exec q ∷ calls) h.1 k)

  Accepts-split :
      (before after : List String) (calls : List SqliteCall)
      → Accepts (before ++ after) calls
      → Accepts before calls × Accepts after (executed before calls)
  Accepts-split [] after calls h = (tt, h)
  Accepts-split (q ∷ before) after calls h =
      let (first, rest) = Accepts-split before after (exec q ∷ calls) h.1 in ((h.0, first), rest)

  execute_or_roll_back-Accepted :
      (queries : List String) (s : Sqlite)
      → Accepts queries s.calls
      → execute_or_roll_back lib queries s
        ≡ (returned true, record s { calls = executed queries s.calls })
  unfolding execute_or_roll_back atomic_execute
  execute_or_roll_back-Accepted [] s h = refl
  execute_or_roll_back-Accepted (q ∷ queries) s h =
      ground (arith, execute_or_roll_back-Accepted queries (record s { calls = exec q ∷ s.calls }))

  standalone_execute-Accepted :
      (queries : List String) (s : Sqlite)
      → lib.opens s.calls ≡ handle
      → Accepts ("BEGIN TRANSACTION;" ∷ queries ++ "COMMIT;" ∷ []) (open_v2 ∷ s.calls)
      → (standalone_execute lib queries s).0 ≡ returned true
  unfolding standalone_execute init atomic_execute finish end
  standalone_execute-Accepted queries s opened accepted =
      let begun : Sqlite = record s { calls = exec "BEGIN TRANSACTION;" ∷ open_v2 ∷ s.calls } in
      let (h, k) = Accepts-split queries ("COMMIT;" ∷ []) begun.calls accepted.1 in
      ground (arith, h, k, execute_or_roll_back-Accepted queries begun)

  standalone_execute-true :
      (queries : List String) (s : Sqlite)
      → (standalone_execute lib queries s).0 ≡ returned true
      → let all = "BEGIN TRANSACTION;" ∷ queries ++ "COMMIT;" ∷ [] in
        (lib.opens s.calls ≡ handle)
        × Accepts all (open_v2 ∷ s.calls)
        × ((standalone_execute lib queries s).1
            ≡ record s { calls = close ∷ executed all (open_v2 ∷ s.calls) })
  unfolding standalone_execute init atomic_execute finish end
  standalone_execute-true queries s h =
      let begun : Sqlite = record s { calls = exec "BEGIN TRANSACTION;" ∷ open_v2 ∷ s.calls } in
      let rest = execute_or_roll_back-true queries begun in
      ground (
        arith,
        rest,
        Accepts-append queries ("COMMIT;" ∷ []) begun.calls,
        executed-append queries ("COMMIT;" ∷ []) begun.calls,
      )

  -- Class Sqlite: a transaction returns true if and only if a handle was opened and the library
  -- accepted BEGIN TRANSACTION, every statement in order and COMMIT; then these and nothing else
  -- were sent on that handle, which was closed.
  pub standalone_execute-Committed :
      (queries : List String) (s : Sqlite)
      → let all = "BEGIN TRANSACTION;" ∷ queries ++ "COMMIT;" ∷ [] in
        let (r, s') = standalone_execute lib queries s in
        ((r ≡ returned true) ↔ ((lib.opens s.calls ≡ handle) × Accepts all (open_v2 ∷ s.calls)))
        × (r ≡ returned true → s' ≡ record s { calls = close ∷ executed all (open_v2 ∷ s.calls) })
  standalone_execute-Committed queries s = (
    (
      λ h. let t = standalone_execute-true queries s h in (t.0, t.1),
      λ h. standalone_execute-Accepted queries s h.0 h.1,
    ),
    λ h. (standalone_execute-true queries s h).2,
  )

  rolls_back :
      (before after : List String) (q : String) (s : Sqlite)
      → Accepts before s.calls
      → lib.executes (executed before s.calls) q ≡ false
      → execute_or_roll_back lib (before ++ q ∷ after) s ≡ (
        returned false,
        record s { calls = close ∷ exec "ROLLBACK;" ∷ exec q ∷ executed before s.calls },
      )
  unfolding execute_or_roll_back atomic_execute end
  rolls_back [] after q s accepted refused = ground arith
  rolls_back (b ∷ before) after q s accepted refused =
      ground (arith, rolls_back before after q (record s { calls = exec b ∷ s.calls }))

  -- Class Sqlite: if a handle opens, BEGIN TRANSACTION and the statements before are accepted and a
  -- statement is refused, the transaction returns false, having sent ROLLBACK behind that statement
  -- and nothing else, and the handle is closed.
  pub standalone_execute-rolls_back :
      (before after : List String) (q : String) (s : Sqlite)
      → lib.opens s.calls ≡ handle
      → Accepts ("BEGIN TRANSACTION;" ∷ before) (open_v2 ∷ s.calls)
      → lib.executes (executed ("BEGIN TRANSACTION;" ∷ before) (open_v2 ∷ s.calls)) q ≡ false
      → standalone_execute lib (before ++ q ∷ after) s ≡ (
        returned false,
        record s {
          calls =
              close
              ∷ exec "ROLLBACK;"
              ∷ exec q
              ∷ executed ("BEGIN TRANSACTION;" ∷ before) (open_v2 ∷ s.calls);
        },
      )
  unfolding standalone_execute init atomic_execute
  standalone_execute-rolls_back before after q s opened accepted refused = ground (
    arith,
    rolls_back before after q (record s { calls = exec "BEGIN TRANSACTION;" ∷ open_v2 ∷ s.calls }),
  )
