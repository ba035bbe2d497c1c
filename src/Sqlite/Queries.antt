-- ===== src/Sqlite/Queries.antt =====
-- src/database.cpp, `Sqlite::query_one_row` and `Sqlite::query_full_result`: how they end.
use open_workload_scheduler.Base.{
  String, Option, none, some, List, [], ◌∷◌, ◌≡◌, refl, arith, ◌⊎◌, inl, inr, Option-cases,
}
use open_workload_scheduler.Effect.{returned, undefined, for_each}
use open_workload_scheduler.Sqlite.{
  SqliteRow, open_v2, prepare_v2, close, handle, SqliteLibrary, Sqlite, init, end, columns,
  first_row, all_rows, query_one_row, query_full_result,
}

module _ (lib : SqliteLibrary) where
  columns-ends :
      (fields : List (Option String)) (s : Sqlite)
      → (columns lib fields s ≡ (undefined, s))
        ⊎ ((row : SqliteRow) × (columns lib fields s ≡ (returned row, s)))
  unfolding columns for_each
  columns-ends [] s = inr ([], refl)
  columns-ends (none ∷ fields) s = inl refl
  columns-ends (some field ∷ fields) s = elim (columns-ends fields s) [
    | inl bad ↦ inl (ground arith)
    | inr (row, good) ↦ inr (field ∷ row, ground arith)
  ]

  -- Class Sqlite: if a handle opens and the query gives a first row, query_full_result has
  -- undefined behaviour, with the handle still open.
  pub query_full_result_undefined :
      (text : String) (fields : List (Option String)) (rows : List (List (Option String)))
      (s : Sqlite)
      → lib.opens s.calls ≡ handle
      → lib.steps (open_v2 ∷ s.calls) text ≡ some (fields ∷ rows)
      → query_full_result lib (some text) s
        ≡ (undefined, record s { calls = prepare_v2 text ∷ open_v2 ∷ s.calls })
  unfolding query_full_result init all_rows
  query_full_result_undefined text fields rows s opened found =
      let s' : Sqlite = record s { calls = prepare_v2 text ∷ open_v2 ∷ s.calls } in
      elim (columns-ends fields s') [ inl bad ↦ ground arith | inr (row, good) ↦ ground arith ]

  first_row_closes :
      (rows : List (List (Option String))) (row : SqliteRow) (s : Sqlite)
      → (first_row lib rows s).0 ≡ returned row
      → (first_row lib rows s).1.calls ≡ close ∷ s.calls
  unfolding first_row end
  first_row_closes [] row s done = refl
  first_row_closes (fields ∷ rows) row s done = elim (columns-ends fields s) [
    | inl bad ↦ ground arith
    | inr (result, good) ↦ ground arith
  ]

  -- Class Sqlite: if a handle opens and query_one_row returns, the handle was closed if the query
  -- could be prepared, and is left open otherwise.
  pub query_one_row_left_open :
      (text : String) (row : SqliteRow) (s : Sqlite)
      → lib.opens s.calls ≡ handle
      → (query_one_row lib (some text) s).0 ≡ returned row
      → (query_one_row lib (some text) s).1.calls ≡ elim (lib.steps (open_v2 ∷ s.calls) text) [
        | none ↦ prepare_v2 text ∷ open_v2 ∷ s.calls
        | some rows ↦ close ∷ prepare_v2 text ∷ open_v2 ∷ s.calls
      ]
  unfolding query_one_row init
  query_one_row_left_open text row s opened done =
      let s' : Sqlite = record s { calls = prepare_v2 text ∷ open_v2 ∷ s.calls } in
      elim (Option-cases (lib.steps (open_v2 ∷ s.calls) text)) [
        | inl refused ↦ ground arith
        | inr (rows, found) ↦ ground (arith, first_row_closes rows row s')
      ]
