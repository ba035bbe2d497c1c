-- ===== src/Sqlite.antt =====
-- src/database.cpp, class `Sqlite`, which the build leaves out unless USE_SQLITE is defined.
pub mod Transactions
pub mod Queries
use open_workload_scheduler.Base.{
  String, Bool, true, false, Option, none, some, List, [], ◌∷◌, concat, if◌then◌else◌,
}
use open_workload_scheduler.Base.Int.{ℤ, pos, eqb_ℤ}
use open_workload_scheduler.Effect.{
  M, ◌>>=◌, ◌>>◌, pure, gets, modify, deref, for_each, undefined_behaviour,
}
use open_workload_scheduler.Platform.{Platform}

-- The calls made to the SQLite library that change a connection or the data.
pub data SqliteCall : Type 0 where
  open_v2 : SqliteCall
  exec : String → SqliteCall
  prepare_v2 : String → SqliteCall
  close : SqliteCall

-- What `sqlite3_open_v2` does: an error, no memory for a handle, or a handle.
pub data Opening : Type 0 where
  error no_memory handle : Opening

-- The library with its data, and the shell, as functions of the calls made so far, newest first.
pub record SqliteLibrary : Type 0 where
  pub opens : List SqliteCall → Opening
  -- `sqlite3_exec` gives SQLITE_OK
  pub executes : List SqliteCall → String → Bool
  -- the rows that `sqlite3_step` goes through, or `none` if the statement cannot be prepared
  pub steps : List SqliteCall → String → Option (List (List (Option String)))
  pub last_insert_rowid : List SqliteCall → ℤ
  -- the exit status of a command
  pub system : String → ℤ

pub record Sqlite : Type 0 where
  pub db : String
  pub calls : List SqliteCall

abbrev pub call : SqliteCall → M Sqlite (Unit {0})
call x = modify (λ s. record s { calls = x ∷ s.calls })

-- The rows of a result that a query gives, each with its columns.
abbrev pub SqliteRow : Type 0
SqliteRow = List String

-- `sqlite3_close`
unfoldable pub end : M Sqlite (Unit {0})
end = call close

module _ (lib : SqliteLibrary) where
  -- `init`; `false` is the null pointer.
  unfoldable pub init : M Sqlite Bool
  unfolding end
  init = do
    opening ← gets (λ s. lib.opens s.calls)
    call open_v2
    elim opening [ error ↦ pure false | no_memory ↦ end >> pure false | handle ↦ pure true ]

  unfoldable pub atomic_execute : String → M Sqlite Bool
  atomic_execute query = do
    done ← gets (λ s. lib.executes s.calls query)
    call (exec query)
    pure done

  -- The loop over the statements; it rolls back and ends at the first one that fails.
  unfoldable pub execute_or_roll_back : List String → M Sqlite Bool
  unfolding atomic_execute end
  execute_or_roll_back [] = pure true
  execute_or_roll_back (q ∷ queries) = do
    done ← atomic_execute q
    if done then execute_or_roll_back queries else atomic_execute "ROLLBACK;" >> end >> pure false

  -- What follows the loop.
  unfoldable pub finish : Bool → M Sqlite Bool
  unfolding atomic_execute end
  finish false = pure false
  finish true = do done ← atomic_execute "COMMIT;"; end; pure done

  unfoldable pub standalone_execute : List String → M Sqlite Bool
  unfolding init atomic_execute end execute_or_roll_back finish
  standalone_execute queries = do
    opened ← init
    if opened
        then (do
          begun ← atomic_execute "BEGIN TRANSACTION;"
          if begun then execute_or_roll_back queries >>= finish else end >> pure false)
        else pure false

  -- The columns of a row: `std::string` of a null column is undefined.
  unfoldable pub columns : List (Option String) → M Sqlite SqliteRow
  columns fields = for_each fields deref

  -- What `query_one_row` does with a statement that was prepared.
  unfoldable pub first_row : List (List (Option String)) → M Sqlite SqliteRow
  unfolding columns end
  first_row [] = end >> pure []
  first_row (fields ∷ rows) = do result ← columns fields; end; pure result

  unfoldable pub query_one_row : Option String → M Sqlite SqliteRow
  unfolding init first_row
  query_one_row none = init >> pure []
  query_one_row (some query) = do
    opened ← init
    rows ← gets (λ s. lib.steps s.calls query)
    if opened
        then call (prepare_v2 query) >> elim rows [ none ↦ pure [] | some rows ↦ first_row rows ]
        else pure []

  -- What `query_full_result` does with a statement that was prepared: its vector of rows is a null
  -- pointer from the beginning, and a row is pushed through it.
  unfoldable pub all_rows : List (List (Option String)) → M Sqlite (Option (List SqliteRow))
  unfolding columns end
  all_rows [] = end >> pure none
  all_rows (fields ∷ rows) = columns fields >> undefined_behaviour

  -- `none` is the null pointer.
  unfoldable pub query_full_result : Option String → M Sqlite (Option (List SqliteRow))
  unfolding init all_rows
  query_full_result none = init >> pure none
  query_full_result (some query) = do
    opened ← init
    rows ← gets (λ s. lib.steps s.calls query)
    if opened
        then call (prepare_v2 query) >> elim rows [ none ↦ pure none | some rows ↦ all_rows rows ]
        else pure none

  -- `get_inserted_id`, before the number is cut to `int`; with no handle it reads through a null
  -- pointer.
  unfoldable pub get_inserted_id : M Sqlite ℤ
  unfolding init
  get_inserted_id = do
    opened ← init
    if opened then gets (λ s. lib.last_insert_rowid s.calls) else undefined_behaviour

  module _ (p : Platform) where
    -- The loop of `load_file` over the lines, with the statement read so far, which is pushed behind
    -- them even if it is empty.
    unfoldable pub queries_of : String → List String → List String
    queries_of query [] = query ∷ []
    queries_of query (line ∷ lines) =
        let joined = concat (query ∷ " " ∷ line ∷ []) in
        let later = queries_of "" lines in
        let longer = queries_of joined lines in
        if p.regex_match "^.*?;$" line then joined ∷ later else longer

    -- `load_file`; `none` is a file that cannot be opened.
    unfoldable pub load_file : Option (List String) → M Sqlite Bool
    unfolding standalone_execute queries_of
    load_file none = pure false
    load_file (some lines) = standalone_execute (queries_of "" lines)

    -- `prepare`, with the pointers it is given.
    unfoldable pub prepare : String → Option String → Option String → M Sqlite Bool
    unfolding load_file
    prepare node_name db_data db_skeleton = do
      data_path ← deref db_data
      modify (λ s. record s {
        db = concat (s.db ∷ data_path ∷ "/" ∷ node_name ∷ "/" ∷ "schd_1.db" ∷ []);
      })
      let result = lib.system (concat ("mkdir -p " ∷ data_path ∷ "/" ∷ node_name ∷ []))
      if eqb_ℤ result (pos 0)
          then (deref db_skeleton >>= λ file_path. load_file (p.read_lines file_path))
          else pure false

-- `shutdown`, whose call of the library is a comment.
unfoldable pub shutdown : M Sqlite Bool
shutdown = pure false

-- The constructor, with whether `sqlite3_config` and `sqlite3_initialize` give SQLITE_OK: the text that
-- it throws, or `none`.
unfoldable pub refusal : Bool → Bool → Option String
refusal false initialized = some "SQLite3 cannot use SQLITE_CONFIG_MULTITHREAD"
refusal true false = some "SQLite3 cannot initialize"
refusal true true = none
