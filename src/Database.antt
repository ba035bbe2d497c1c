-- ===== src/Database.antt =====
-- src/database.cpp, class `Mysql` (the build selects MySQL in include/common.h): connections,
-- transactions and queries. The state is the list of the calls made to the MySQL library, the newest
-- first. Log messages are left out.
pub mod Transactions
pub mod Connections
pub mod Ends
pub mod Journal
pub mod Skeleton
use open_workload_scheduler.Base.Int.{ℤ, to_int32}
use open_workload_scheduler.Base.{
  String, Bool, true, false, Option, none, some, List, [], ◌∷◌, ◌++◌, ◌||◌, not, concat, empty,
  if◌then◌else◌,
}
use open_workload_scheduler.Effect.{
  M, Exception, ex_processing, returned, thrown, ◌>>=◌, ◌>>◌, pure, throw, throw_if, try_catch,
  undefined_behaviour, modify, or_throw, gets,
}
use open_workload_scheduler.Platform.{
  Platform, Call, library_init, library_end, connect, lost_connect, query, close, Answer, failure,
  result_set, no_result, lost_result,
}

abbrev pub Row : Type 0
Row = List String

abbrev empty_string : String
empty_string = "^\\s+$"

-- `v.empty() == false`
abbrev pub is_nonempty {ℓ} : {A : Type ℓ} → List A → Bool
is_nonempty [] = false
is_nonempty (x ∷ xs) = true

module _ (p : Platform) where
  -- `Mysql::prepare`; a failure of `mysql_library_init` is only logged.
  unfoldable pub prepare : M (List Call) Bool
  prepare = do modify (◌∷◌ library_init); pure p.thread_safe

  -- `Mysql::init`: a new connection, or an exception.
  unfoldable pub init : Option String → M (List Call) (Unit {0})
  init database_name calls =
      if p.connects calls database_name
      then (returned tt, connect database_name ∷ calls)
      else (thrown (ex_processing "Error: cannot connect: "), lost_connect database_name ∷ calls)

  -- `Mysql::end`.
  unfoldable pub end : M (List Call) (Unit {0})
  end = modify (◌∷◌ close)

  -- `mysql_query` and, where the program fetches them, the results.
  unfoldable pub mysql_query : String → M (List Call) Answer
  mysql_query text calls = (returned (p.answers calls text), query text ∷ calls)

  -- What `atomic_execute` makes of an answer. Only a debug build fetches the result.
  unfoldable pub executed : Answer → M (List Call) Bool
  executed (failure error) = throw (ex_processing error)
  executed (result_set rows) = pure true
  executed no_result = pure true
  executed lost_result = pure (not p.debug_build)

  unfoldable pub atomic_execute : String → M (List Call) Bool
  unfolding mysql_query executed
  atomic_execute text =
      if empty text || p.regex_match empty_string text
      then pure false
      else do answer ← mysql_query text; executed answer

  -- The loop of `standalone_execute`, inside its `try`: on a statement that fails without an
  -- exception it rolls back.
  unfoldable pub execute_all : List String → M (List Call) Bool
  unfolding end
  execute_all [] = pure true
  execute_all (q ∷ queries) = do
    done ← atomic_execute q
    if done then execute_all queries else do atomic_execute "ROLLBACK;"; end; pure false

  -- `catch (rpc::ex_processing& e)` of `standalone_execute`.
  unfoldable pub end_and_rethrow : Exception → M (List Call) Bool
  unfolding end
  end_and_rethrow (ex_processing msg) = end >> throw (ex_processing msg)
  end_and_rethrow e = throw e

  -- `COMMIT`, and the end of the connection. Where the statement fails without an exception, the
  -- text of the exception is read from the connection that has just been closed and freed.
  unfoldable pub commit : M (List Call) Bool
  unfolding end
  commit = do
    committed ← atomic_execute "COMMIT;"
    end
    if committed then pure true else undefined_behaviour

  -- The same holds of `START TRANSACTION`.
  unfoldable pub standalone_execute : List String → Option String → M (List Call) Bool
  unfolding end_and_rethrow end
  standalone_execute queries database_name = do
    init database_name
    started ← atomic_execute "START TRANSACTION;"
    if not started then end >> undefined_behaviour else do
      done ← try_catch (execute_all queries) end_and_rethrow
      if done then commit else pure false

  -- `row[i]` of a one-row query: fields that are NULL are left out.
  unfoldable pub present_fields : List (Option String) → Row
  present_fields [] = []
  present_fields (none ∷ fields) = present_fields fields
  present_fields (some field ∷ fields) = field ∷ present_fields fields

  -- All rows of the result are appended to the one row.
  unfoldable pub fetch_one_row : List (List (Option String)) → Row
  unfolding present_fields
  fetch_one_row [] = []
  fetch_one_row (row ∷ rows) = present_fields row ++ fetch_one_row rows

  -- The row that `query_one_row` fills, or `none` for its result `false`. On a refused statement the
  -- connection is not ended.
  unfoldable pub one_row_of : Answer → M (List Call) (Option Row)
  unfolding end fetch_one_row
  one_row_of (failure error) = pure none
  one_row_of (result_set rows) = end >> pure (some (fetch_one_row rows))
  one_row_of no_result = end >> pure (some [])
  one_row_of lost_result = end >> pure none

  -- `Mysql::query_one_row`, with the row that was empty before the call. Every caller passes a text.
  unfoldable pub query_one_row : String → Option String → M (List Call) (Option Row)
  unfolding mysql_query one_row_of
  query_one_row text database_name = do
    init database_name
    answer ← mysql_query text
    one_row_of answer

  unfoldable pub full_row : List (Option String) → Row
  full_row [] = []
  full_row (none ∷ fields) = "NULL" ∷ full_row fields
  full_row (some field ∷ fields) = field ∷ full_row fields

  unfoldable pub fetch_full_result : List (List (Option String)) → List Row
  unfolding full_row
  fetch_full_result [] = []
  fetch_full_result (row ∷ rows) = full_row row ∷ fetch_full_result rows

  -- A result that is lost is logged with the error of the connection that has just been freed.
  unfoldable pub full_result_of : Answer → M (List Call) (Option (List Row))
  unfolding end fetch_full_result
  full_result_of (failure error) = pure none
  full_result_of (result_set rows) = end >> pure (some (fetch_full_result rows))
  full_result_of no_result = end >> pure (some [])
  full_result_of lost_result = end >> undefined_behaviour

  -- `Mysql::query_full_result`.
  unfoldable pub query_full_result : String → Option String → M (List Call) (Option (List Row))
  unfolding mysql_query full_result_of
  query_full_result text database_name = do
    init database_name
    answer ← mysql_query text
    full_result_of answer

  -- `Mysql::get_inserted_id`, on a connection of its own.
  unfoldable pub get_inserted_id : Option String → M (List Call) ℤ
  unfolding init end
  get_inserted_id database_name = do
    init database_name
    result ← gets p.insert_id
    end
    pure (to_int32 result)

  -- `Mysql::shutdown`
  unfoldable pub shutdown : M (List Call) Bool
  shutdown = do modify (◌∷◌ library_end); pure true

  -- The loop of `load_file` over the lines of the file, with the statement read so far: the
  -- statements, and what is left after the last one.
  unfoldable pub split_statements : String → List String → List String × String
  split_statements text [] = ([], text)
  split_statements text (line ∷ lines) =
      let longer = concat (text ∷ " " ∷ []) in
      let skipped = split_statements longer lines in
      let joined = split_statements (concat (longer ∷ line ∷ [])) lines in
      let (statements, rest) = split_statements "" lines in
      if p.regex_match "^--.*?$" line
      then skipped
      else if p.regex_match "^.*?;$" line
      then (concat (longer ∷ line ∷ []) ∷ statements, rest)
      else joined

  -- The statements that `load_file` runs: `USE`, those of the file, and the rest if it is not blank.
  unfoldable pub file_queries : String → List String → List String
  unfolding split_statements
  file_queries node_name lines =
      let (statements, rest) = split_statements "" lines in
      concat ("USE " ∷ node_name ∷ ";" ∷ [])
      ∷ (if empty rest || p.regex_match empty_string rest
          then statements
          else statements ++ rest ∷ [])

  -- `Mysql::load_file`; `none` is a file that cannot be opened.
  unfoldable pub load_file : String → Option (List String) → M (List Call) Bool
  unfolding standalone_execute file_queries
  load_file node_name none = pure false
  load_file node_name (some lines) = standalone_execute (file_queries node_name lines) none

  -- `Mysql::init_domain_structure`, with the lines of the skeleton file.
  unfoldable pub init_domain_structure : String → Option (List String) → M (List Call) Bool
  unfolding query_one_row standalone_execute load_file
  init_domain_structure domain_name skeleton = do
    found ← query_one_row (concat ("SHOW DATABASES LIKE '" ∷ domain_name ∷ "';" ∷ [])) none
    result ← or_throw found (ex_processing "Cannot get the available databases")
    if is_nonempty result then pure true else do
      created ←
          standalone_execute
            (concat (
                "CREATE SCHEMA IF NOT EXISTS " ∷ domain_name ∷ " DEFAULT CHARACTER SET latin1;"
                ∷ [])
              ∷ [])
            none
      throw_if (not created) (ex_processing "Cannot execute the queries")
      load_file domain_name skeleton

  -- `Mysql::translate_into_db` and `Mysql::translate_into_prog`.
  unfoldable pub translate_into_db : String → String
  translate_into_db str = p.regex_replace "[^[:word:]]" str "_"

  unfoldable pub translate_into_prog : String → String
  translate_into_prog str = p.regex_replace "_" str "."
