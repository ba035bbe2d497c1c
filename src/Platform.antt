-- ===== src/Platform.antt =====
-- What the program takes from outside the repository: the MySQL client library, Boost's regular
-- expressions and lexical casts. Nothing is assumed of it beyond the types.
use open_workload_scheduler.Base.{ℕ, String, Bool, Option, List}
use open_workload_scheduler.Base.Int.{ℤ}

-- The calls made to the MySQL library; `lost_connect` is an attempt to connect that failed.
pub data Call : Type 0 where
  library_init library_end : Call
  connect lost_connect : Option String → Call
  query : String → Call
  close : Call

-- How the server answers a statement: an error, a result set, no result set, or a result set that
-- could not be fetched (`mysql_store_result` gives NULL and `mysql_field_count` is not 0).
pub data Answer : Type 0 where
  failure : String → Answer
  result_set : List (List (Option String)) → Answer
  no_result : Answer
  lost_result : Answer

-- The integer types that texts are cast to.
pub data IntType : Type 0 where
  int int16 int64 u_int : IntType

-- A server, its data included, is a function of the calls made so far, the newest first. So every
-- server whose answers depend on its history is a value of `connects` and `answers`.
pub record Platform : Type 0 where
  pub thread_safe : Bool
  -- `QT_NO_DEBUG` is not defined
  pub debug_build : Bool
  pub connects : List Call → Option String → Bool
  pub answers : List Call → String → Answer
  -- `mysql_insert_id` on the newest connection
  pub insert_id : List Call → ℕ
  pub regex_match : (pattern text : String) → Bool
  -- the capture groups of the first match
  pub regex_search : (pattern text : String) → Option (List String)
  pub regex_replace : (pattern text by : String) → String
  -- `boost::lexical_cast<T>(text)`; `none` for `bad_lexical_cast`
  pub cast : IntType → String → Option ℤ
  -- `boost::lexical_cast<std::string>(number)`
  pub to_string : ℤ → String
  -- the text of the one character `(char)number`
  pub of_char : ℤ → String
  -- the lines that `getline` gives from the file of that name, or `none` if it cannot be opened
  pub read_lines : String → Option (List String)
