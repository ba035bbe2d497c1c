-- ===== src/Config.antt =====
-- src/cfg.cpp, class `Config`: the parser of the configuration file and its parameters.
pub mod Parsing
pub mod Entries
use Prim.Native.Char.{code}
use Prim.Native.String as Text
use open_workload_scheduler.Base.{
  ℕ, String, Bool, true, false, Option, none, some, List, [], ◌∷◌, ◌||◌, eqb, empty, ◌==◌,
  if◌then◌else◌,
}
use open_workload_scheduler.Effect.{M, ◌>>=◌, ◌>>◌, pure, gets, modify, deref}
use open_workload_scheduler.Platform.{Platform}
use open_workload_scheduler.StringMap.{StringMap, lookup, insert}

-- e_running_mode
pub data RunningMode : Type 0 where
  p2p active passive : RunningMode

pub record Config : Type 0 where
  pub config_options : StringMap String
  pub syntax_regex : StringMap String
  pub master_node : String
  -- `none` before it is set
  pub running_mode : Option RunningMode

-- `Config::Config`
abbrev pub new_config : Config
new_config = record {
  config_options = [];
  syntax_regex = ("bind_port", "^[0-9]{2,}$") ∷ [];
  master_node = "";
  running_mode = none;
}

-- The texts before and after the first character with that code: `find_first_of` and two `substr`.
unfoldable pub split_at : ℕ → String → Option (String × String)
split_at c Text.[] = none
split_at c (Text.◌∷◌ x s) = if eqb (code x) c then some ("", s) else elim (split_at c s) [
  | none ↦ none
  | some (before, after) ↦ some (Text.◌∷◌ x before, after)
]

unfoldable pub get_param : String → Config → Option String
get_param field c = lookup field c.config_options

unfoldable pub set_running_mode : RunningMode → M Config (Unit {0})
set_running_mode rm = modify (λ c. record c { running_mode = some rm })

-- `set_private_attributes` reads the parameter through the pointer that `get_param` gives.
unfoldable pub set_private_attributes : M Config Bool
unfolding get_param set_running_mode
set_private_attributes = do
  found ← gets (get_param "running_mode")
  mode ← deref found
  if mode == "active"
      then set_running_mode active >> pure true
      else if mode == "passive"
      then set_running_mode passive >> pure true
      else if mode == "p2p"
      then set_running_mode p2p >> pure true
      else pure false

-- What a line of the file says, blanks and comments taken off: nothing, an entry, or an error.
pub data Line : Type 0 where
  blank bad_line : Line
  entry : String → String → Line

module _ (p : Platform) where
  unfoldable pub check_syntax : String → String → Config → Bool
  check_syntax key value c = elim (lookup key c.syntax_regex) [
    | none ↦ true
    | some regex ↦ p.regex_match regex value
  ]

  unfoldable pub read_entry : String × String → Config → Line
  unfolding check_syntax
  read_entry (key, value) c =
      if empty key || empty value
      then bad_line
      else if check_syntax key value c
      then entry key value
      else bad_line

  unfoldable pub read_line : String → Config → Line
  unfolding split_at read_entry
  read_line raw c =
      let line = p.regex_replace "#.*?$" (p.regex_replace "[[:space:]]+" raw "") "" in
      if p.regex_match "^#.*?$" line || empty line
      then blank
      else elim (split_at b'=' line) [ none ↦ bad_line | some parts ↦ read_entry parts c ]

  -- The loop of `parse_file`; `false` where it returns early.
  unfoldable pub parse_lines : List String → Config → Bool × Config
  unfolding read_line
  parse_lines [] c = (true, c)
  parse_lines (raw ∷ lines) c = elim (read_line raw c) [
    | blank ↦ parse_lines lines c
    | bad_line ↦ (false, c)
    | entry key value ↦
        parse_lines lines (record c { config_options = insert key value c.config_options })
  ]

  -- `parse_file` of the lines, or of a file that cannot be read.
  unfoldable pub parse_file : Option (List String) → M Config Bool
  unfolding parse_lines set_private_attributes
  parse_file none c = pure false c
  parse_file (some lines) c =
      let (good, c') = parse_lines lines c in
      if good then set_private_attributes c' else pure false c'
