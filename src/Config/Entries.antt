-- ===== src/Config/Entries.antt =====
-- src/cfg.cpp: the parameters behind `parse_file` are those of the file.
use Prim.Native.Char.{Char, code}
use Prim.Native.String as Text
use open_workload_scheduler.Base.{
  ℕ, eqb, ap, subst, ◌⊎◌, ◌||◌, empty, Option-cases, false, String, true, Option, none, some, List,
  [], ◌∷◌, ◌≡◌, refl, arith, eq_iff, inl, inr, Bool-cases,
}
use open_workload_scheduler.Effect.{returned}
use open_workload_scheduler.Platform.{Platform}
use open_workload_scheduler.StringMap.{StringMap, lookup, insert, lookup-insert}
use open_workload_scheduler.Config.{
  Config, blank, entry, read_line, read_entry, check_syntax, parse_lines, parse_file, split_at,
  get_param, set_private_attributes, set_running_mode,
}
use open_workload_scheduler.Config.Parsing.{Line-cases, HasMode, parse_file_mode}

-- The first of two values that is there.
abbrev pub first_of : Option String → Option String → Option String
first_of none o = o
first_of (some v) o = some v

module _ (p : Platform) where
  -- A line without its blanks and its comment.
  abbrev pub stripped : String → String
  stripped raw = p.regex_replace "#.*?$" (p.regex_replace "[[:space:]]+" raw "") ""

  -- The line is the key, the first character with that code, and the value.
  abbrev pub IsSplit : ℕ → String → (key value : String) → Type 0
  IsSplit c line Text.[] value = (x : Char) × (code x ≡ c) × (line ≡ Text.◌∷◌ x value)
  IsSplit c line (Text.◌∷◌ y key) value =
      (rest : String) × (¬ (code y ≡ c)) × (line ≡ Text.◌∷◌ y rest) × IsSplit c rest key value

  pub record IsEntry (rules : StringMap String) (line key value : String) : Type 0 where
    pub is_given : (p.regex_match "^#.*?$" line || empty line) ≡ false
    pub parts : IsSplit b'=' line key value
    pub has_key : empty key ≡ false
    pub has_value : empty value ≡ false
    pub is_allowed :
        (regex : String) → lookup key rules ≡ some regex → p.regex_match regex value ≡ true

  -- What the lines say, in their order: each of them is blank, a comment, or an entry that the rules
  -- allow.
  pub data Entries (rules : StringMap String) : List String → List (String × String) → Type 0 where
    ending : Entries rules [] []
    skipped :
        (raw : String) (lines : List String) (found : List (String × String))
        → (p.regex_match "^#.*?$" (stripped raw) || empty (stripped raw)) ≡ true
        → Entries rules lines found
        → Entries rules (raw ∷ lines) found
    given :
        (raw key value : String) (lines : List String) (found : List (String × String))
        → IsEntry rules (stripped raw) key value
        → Entries rules lines found
        → Entries rules (raw ∷ lines) ((key, value) ∷ found)

  split_at-IsSplit :
      (c : ℕ) (line key value : String)
      → split_at c line ≡ some (key, value)
      → IsSplit c line key value
  unfolding split_at
  split_at-IsSplit c Text.[] key value h = absurd (ground arith)
  split_at-IsSplit c (Text.◌∷◌ x s) key value h =
      go (λ k v e. split_at-IsSplit c s k v e) (Bool-cases (eqb (code x) c))
        (Option-cases (split_at c s))
    where
      go :
          ((k v : String) → split_at c s ≡ some (k, v) → IsSplit c s k v)
          → ((eqb (code x) c ≡ true) ⊎ (eqb (code x) c ≡ false))
          → ((split_at c s ≡ none) ⊎ ((a : String × String) × (split_at c s ≡ some a)))
          → IsSplit c (Text.◌∷◌ x s) key value
      go tail (inl same) o =
          let empty_key : "" ≡ key = ground arith in
          let all : s ≡ value = ground arith in
          subst (λ k. IsSplit c (Text.◌∷◌ x s) k value) empty_key
            (x, ground arith, ap (λ v. Text.◌∷◌ x v) all)
      go tail (inr other) (inl e) = absurd (ground arith)
      go tail (inr other) (inr ((before, after), e)) =
          let starts : Text.◌∷◌ x before ≡ key = ground arith in
          let ends : after ≡ value = ground arith in
          subst (λ k. IsSplit c (Text.◌∷◌ x s) k value) starts
            (s, ground arith, refl, tail before value (ground arith))

  -- What `read_line` takes for a blank line or an entry is one.
  read_line-blank :
      (raw : String) (c : Config)
      → read_line p raw c ≡ blank
      → (p.regex_match "^#.*?$" (stripped raw) || empty (stripped raw)) ≡ true
  unfolding read_line read_entry
  read_line-blank raw c h = ground arith

  read_entry-IsEntry :
      (line key value k v : String) (c : Config)
      → (p.regex_match "^#.*?$" line || empty line) ≡ false
      → split_at b'=' line ≡ some (k, v)
      → read_entry p (k, v) c ≡ entry key value
      → IsEntry c.syntax_regex line key value
  unfolding read_entry check_syntax
  read_entry-IsEntry line key value k v c written split h =
      let same : k ≡ key = ground arith in
      let same' : v ≡ value = ground arith in
      record {
        is_given = written;
        parts = split_at-IsSplit b'=' line key value (ground arith);
        has_key = ground arith;
        has_value = ground arith;
        is_allowed = λ regex found. ground arith;
      }

  read_line-IsEntry :
      (raw key value : String) (c : Config)
      → read_line p raw c ≡ entry key value
      → IsEntry c.syntax_regex (stripped raw) key value
  unfolding read_line
  read_line-IsEntry raw key value c h = go (Option-cases (split_at b'=' (stripped raw)))
    where
      go :
          ((split_at b'=' (stripped raw) ≡ none)
            ⊎ ((a : String × String) × (split_at b'=' (stripped raw) ≡ some a)))
          → IsEntry c.syntax_regex (stripped raw) key value
      go (inl e) = absurd (ground arith)
      go (inr ((k, v), e)) =
          read_entry-IsEntry (stripped raw) key value k v c (ground arith) e (ground arith)

  -- What the loop leaves: the entries were all read, and the first value of each parameter counts.
  pub record IsRead (c : Config) (lines : List String) (c' : Config) : Type 0 where
    pub found : List (String × String)
    pub are_entries : Entries c.syntax_regex lines found
    pub values :
        (key : String)
        → lookup key c'.config_options ≡ first_of (lookup key c.config_options) (lookup key found)

  abbrev with_options : Config → List (String × String) → Config
  with_options c m = record c { config_options = m }

  parse_lines-IsRead :
      (lines : List String) (c : Config)
      → (parse_lines p lines c).0 ≡ true
      → IsRead c lines (parse_lines p lines c).1
  unfolding parse_lines
  parse_lines-IsRead [] c good = record {
    found = [];
    are_entries = ending;
    values = λ key. ground arith;
  }
  parse_lines-IsRead (raw ∷ lines) c good = elim (Line-cases (read_line p raw c)) [
    | inl e ↦
        let r = parse_lines-IsRead lines c (ground arith) in
        record {
          found = r.found;
          are_entries = skipped raw lines r.found (read_line-blank raw c e) r.are_entries;
          values = λ key. ground (arith, r.values key);
        }
    | inr (inl e) ↦ absurd (ground arith)
    | inr (inr (k, v, e)) ↦
        let m = insert k v c.config_options in
        let r = parse_lines-IsRead lines (with_options c m) (ground arith) in
        record {
          found = (k, v) ∷ r.found;
          are_entries = given raw k v lines r.found (read_line-IsEntry raw k v c e) r.are_entries;
          values = λ key.
              ground (arith, r.values key, lookup-insert key k v c.config_options, eq_iff k key);
        }
  ]

  set_private_attributes_keeps :
      (c : Config) → (set_private_attributes c).1.config_options ≡ c.config_options
  unfolding set_private_attributes set_running_mode get_param
  set_private_attributes_keeps c = ground arith

  -- If parse_file accepts a file, then every line, its blanks and its comment taken off, is empty,
  -- a comment or an entry: a key, the first character = and a value, neither empty, where the value
  -- matches the syntax rule of the key, if there is one. The value of each parameter is the one
  -- that it had before, and else that of its first entry in the file, and the parameter
  -- running_mode is the text of a mode, which is set.
  pub parse_file-IsRead :
      (lines : List String) (c : Config)
      → (parse_file p (some lines) c).0 ≡ returned true
      → IsRead c lines (parse_file p (some lines) c).1 × HasMode (parse_file p (some lines) c).1
  unfolding parse_file
  parse_file-IsRead lines c good = elim (Bool-cases (parse_lines p lines c).0) [
    | inl h ↦
        let r = parse_lines-IsRead lines c h in
        let c' = (parse_lines p lines c).1 in
        (
          record {
            found = r.found;
            are_entries = r.are_entries;
            values = λ key. ground (arith, r.values key, set_private_attributes_keeps c');
          },
          parse_file_mode p (some lines) c good,
        )
    | inr h ↦ absurd (ground arith)
  ]
