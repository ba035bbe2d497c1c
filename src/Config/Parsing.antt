-- ===== src/Config/Parsing.antt =====
-- src/cfg.cpp: what `parse_file` does to the parameters that it finds.
use open_workload_scheduler.Base.{
  String, true, Option, none, some, List, [], ◌∷◌, ◌≡◌, refl, arith, ◌==◌, eq_iff, ◌⊎◌, inl, inr,
  Option-cases, Bool-cases,
}
use open_workload_scheduler.Effect.{returned}
use open_workload_scheduler.Platform.{Platform}
use open_workload_scheduler.StringMap.{lookup, insert, lookup-insert}
use open_workload_scheduler.Config.{
  Config, RunningMode, p2p, active, passive, Line, blank, bad_line, entry, read_line, parse_lines,
  parse_file, get_param, set_private_attributes, set_running_mode,
}

-- The text of a running mode in the file.
abbrev pub mode_text : RunningMode → String
mode_text p2p = "p2p"
mode_text active = "active"
mode_text passive = "passive"

pub Line-cases :
    (x : Line) → (x ≡ blank) ⊎ ((x ≡ bad_line) ⊎ ((k : String) × (v : String) × (x ≡ entry k v)))
Line-cases blank = inl refl
Line-cases bad_line = inr (inl refl)
Line-cases (entry k v) = inr (inr (k, v, refl))

-- What an accepted configuration says: a mode, and the parameter that names it.
abbrev pub HasMode : Config → Type 0
HasMode c =
    (m : RunningMode) × (lookup "running_mode" c.config_options ≡ some (mode_text m))
    × (c.running_mode ≡ some m)

set_private_attributes_mode :
    (c : Config)
    → (set_private_attributes c).0 ≡ returned true
    → HasMode (set_private_attributes c).1
unfolding set_private_attributes set_running_mode get_param
set_private_attributes_mode c good = elim (Option-cases (lookup "running_mode" c.config_options)) [
  | inl missing ↦ ground arith
  | inr (text, found) ↦ elim (Bool-cases (text == "active")) [
    | inl h ↦ (active, ground (arith, eq_iff text "active"), ground arith)
    | inr h ↦ elim (Bool-cases (text == "passive")) [
      | inl h' ↦ (passive, ground (arith, eq_iff text "passive"), ground arith)
      | inr h' ↦ (p2p, ground (arith, eq_iff text "p2p"), ground (arith, eq_iff text "p2p"))
    ]
  ]
]

module _ (p : Platform) where
  -- A parameter that is set keeps its value however many lines are read after it.
  pub parse_lines_keeps :
      (lines : List String) (c : Config) (key value : String)
      → lookup key c.config_options ≡ some value
      → lookup key (parse_lines p lines c).1.config_options ≡ some value
  unfolding parse_lines
  parse_lines_keeps [] c key value h = h
  parse_lines_keeps (raw ∷ lines) c key value h = elim (Line-cases (read_line p raw c)) [
    | inl e ↦ ground (arith, parse_lines_keeps lines c key value h)
    | inr (inl e) ↦ ground arith
    | inr (inr (k, v, e)) ↦
        let c' = record c { config_options = insert k v c.config_options } in
        ground (
          arith,
          lookup-insert key k v c.config_options,
          eq_iff k key,
          parse_lines_keeps lines c' key value,
        )
  ]

  parse_lines_mode :
      (lines : List String) (c : Config)
      → let c' = (parse_lines p lines c).1 in
        (c'.running_mode ≡ c.running_mode) × (c'.master_node ≡ c.master_node)
  unfolding parse_lines
  parse_lines_mode [] c = (refl, refl)
  parse_lines_mode (raw ∷ lines) c = elim (Line-cases (read_line p raw c)) [
    | inl e ↦ ground (arith, parse_lines_mode lines c)
    | inr (inl e) ↦ ground arith
    | inr (inr (k, v, e)) ↦
        ground (
          arith,
          parse_lines_mode lines (record c { config_options = insert k v c.config_options }),
        )
  ]

  -- Whatever a file says, parsing it leaves the attribute master_node as it was.
  pub parse_file_master :
      (file : Option (List String)) (c : Config)
      → (parse_file p file c).1.master_node ≡ c.master_node
  unfolding parse_file set_private_attributes set_running_mode
  parse_file_master none c = refl
  parse_file_master (some lines) c = ground (arith, parse_lines_mode lines c)

  -- A configuration file is accepted only if the parameter running_mode is the text of a mode, and
  -- then that mode is set.
  pub parse_file_mode :
      (file : Option (List String)) (c : Config)
      → (parse_file p file c).0 ≡ returned true
      → HasMode (parse_file p file c).1
  unfolding parse_file
  parse_file_mode none c good = ground arith
  parse_file_mode (some lines) c good = elim (Bool-cases (parse_lines p lines c).0) [
    | inl h ↦ rw h (set_private_attributes_mode (parse_lines p lines c).1 (ground arith))
    | inr h ↦ ground arith
  ]
