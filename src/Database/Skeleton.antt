-- ===== src/Database/Skeleton.antt =====
-- src/database.cpp: how `load_file` cuts a file into statements.
use Prim.Native.String as Text
use text.Mathlib.TextLemmas.{append_assoc, append-nil, nil-append}
use open_workload_scheduler.Base.{
  String, List, [], ◌∷◌, ◌≡◌, ◌∙◌, Bool-cases, inl, inr, concat, if◌then◌else◌,
}
use open_workload_scheduler.Platform.{Platform}
use open_workload_scheduler.Database.{split_statements}

module _ (p : Platform) where
  -- The lines one behind the other, each behind a space, the comments left out.
  abbrev pub text_of_lines : List String → String
  text_of_lines [] = ""
  text_of_lines (line ∷ lines) = Text.◌++◌ " " (
      if p.regex_match "^--.*?$" line
      then text_of_lines lines
      else Text.◌++◌ line (text_of_lines lines))

  -- The statements that load_file cuts a file into, one behind the other and followed by what is
  -- left, are the text held before and the lines of the file, each behind a space, with the text of
  -- the comment lines left out: nothing else is lost, added or moved.
  pub split_statements_text :
      (text : String) (lines : List String)
      → Text.◌++◌ (concat (split_statements p text lines).0) (split_statements p text lines).1
        ≡ Text.◌++◌ text (text_of_lines lines)
  unfolding split_statements
  split_statements_text text [] = simp (append-nil, nil-append)
  split_statements_text text (line ∷ lines) =
      let longer : String = concat (text ∷ " " ∷ []) in
      let skipped = split_statements_text longer lines in
      let joined = split_statements_text (concat (longer ∷ line ∷ [])) lines in
      let rest = split_statements_text "" lines in
      elim (Bool-cases (p.regex_match "^--.*?$" line)) [
        | inl comment ↦ rw comment (skipped ∙ simp (append_assoc, nil-append))
        | inr code ↦ elim (Bool-cases (p.regex_match "^.*?;$" line)) [
          | inl ended ↦ rw (code, ended) (simp (append_assoc, append-nil, rest, nil-append))
          | inr unended ↦ rw (code, unended) (joined ∙ simp (append_assoc, append-nil))
        ]
      ]
