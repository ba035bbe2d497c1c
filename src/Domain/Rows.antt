-- ===== src/Domain/Rows.antt =====
-- src/domain.cpp: the reads of the tables that stand beside the jobs and the nodes.
use open_workload_scheduler.Base.{
  String, Bool, true, false, Option, some, none, List, [], ◌∷◌, concat, empty, ◌&&◌, not, ◌==◌,
  if◌then◌else◌,
}
use Prim.Native.Nat.{Ordering}
use Prim.Native.String as Text
use open_workload_scheduler.Base.Int.{ℤ, pos, to_int16}
use open_workload_scheduler.Effect.{
  M, Exception, ex_job, ex_processing, std_exception, ◌>>=◌, pure, lift, throw, or_throw, column,
  for_each, undefined_behaviour,
}
use open_workload_scheduler.Platform.{Platform, int, int16}
use open_workload_scheduler.Model.{Resource, TimeConstraint, RecoveryType, MacroJob}
use open_workload_scheduler.Convertions.{
  build_rectype_action_from_string, build_time_constraint_type_from_string,
}
use open_workload_scheduler.Database.{Row, query_one_row, query_full_result}
use open_workload_scheduler.Domain.State.{Domain, on_database}

-- `compare("NULL") > 0`: the text comes after "NULL" in the order of the bytes.
abbrev pub is_after_null : String → Bool
is_after_null s = elim (Text.compare s "NULL") [ Ordering.gt ↦ true | _ ↦ false ]

-- `size() > 0 && compare("NULL") != 0`
abbrev pub is_present : String → Bool
is_present s = not (empty s) && not (s == "NULL")

-- The optional restriction to a node, and the end of the statement.
abbrev pub restrict : Option String → String → String → String
restrict none text column_test = concat (text ∷ ";" ∷ [])
restrict (some node) text column_test = concat (text ∷ column_test ∷ node ∷ "';" ∷ [])

-- A value that cannot be cast leaves the constraint's value at 0: the exception that is built is
-- not thrown.
abbrev pub cast_or_zero : Option ℤ → ℤ
cast_or_zero none = pos 0
cast_or_zero (some v) = v

module _ (p : Platform) where
  -- `query_full_result` that throws on `false`.
  abbrev pub rows_or_throw : String → String → M Domain (List Row)
  rows_or_throw text domain_name = do
    found ← on_database (query_full_result p text (some domain_name))
    or_throw found (ex_job "The query failed")

  unfoldable pub get_jobs_next : String → String → M Domain (List String)
  get_jobs_next domain_name j_name = do
    rows ←
        rows_or_throw
          (concat
            ("SELECT job_name_nxt FROM jobs_link WHERE job_name_prv = '" ∷ j_name ∷ "';" ∷ []))
          domain_name
    for_each rows (λ row. column row 0)

  unfoldable pub time_constraint_of : Row → M Domain TimeConstraint
  unfolding build_time_constraint_type_from_string
  time_constraint_of row = do
    job_name ← column row 0
    kind_text ← column row 1
    kind ← lift (build_time_constraint_type_from_string kind_text)
    value_text ← column row 2
    pure (record {
      job_name = job_name;
      kind = kind;
      value = cast_or_zero (p.cast int16 value_text);
    })

  unfoldable pub get_time_constraints : String → String → M Domain (List TimeConstraint)
  unfolding time_constraint_of
  get_time_constraints domain_name job_name = do
    rows ←
        rows_or_throw
          (concat (
            "SELECT time_c_job_name,time_c_type,TIME_TO_SEC(time_c_value) FROM time_constraint WHERE time_c_job_name = '"
            ∷ job_name ∷ "';" ∷ []))
          domain_name
    for_each rows time_constraint_of

  -- `query += rec_id` appends the character with that code.
  unfoldable pub recovery_query : ℤ → String
  recovery_query rec_id = concat (
      "SELECT rectype_id,rectype_short_label,rectype_label,rectype_action FROM recovery_type WHERE rectype_id = '"
      ∷ p.of_char rec_id
      ∷ "';"
      ∷ [])

  unfoldable pub get_recovery_type : String → ℤ → M Domain RecoveryType
  unfolding recovery_query build_rectype_action_from_string
  get_recovery_type domain_name rec_id = do
    found ← on_database (query_one_row p (recovery_query rec_id) (some domain_name))
    row ← or_throw found (ex_job "The query failed")
    id_text ← column row 0
    id ← or_throw (p.cast int id_text) (ex_processing "cannot cast ")
    short_label ← column row 1
    label ← column row 2
    action_text ← column row 3
    action ← lift (build_rectype_action_from_string action_text)
    pure (record { id = to_int16 id; short_label = short_label; label = label; action = action })

  -- The first row of `get_recovery_types` and of `get_macro_jobs`: its number is cast, and written
  -- through a null pointer.
  abbrev write_to_null : {A : Type 0} → List Row → Exception → M Domain (List A)
  write_to_null [] e = pure []
  write_to_null (row ∷ rows) e = do
    id_text ← column row 0
    id ← or_throw (p.cast int id_text) e
    undefined_behaviour

  unfoldable pub get_recovery_types : String → M Domain (List RecoveryType)
  get_recovery_types domain_name = do
    rows ←
        rows_or_throw
          "SELECT rectype_id,rectype_short_label,rectype_label,rectype_action FROM recovery_type;"
          domain_name
    write_to_null rows (ex_processing "cannot cast ")

  unfoldable pub get_macro_jobs : String → M Domain (List MacroJob)
  get_macro_jobs domain_name = do
    rows ← rows_or_throw "SELECT macro_id,macro_name FROM macro_job;" domain_name
    write_to_null rows std_exception

  -- One value of a resource row.
  unfoldable pub resource_value : String → M Domain ℤ
  resource_value text =
      if not (empty text) && is_after_null text
      then or_throw (p.cast int text) std_exception
      else throw (ex_processing (concat ("cannot cast " ∷ text ∷ " to integer" ∷ [])))

  unfoldable pub resource_of : Row → M Domain Resource
  unfolding resource_value
  resource_of row = do
    name ← column row 1
    current_text ← column row 2
    current_value ← resource_value current_text
    initial_text ← column row 3
    initial_value ← resource_value initial_text
    pure (record {
      name = name;
      current_value = to_int16 current_value;
      initial_value = to_int16 initial_value;
    })

  unfoldable pub get_resources : String → M Domain (List Resource)
  unfolding resource_of
  get_resources domain_name = do
    rows ←
        rows_or_throw
          "SELECT resource_name,resource_node_name,resource_current_value,resource_initial_value FROM resource;"
          domain_name
    for_each rows resource_of
