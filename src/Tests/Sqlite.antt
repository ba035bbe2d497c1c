-- ===== src/Tests/Sqlite.antt =====
-- The theorems on class Sqlite, run on a small library.
use open_workload_scheduler.Base.{
  String, true, false, none, some, List, [], ◌∷◌, ◌≡◌, ◌↔◌, refl, ◌==◌, not, if◌then◌else◌,
}
use open_workload_scheduler.Base.Int.{pos}
use open_workload_scheduler.Effect.{returned}
use open_workload_scheduler.Sqlite.{
  SqliteLibrary, Sqlite, handle, open_v2, exec, close, standalone_execute,
}
use open_workload_scheduler.Sqlite.Transactions.{
  Accepts, standalone_execute-Committed, standalone_execute-rolls_back,
}

-- A library that refuses "BAD;" and cannot prepare it.
abbrev library : SqliteLibrary
library = record {
  opens = λ calls. handle;
  executes = λ calls text. not (text == "BAD;");
  steps = λ calls text. if text == "BAD;" then none else some ((some "1" ∷ []) ∷ []);
  last_insert_rowid = λ calls. pos 1;
  system = λ command. pos 0;
}

abbrev fresh : Sqlite
fresh = record { db = "schd_1.db"; calls = [] }

standalone_execute-Committed_example :
    let all : List String = "BEGIN TRANSACTION;" ∷ "A;" ∷ "COMMIT;" ∷ [] in
    let (r, s') = standalone_execute library ("A;" ∷ []) fresh in
    ((r ≡ returned true) ↔ ((handle ≡ handle) × Accepts library all (open_v2 ∷ [])))
    × (r ≡ returned true
        → s' ≡ record fresh {
          calls = close ∷ exec "COMMIT;" ∷ exec "A;" ∷ exec "BEGIN TRANSACTION;" ∷ open_v2 ∷ [];
        })
standalone_execute-Committed_example = standalone_execute-Committed library ("A;" ∷ []) fresh

standalone_execute-rolls_back_example :
    standalone_execute library ("A;" ∷ "BAD;" ∷ "B;" ∷ []) fresh ≡ (
      returned false,
      record fresh {
        calls =
            close
            ∷ exec "ROLLBACK;"
            ∷ exec "BAD;"
            ∷ exec "A;"
            ∷ exec "BEGIN TRANSACTION;"
            ∷ open_v2
            ∷ [];
      },
    )
standalone_execute-rolls_back_example =
    standalone_execute-rolls_back library ("A;" ∷ []) ("B;" ∷ []) "BAD;" fresh refl
      (refl, (refl, tt)) refl
