-- ===== src/Database/Journal.antt =====
-- src/database.cpp: what the transactions of `standalone_execute` are to leave in the database, as
-- the list of the committed ones.
pub mod Statements
pub mod Refinement
use open_workload_scheduler.Base.{
  String, Bool, true, false, Option, none, some, List, [], ◌∷◌, ◌++◌, ◌≡◌, refl, ap, arith, ◌⊎◌,
  inl, inr, ◌∙◌, Bool-cases, if◌then◌else◌, ◌||◌, empty,
}
use mathlib.Core.List.{append_assoc, append-nil}
use open_workload_scheduler.Effect.{
  Outcome, Outcome-cases, Exception, returned, thrown, undefined, blocked, ex_processing, M, ◌>>=◌,
  ◌>>◌, pure, try_catch,
}
use open_workload_scheduler.Platform.{
  Platform, Call, connect, lost_connect, query, close, Answer, failure, result_set, no_result,
  lost_result,
}
use open_workload_scheduler.Database.{
  atomic_execute, execute_all, standalone_execute, commit, init, end, end_and_rethrow, executed,
  mysql_query,
}
use open_workload_scheduler.Database.Ends.{IsRelease}
use open_workload_scheduler.Database.Transactions.{start_text, init_connected}

pub record Transaction : Type 0 where
  pub schema : Option String
  pub statements : List String

-- What the server keeps: the schema of the newest connection, the statements of its open
-- transaction, and the committed transactions.
pub record Journal : Type 0 where
  pub schema : Option String
  pub pending : Option (List String)
  pub log : List Transaction

abbrev pub accepts : Answer → Bool
accepts (failure error) = false
accepts (result_set rows) = true
accepts no_result = true
accepts lost_result = true

-- What MySQL documents of transactions, for a server whose journal is `view`. `IsPlain` tells the
-- statements that neither begin nor end a transaction, by themselves or implicitly, and `IsRead` those
-- that change nothing.
pub record IsTransactional (p : Platform) (IsPlain IsRead : String → Type 0)
    (view : List Call → Journal) : Type 0 where
  pub connects :
      (name : Option String) (calls : List Call)
      → view (connect name ∷ calls)
        ≡ record { schema = name; pending = none; log = (view calls).log }
  pub closes : (calls : List Call) → (view (close ∷ calls)).log ≡ (view calls).log
  pub connects_not :
      (name : Option String) (calls : List Call)
      → (view (lost_connect name ∷ calls)).log ≡ (view calls).log
  pub refuses :
      (q : String) (calls : List Call)
      → IsPlain q
      → accepts (p.answers calls q) ≡ false
      → (view (query q ∷ calls)).log ≡ (view calls).log
  pub refuses_start :
      (calls : List Call)
      → accepts (p.answers calls start_text) ≡ false
      → (view calls).pending ≡ none
      → (view (query start_text ∷ calls)).log ≡ (view calls).log
  -- A COMMIT without a good answer, such as one whose connection is lost, took place or did not.
  pub refuses_commit :
      (calls : List Call) (l : List String)
      → accepts (p.answers calls "COMMIT;") ≡ false
      → (view calls).pending ≡ some l
      → ((view (query "COMMIT;" ∷ calls)).log ≡ (view calls).log)
        ⊎ ((view (query "COMMIT;" ∷ calls)).log
            ≡ (view calls).log ++ record { schema = (view calls).schema; statements = l } ∷ [])
  pub starts :
      (calls : List Call)
      → accepts (p.answers calls start_text) ≡ true
      → (view calls).pending ≡ none
      → view (query start_text ∷ calls) ≡ record (view calls) { pending = some [] }
  pub performs :
      (q : String) (calls : List Call) (l : List String)
      → IsPlain q
      → accepts (p.answers calls q) ≡ true
      → (view calls).pending ≡ some l
      → view (query q ∷ calls) ≡ record (view calls) { pending = some (l ++ q ∷ []) }
  pub commits :
      (calls : List Call) (l : List String)
      → accepts (p.answers calls "COMMIT;") ≡ true
      → (view calls).pending ≡ some l
      → (view (query "COMMIT;" ∷ calls)).log
        ≡ (view calls).log ++ record { schema = (view calls).schema; statements = l } ∷ []
  pub reads :
      (q : String) (calls : List Call) → IsRead q → (view (query q ∷ calls)).log ≡ (view calls).log
  pub rolls_back : (calls : List Call) → (view (query "ROLLBACK;" ∷ calls)).log ≡ (view calls).log

abbrev pub AllPlain : (String → Type 0) → List String → Type 0
AllPlain IsPlain [] = Unit
AllPlain IsPlain (q ∷ queries) = IsPlain q × AllPlain IsPlain queries

abbrev pub extended : Option String → List String → List Transaction → List Transaction
extended name l base = base ++ record { schema = name; statements = l } ∷ []

-- A transaction took place as a whole or not at all, and by how the call ends: an exception tells
-- not which. Only a debug build, which fetches the results, can leave the language.
abbrev pub AllOrNothing :
    Platform
    → Option String
    → List String
    → List Transaction
    → Outcome Bool
    → List Transaction
    → Type 0
AllOrNothing p name queries base (returned true) log = log ≡ extended name queries base
AllOrNothing p name queries base (returned false) log = log ≡ base
AllOrNothing p name queries base (thrown e) log = (log ≡ base) ⊎ (log ≡ extended name queries base)
AllOrNothing p name queries base undefined log = ¬ IsRelease p
AllOrNothing p name queries base blocked log = ⊥

abbrev pub within : Option String → List String → List Transaction → Journal
within name l base = record { schema = name; pending = some l; log = base }
