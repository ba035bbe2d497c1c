-- ===== src/Threads/Journal.antt =====
-- src/domain.cpp under several threads: what their updates leave in the database.
use mathlib.Core.List.{append_assoc, append-nil}
use open_workload_scheduler.Base.{
  String, Bool, true, false, some, List, [], ◌∷◌, ◌++◌, ◌≡◌, sym, ap, subst, ◌∙◌,
}
use open_workload_scheduler.Effect.{returned}
use open_workload_scheduler.Platform.{Platform, Call}
use open_workload_scheduler.Database.Journal.{
  Transaction, Journal, IsTransactional, AllPlain, AllOrNothing,
}
use open_workload_scheduler.Domain.State.{Domain}
use open_workload_scheduler.Domain.Mutex.{Update, perform}
use open_workload_scheduler.Domain.Atomicity.{statements, schema}
use open_workload_scheduler.Domain.Journal.{AllRead, perform-AllOrNothing}
use open_workload_scheduler.Threads.Order.{InTurn, nothing, called, shifted, performed}

module _ (p : Platform) (IsPlain IsRead : String → Type 0) (view : List Call → Journal)
    (t : IsTransactional p IsPlain IsRead view) where
  -- The updates are plain, and the reads in between commit nothing.
  abbrev pub IsQuiet : {d : Domain} {us : List Update} {d' : Domain} → InTurn p d us d' → Type 0
  IsQuiet nothing = Unit
  IsQuiet (called us d' calls before) = ((view calls).log ≡ (view d'.calls).log) × IsQuiet before
  IsQuiet (shifted us d' time before) = IsQuiet before
  IsQuiet (performed us d' u b before free done) =
      AllRead p IsPlain IsRead view t u × AllPlain IsPlain (statements p u) × IsQuiet before

  -- One transaction for each update that returned true.
  abbrev pub transactions :
      {d : Domain} {us : List Update} {d' : Domain} → InTurn p d us d' → List Transaction
  transactions nothing = []
  transactions (called us d' calls before) = transactions before
  transactions (shifted us d' time before) = transactions before
  transactions (performed us d' u true before free done) =
      transactions before ++ record { schema = some (schema p u); statements = statements p u } ∷ []
  transactions (performed us d' u false before free done) = transactions before

  performed-log :
      (u : Update) (b : Bool) (d : Domain)
      → d.is_locked ≡ false
      → (perform p u d).0 ≡ returned b
      → AllRead p IsPlain IsRead view t u
      → AllPlain IsPlain (statements p u)
      → AllOrNothing p
          (some (schema p u))
          (statements p u)
          (view d.calls).log
          (returned b)
          (view (perform p u d).1.calls).log
  performed-log u b d free done read plain =
      subst
        (λ r.
          AllOrNothing p (some (schema p u)) (statements p u) (view d.calls).log r
            (view (perform p u d).1.calls).log)
        done (perform-AllOrNothing p IsPlain IsRead view t u d free read plain)

  -- On a server with the documented behaviour of transactions, where updates with plain statements
  -- took effect one after the other, each having found the mutex free and returned, with only moves
  -- of the start time and calls that commit nothing in between, the committed transactions are
  -- those from before and then one for each update that returned true, in the order in which they
  -- returned.
  pub log-transactions :
      {d : Domain} {us : List Update} {d' : Domain} (i : InTurn p d us d')
      → IsQuiet i
      → (view d'.calls).log ≡ (view d.calls).log ++ transactions i
  log-transactions {d} nothing q = sym (append-nil (view d.calls).log)
  log-transactions (called us d' calls before) q = q.0 ∙ log-transactions before q.1
  log-transactions (shifted us d' time before) q = log-transactions before q
  log-transactions {d} (performed us d' u true before free done) q =
      performed-log u true d' free done q.0 q.1
      ∙ ap (λ l. l ++ record { schema = some (schema p u); statements = statements p u } ∷ [])
          (log-transactions before q.2)
      ∙ append_assoc (view d.calls).log (transactions before)
          (record { schema = some (schema p u); statements = statements p u } ∷ [])
  log-transactions (performed us d' u false before free done) q =
      performed-log u false d' free done q.0 q.1 ∙ log-transactions before q.2
