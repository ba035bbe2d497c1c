-- ===== src/Threads/Order.antt =====
-- src/domain.cpp under several threads: the updates take effect one after the other.
use open_workload_scheduler.Base.Int.{ℤ}
use open_workload_scheduler.Base.{
  Bool, true, false, Option, none, some, List, [], ◌∷◌, ◌++◌, ◌≡◌, refl, arith, ap, sym, ◌∙◌, ◌||◌,
  subst,
}
use open_workload_scheduler.Effect.{returned}
use open_workload_scheduler.Platform.{Platform, Call}
use open_workload_scheduler.Domain.State.{Domain}
use open_workload_scheduler.Domain.Mutex.{Update, perform, perform-Leaves}
use open_workload_scheduler.Threads.{
  Shared, unlocked, Step, arrives, acquires, declines, returns, throws, reads, moves, Steps, here,
  then, start,
}

abbrev is_some : Option Update → Bool
is_some none = false
is_some (some u) = true

-- One thread holds the mutex, or one has died with it, and not both; else it is free.
pub record IsGuarded (w : Shared) : Type 0 where
  pub held : w.domain.is_locked ≡ (is_some w.holder || w.has_thrown)
  pub one : (u : Update) → w.holder ≡ some u → w.has_thrown ≡ false

module _ (p : Platform) where
  pub Step-IsGuarded : {w w' : Shared} → Step p w w' → IsGuarded w → IsGuarded w'
  Step-IsGuarded (arrives u w) g = record { held = g.held; one = g.one }
  Step-IsGuarded (acquires before after u w queued free) g = record {
    held = refl;
    one = λ v e. ground (arith, g.held);
  }
  Step-IsGuarded (declines before after u b w queued held same) g = record {
    held = g.held;
    one = g.one;
  }
  Step-IsGuarded (returns u b w holds done) g = record {
    held = ground (arith, g.one u holds, perform-Leaves p u (unlocked w.domain) refl);
    one = λ v e. ground arith;
  }
  Step-IsGuarded (throws u e w holds raised) g = record {
    held = ground (arith, perform-Leaves p u (unlocked w.domain) refl);
    one = λ v e. ground arith;
  }
  Step-IsGuarded (reads m w kept) g = record {
    held = ap (λ d. d.is_locked) (kept.at w.domain) ∙ g.held;
    one = g.one;
  }
  Step-IsGuarded (moves time w) g = record { held = g.held; one = g.one }

  pub Steps-IsGuarded : {w w' : Shared} → Steps p w w' → IsGuarded w → IsGuarded w'
  Steps-IsGuarded (here w) g = g
  Steps-IsGuarded (then before step) g = Step-IsGuarded step (Steps-IsGuarded before g)

  start-IsGuarded : (d : Domain) → IsGuarded (start d)
  start-IsGuarded d = record { held = refl; one = λ u e. refl }

  -- Under any interleaving of threads from a free mutex, the mutex is held if and only if a thread
  -- runs an update under it or an update has thrown, and while a thread runs one, none has thrown.
  pub Steps-guard : (d : Domain) (w : Shared) → Steps p (start d) w → IsGuarded w
  Steps-guard d w steps = Steps-IsGuarded steps (start-IsGuarded d)

  pub no_throw : true ≡ false → ⊥
  no_throw h = ground arith

  -- The updates in that order, each of which found the mutex free and returned; in between there are
  -- only calls of reads and moves of the start time.
  pub data InTurn (d : Domain) : List Update → Domain → Type 0 where
    nothing : InTurn d [] d
    called :
        (us : List Update) (d' : Domain) (calls : List Call)
        → InTurn d us d'
        → InTurn d us (record d' { calls = calls })
    shifted :
        (us : List Update) (d' : Domain) (time : ℤ)
        → InTurn d us d'
        → InTurn d us (record d' { planning_start_time = time })
    performed :
        (us : List Update) (d' : Domain) (u : Update) (b : Bool)
        → InTurn d us d'
        → d'.is_locked ≡ false
        → (perform p u d').0 ≡ returned b
        → InTurn d (us ++ u ∷ []) (perform p u d').1

  Step-InTurn :
      {w w' : Shared} (d : Domain)
      → Step p w w'
      → IsGuarded w
      → (w.has_thrown ≡ false → InTurn d w.ended (unlocked w.domain))
      → w'.has_thrown ≡ false
      → InTurn d w'.ended (unlocked w'.domain)
  Step-InTurn d (arrives u w) g t ok = t ok
  Step-InTurn d (acquires before after u w queued free) g t ok = t ok
  Step-InTurn d (declines before after u b w queued held same) g t ok = t ok
  Step-InTurn d (returns u b w holds done) g t ok =
      let d' : Domain = (perform p u (unlocked w.domain)).1 in
      let free : d'.is_locked ≡ false =
        ground (arith, perform-Leaves p u (unlocked w.domain) refl) in
      subst (InTurn d (w.ended ++ u ∷ [])) (ap (λ x. record d' { is_locked = x }) free)
        (performed w.ended (unlocked w.domain) u b (t ok) refl done)
  Step-InTurn d (throws u e w holds raised) g t ok = elim (no_throw ok) [ ]
  Step-InTurn d (reads m w kept) g t ok =
      let calls : List Call = (m w.domain).1.calls in
      subst (InTurn d w.ended)
        (ap {A = Domain} (λ x. record x { is_locked = false; calls = calls })
          (sym (kept.at w.domain)))
        (called w.ended (unlocked w.domain) calls (t ok))
  Step-InTurn d (moves time w) g t ok = shifted w.ended (unlocked w.domain) time (t ok)

  Steps-InTurn :
      {w w' : Shared} (d : Domain)
      → Steps p w w'
      → IsGuarded w
      → (w.has_thrown ≡ false → InTurn d w.ended (unlocked w.domain))
      → w'.has_thrown ≡ false
      → InTurn d w'.ended (unlocked w'.domain)
  Steps-InTurn d (here w) g t = t
  Steps-InTurn d (then before step) g t =
      Step-InTurn d step (Steps-IsGuarded before g) (Steps-InTurn d before g t)

  -- Under any interleaving of threads that share one domain, as long as no update has thrown, the
  -- domain, its mutex aside, is what the updates that have returned make of it one after the other,
  -- in the order in which they returned, each having found the mutex free, with only calls of reads
  -- and moves of the start time in between.
  pub threads-InTurn :
      (d : Domain) (w : Shared)
      → Steps p (start d) w
      → w.has_thrown ≡ false
      → InTurn (unlocked d) w.ended (unlocked w.domain)
  threads-InTurn d w steps = Steps-InTurn (unlocked d) steps (start-IsGuarded d) (λ ok. nothing)
