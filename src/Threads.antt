-- ===== src/Threads.antt =====
-- src/domain.cpp under several threads: those of the jobs, of the server and of `main` share one domain,
-- and `updates_mutex` orders their updates: that it excludes the others from `lock` to `unlock` is built
-- into the steps, so that a thread that holds the mutex runs its update in one step;
-- the reads and the move of the start time, which take no mutex, stand between the steps.
pub mod Order
pub mod Progress
pub mod Journal
use open_workload_scheduler.Base.Int.{ℤ}
use open_workload_scheduler.Base.{Bool, true, false, Option, none, some, List, [], ◌∷◌, ◌++◌, ◌≡◌}
use open_workload_scheduler.Effect.{M, Exception, returned, thrown}
use open_workload_scheduler.Effect.Keeps.{Keeps}
use open_workload_scheduler.Platform.{Platform, Call}
use open_workload_scheduler.Domain.State.{Domain}
use open_workload_scheduler.Domain.Frame.{attributes}
use open_workload_scheduler.Domain.Mutex.{Update, perform}

-- The domain, the updates whose threads wait for the mutex, the one whose thread holds it, those that
-- have returned, in that order, and whether one has thrown.
pub record Shared : Type 0 where
  pub domain : Domain
  pub queue : List Update
  pub holder : Option Update
  pub ended : List Update
  pub has_thrown : Bool

-- The domain as `lock` finds it, and as it leaves it.
abbrev pub unlocked : Domain → Domain
unlocked d = record d { is_locked = false }

abbrev pub locked : Domain → Domain
locked d = record d { is_locked = true }

-- What one thread does next.
pub data Step (p : Platform) : Shared → Shared → Type 1 where
  -- an update is called
  arrives : (u : Update) (w : Shared) → Step p w (record w { queue = w.queue ++ u ∷ [] })
  -- a thread gets the mutex
  acquires :
      (before after : List Update) (u : Update) (w : Shared)
      → w.queue ≡ before ++ u ∷ after
      → w.domain.is_locked ≡ false
      → Step p w (record w { domain = locked w.domain; queue = before ++ after; holder = some u })
  -- an update that needs no mutex returns while another thread holds it
  declines :
      (before after : List Update) (u : Update) (b : Bool) (w : Shared)
      → w.queue ≡ before ++ u ∷ after
      → w.domain.is_locked ≡ true
      → perform p u w.domain ≡ (returned b, w.domain)
      → Step p w (record w { queue = before ++ after })
  -- the thread with the mutex runs its update to the end, which releases the mutex
  returns :
      (u : Update) (b : Bool) (w : Shared)
      → w.holder ≡ some u
      → (perform p u (unlocked w.domain)).0 ≡ returned b
      → Step p w (record w {
        domain = (perform p u (unlocked w.domain)).1;
        holder = none;
        ended = w.ended ++ u ∷ [];
      })
  -- or to an exception
  throws :
      (u : Update) (e : Exception) (w : Shared)
      → w.holder ≡ some u
      → (perform p u (unlocked w.domain)).0 ≡ thrown e
      → Step p w (record w {
        domain = (perform p u (unlocked w.domain)).1;
        holder = none;
        has_thrown = true;
      })
  -- a read, which changes no attribute
  reads :
      {A : Type 0} (m : M Domain A) (w : Shared)
      → Keeps attributes m
      → Step p w (record w { domain = (m w.domain).1 })
  -- `switch_planning` writes the start time, for which it takes no mutex
  moves :
      (time : ℤ) (w : Shared)
      → Step p w (record w { domain = record w.domain { planning_start_time = time } })

-- Any number of steps.
pub data Steps (p : Platform) : Shared → Shared → Type 1 where
  here : (w : Shared) → Steps p w w
  then : {w w' w'' : Shared} → Steps p w w' → Step p w' w'' → Steps p w w''

-- The threads before the first update.
abbrev pub start : Domain → Shared
start d = record { domain = unlocked d; queue = []; holder = none; ended = []; has_thrown = false }
