-- ===== src/Startup/Daemon.antt =====
-- src/client.cpp and src/master.cpp: `daemonize` and `signal_handler`. The two programs declare the same
-- functions, and call neither.
use open_workload_scheduler.Base.{ℕ, zero, suc, String, List, [], ◌∷◌, ◌++◌}
use open_workload_scheduler.Base.Int.{ℤ, pos, negsuc}

pub data Signal : Type 0 where
  sigchld sigtstp sigttou sigttin sighup sigterm : Signal
  other : ℕ → Signal

-- What a signal is set to.
pub data Disposition : Type 0 where
  ignored handled : Disposition

-- What the process asks of the system.
pub data SystemCall : Type 0 where
  setsid log_shutdown : SystemCall
  close : ℕ → SystemCall
  chdir : String → SystemCall
  write_pid : String → SystemCall
  signal : Signal → Disposition → SystemCall

-- The calls in their order, and the exit status if the process ends.
pub data Run : Type 0 where
  goes_on : List SystemCall → Run
  exits : ℕ → List SystemCall → Run

-- `signal_handler`
unfoldable pub signal_handler : Signal → Run
signal_handler sigterm = exits 0 (log_shutdown ∷ [])
signal_handler _ = goes_on []

-- The loop over the descriptors, from the size of the table down to 0.
unfoldable pub close_all : ℕ → List SystemCall
close_all zero = close 0 ∷ []
close_all (suc n) = close (suc n) ∷ close_all n

-- `daemonize` with what `fork` and `getdtablesize` give; the latter is not negative.
unfoldable pub daemonize : ℤ → ℕ → String → Run
unfolding close_all
daemonize (negsuc n) table_size lock_file = exits 1 []
daemonize (pos (suc n)) table_size lock_file = exits 0 []
daemonize (pos zero) table_size lock_file = goes_on (
    setsid
    ∷ (close_all table_size
        ++ (chdir "/tmp"
            ∷ write_pid lock_file
            ∷ signal sigchld ignored
            ∷ signal sigtstp ignored
            ∷ signal sigttou ignored
            ∷ signal sigttin ignored
            ∷ signal sighup handled
            ∷ signal sigterm handled
            ∷ [])))
