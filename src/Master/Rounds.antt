-- ===== src/Master/Rounds.antt =====
-- src/master.cpp and src/client.cpp: which jobs a round starts.
use open_workload_scheduler.Base.{String, true, some, List, [], ◌∷◌, ◌≡◌, arith, eq_iff, ◌⊎◌}
use open_workload_scheduler.Base.Int.{ℤ, leb_ℤ}
use open_workload_scheduler.Effect.{M, returned, ◌>>◌, try_catch}
use open_workload_scheduler.Platform.{Platform}
use open_workload_scheduler.Model.{Job}
use open_workload_scheduler.Config.{Config, get_param}
use open_workload_scheduler.Domain.State.{Domain}
use open_workload_scheduler.Domain.Ready.{Gathering}
use open_workload_scheduler.Master.{
  local_waiting, is_waiting, tick, fetch, switch_if_near, skip_ex_job, start_jobs,
}

-- Every job of the list waits, on that node.
abbrev pub AllStartable : String → List Job → Type 0
AllStartable node_name [] = Unit
AllStartable node_name (j ∷ jobs) =
    (is_waiting j.state ≡ true) × (j.node_name ≡ node_name) × AllStartable node_name jobs

local_waiting-AllStartable :
    (node_name : String) (jobs : List Job) → AllStartable node_name (local_waiting node_name jobs)
unfolding local_waiting
local_waiting-AllStartable n [] = tt
local_waiting-AllStartable n (j ∷ jobs) =
    ground (arith, local_waiting-AllStartable n jobs, eq_iff j.node_name n)

-- The first list begins the second.
abbrev pub IsPrefix : List Job → List Job → Type 0
IsPrefix [] m = Unit
IsPrefix (j ∷ l) [] = ⊥
IsPrefix (j ∷ l) (k ∷ m) = (j ≡ k) × IsPrefix l m

-- The step takes no job out of the vector, however it ends.
abbrev Grows : {A : Type 0} → M Gathering A → Type 0
Grows m = (g : Gathering) → IsPrefix g.jobs (m g).1.jobs

module _ (p : Platform) (c : Config) where
  start_jobs-AllStartable :
      (now : ℤ) (n : String) (jobs : List Job) (g : Gathering)
      → get_param "node_name" c ≡ some n
      → (start_jobs p c now g).0 ≡ returned jobs
      → let g' = (start_jobs p c now g).1 in
        AllStartable n jobs × ((leb_ℤ g'.domain.planning_start_time now ≡ true) ⊎ (jobs ≡ []))
  unfolding start_jobs
  start_jobs-AllStartable now n jobs g named started =
      ground (arith, local_waiting-AllStartable n g.jobs)

  -- With a node name configured, the jobs that a round of the master starts are all waiting and all
  -- of that node, and it starts none if at its end the planning starts later than the time read at
  -- its beginning.
  pub tick-AllStartable :
      (now time time' : ℤ) (g : Gathering) (n : String) (jobs : List Job)
      → get_param "node_name" c ≡ some n
      → (tick p c now time time' g).0 ≡ returned jobs
      → let g' = (tick p c now time time' g).1 in
        AllStartable n jobs × ((leb_ℤ g'.domain.planning_start_time now ≡ true) ⊎ (jobs ≡ []))
  unfolding tick
  tick-AllStartable now time time' g n jobs named started =
      let fresh : Gathering = record g { jobs = [] } in
      ground (
        arith,
        start_jobs-AllStartable now n jobs
            (try_catch (fetch p c now >> switch_if_near p c now time time') skip_ex_job fresh).1
            named,
      )
