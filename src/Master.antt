-- ===== src/Master.antt =====
-- src/master.cpp and src/client.cpp: one round of the loops that start the ready jobs. A round ends
-- with `sleep(60)`. The threads of the jobs are not modelled: a round of the master gives the jobs it
-- starts.
pub mod Rounds
pub mod Frame
use open_workload_scheduler.Base.{
  String, Bool, true, false, Option, none, some, List, [], ◌∷◌, ◌&&◌, ◌==◌, if◌then◌else◌,
}
use open_workload_scheduler.Base.Int.{ℤ, pos, leb_ℤ, ◌-ℤ◌}
use open_workload_scheduler.Effect.{
  M, Exception, ex_job, ◌>>=◌, ◌>>◌, pure, throw, try_catch, gets, modify, deref,
  undefined_behaviour,
}
use open_workload_scheduler.Platform.{Platform}
use open_workload_scheduler.Model.{JobState, waiting, Job}
use open_workload_scheduler.Config.{Config, RunningMode, p2p, active, passive, get_param}
use open_workload_scheduler.Domain.State.{Domain, get_next_planning_start_time}
use open_workload_scheduler.Domain.Planning.{switch_planning}
use open_workload_scheduler.Domain.Ready.{Gathering, on_gathering, get_ready_jobs}

abbrev pub is_waiting : JobState → Bool
is_waiting waiting = true
is_waiting _ = false

-- The jobs of the vector that get a thread: those that wait, on this node.
unfoldable pub local_waiting : String → List Job → List Job
local_waiting node_name [] = []
local_waiting node_name (j ∷ jobs) =
    if is_waiting j.state && (j.node_name == node_name)
    then j ∷ local_waiting node_name jobs
    else local_waiting node_name jobs

-- `catch ( const rpc::ex_job& e )`: logged, and the round goes on.
abbrev pub skip_ex_job : Exception → M Gathering (Unit {0})
skip_ex_job (ex_job msg) = pure tt
skip_ex_job e = throw e

abbrev pub is_empty : List Job → Bool
is_empty [] = true
is_empty (j ∷ jobs) = false

-- The node whose jobs are asked for: all nodes in `PASSIVE`.
abbrev pub asked_node : Config → RunningMode → M Gathering (Option String)
asked_node c passive = pure none
asked_node c active = deref (get_param "node_name" c) >>= λ n. pure (some n)
asked_node c p2p = deref (get_param "node_name" c) >>= λ n. pure (some n)

module _ (p : Platform) (c : Config) where
  -- The ready jobs, once the planning has started.
  unfoldable pub fetch : ℤ → M Gathering (Unit {0})
  unfolding get_ready_jobs
  fetch now = do
    start ← gets (λ g. g.domain.planning_start_time)
    if leb_ℤ start now
        then (deref c.running_mode >>= asked_node c >>= λ node. get_ready_jobs p node)
        else pure tt

  -- The next planning is set in the last minute before it starts.
  unfoldable pub switch_if_near : ℤ → ℤ → ℤ → M Gathering (Unit {0})
  unfolding switch_planning get_next_planning_start_time
  switch_if_near now time time' = do
    next ← gets (λ g. get_next_planning_start_time g.domain time)
    if leb_ℤ (next -ℤ now) (pos 60)
        then on_gathering (switch_planning p c time') >> pure tt
        else pure tt

  -- The jobs that get a thread, once the planning has started.
  unfoldable pub start_jobs : ℤ → M Gathering (List Job)
  unfolding local_waiting
  start_jobs now = do
    start ← gets (λ g. g.domain.planning_start_time)
    jobs ← gets (λ g. g.jobs)
    if leb_ℤ start now
        then if is_empty jobs
          then pure []
          else (deref (get_param "node_name" c) >>= λ n. pure (local_waiting n jobs))
        else pure []

  -- One round of the master, which reads the clock three times: the jobs that it starts. Its vector is
  -- declared inside the loop, and cleared at the end.
  unfoldable pub tick : ℤ → ℤ → ℤ → M Gathering (List Job)
  unfolding fetch switch_if_near start_jobs
  tick now time time' = do
    modify (λ g. record g { jobs = [] })
    try_catch (fetch now >> switch_if_near now time time') skip_ex_job
    started ← start_jobs now
    modify (λ g. record g { jobs = [] })
    pure started

  -- One round of the client in `ACTIVE`. Each thread gets the address of the loop's own copy of a job,
  -- which ends with the turn of the loop: with a job in the vector, the round is undefined.
  unfoldable pub client_tick : M Gathering (Unit {0})
  unfolding get_ready_jobs
  client_tick = do
    n ← deref (get_param "node_name" c)
    get_ready_jobs p (some n)
    jobs ← gets (λ g. g.jobs)
    if is_empty jobs then pure tt else undefined_behaviour
