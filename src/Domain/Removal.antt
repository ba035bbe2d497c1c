-- ===== src/Domain/Removal.antt =====
-- src/domain.cpp: `remove_node`, which reads the node and removes its jobs first.
use open_workload_scheduler.Base.{String, Bool, false, some, [], ◌∷◌, concat, not, if◌then◌else◌}
use open_workload_scheduler.Effect.{M, ◌>>=◌, pure, all_of}
use open_workload_scheduler.Platform.{Platform}
use open_workload_scheduler.Model.{new_node}
use open_workload_scheduler.Domain.State.{Domain, locked_execute}
use open_workload_scheduler.Domain.Updates.{remove_job}
use open_workload_scheduler.Domain.Reads.{get_node}

module _ (p : Platform) where
  unfoldable pub remove_node : String → String → M Domain Bool
  unfolding get_node remove_job
  remove_node domain_name n = do
    node_to_remove ← get_node p domain_name new_node n
    removed ← all_of node_to_remove.jobs (remove_job p)
    if not removed
        then pure false
        else locked_execute p (concat ("DELETE FROM node WHERE node_name='" ∷ n ∷ "';" ∷ []) ∷ [])
            (some domain_name)
