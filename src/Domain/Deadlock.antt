-- ===== src/Domain/Deadlock.antt =====
-- src/domain.cpp: what the updates do once an update has thrown under `updates_mutex`.
use open_workload_scheduler.Base.{
  String, Bool, true, false, Option, some, List, [], ◌∷◌, ◌≡◌, refl, arith, ◌⊎◌, inl,
}
use open_workload_scheduler.Effect.{Exception, Outcome, returned, thrown, blocked}
use open_workload_scheduler.Platform.{Platform}
use open_workload_scheduler.Domain.State.{Domain, locked_execute}
use open_workload_scheduler.Domain.Insertions.{
  add_node_by_name, add_weighted_node, add_resource, add_job,
}
use open_workload_scheduler.Domain.Updates.{
  job_state_query, timed_job_state_query, update_job, remove_job_by_name, update_job_state,
  update_timed_job_state,
}
use open_workload_scheduler.Domain.Mutex.{
  Update, node_name, weighted_node, resource, new_job, changed_job, removed_job, job_state,
  timed_job_state, perform, perform-Leaves, lock_held,
}

module _ (p : Platform) where
  locked_execute-blocked :
      (queries : List String) (name : Option String) (d : Domain)
      → d.is_locked ≡ true
      → locked_execute p queries name d ≡ (blocked, d)
  unfolding locked_execute
  locked_execute-blocked queries name d held = ground (arith, lock_held p d held)

  -- What an update that finds the mutex held does: it waits for ever, or gives up at once.
  abbrev pub HasNoEffect : Outcome Bool × Domain → Domain → Type 0
  HasNoEffect (r, d') d = ((r ≡ blocked) ⊎ (r ≡ returned false)) × (d' ≡ d)

  pub perform-HasNoEffect :
      (u : Update) (d : Domain) → d.is_locked ≡ true → HasNoEffect (perform p u d) d
  unfolding perform add_node_by_name add_weighted_node add_resource add_job update_job
      remove_job_by_name update_job_state update_timed_job_state
  perform-HasNoEffect (node_name domain_name n) d held =
      rw (locked_execute-blocked _ _ d held) (inl refl, refl)
  perform-HasNoEffect (weighted_node domain_name n w) d held =
      rw (locked_execute-blocked _ _ d held) (inl refl, refl)
  perform-HasNoEffect (resource domain_name r n) d held =
      rw (locked_execute-blocked _ _ d held) (inl refl, refl)
  perform-HasNoEffect (new_job domain_name j) d held = ground (arith, lock_held p d held)
  perform-HasNoEffect (changed_job j) d held =
      rw (locked_execute-blocked _ _ d held) (inl refl, refl)
  perform-HasNoEffect (removed_job domain_name n) d held =
      rw (locked_execute-blocked _ _ d held) (inl refl, refl)
  perform-HasNoEffect (job_state domain_name node n js) d held =
      ground (arith, locked_execute-blocked (job_state_query p n js ∷ []) (some domain_name) d held)
  perform-HasNoEffect (timed_job_state domain_name node n js t t') d held = ground (
    arith,
    locked_execute-blocked (timed_job_state_query p n js t t' ∷ []) (some domain_name) d held,
  )

  -- The domain after a series of updates, each by a thread of its own.
  unfoldable pub perform_all : List Update → Domain → Domain
  perform_all [] d = d
  perform_all (u ∷ us) d = perform_all us (perform p u d).1

  perform_all_held : (us : List Update) (d : Domain) → d.is_locked ≡ true → perform_all us d ≡ d
  unfolding perform_all
  perform_all_held [] d held = refl
  perform_all_held (u ∷ us) d held =
      let same = (perform-HasNoEffect u d held).1 in rw same (perform_all_held us d held)

  -- After one of the eight updates of the domain that run one transaction (all but remove_node, and
  -- add_node with a whole node) found the mutex free and threw, no series of further ones of these
  -- changes the domain or reaches the database: the mutex is never released.
  pub perform_all_after_throw :
      (u : Update) (us : List Update) (e : Exception) (d : Domain)
      → d.is_locked ≡ false
      → (perform p u d).0 ≡ thrown e
      → perform_all us (perform p u d).1 ≡ (perform p u d).1
  perform_all_after_throw u us e d free raised =
      perform_all_held us (perform p u d).1 (ground (arith, perform-Leaves p u d free))
