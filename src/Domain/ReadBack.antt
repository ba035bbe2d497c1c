-- ===== src/Domain/ReadBack.antt =====
-- src/domain.cpp: what get_jobs makes of the row of a job.
use open_workload_scheduler.Base.{
  ℕ, ◌<◌, String, some, List, [], ◌∷◌, ◌≡◌, refl, arith, sym, ap, ◌∙◌,
}
use open_workload_scheduler.Base.Int.{ℤ, pos, to_int16}
use open_workload_scheduler.Effect.{M, returned, ◌>>=◌, pure}
use open_workload_scheduler.Effect.Yields.{Yields, Yields-bind, Yields-pure}
use open_workload_scheduler.Platform.{Platform, int}
use open_workload_scheduler.Model.{Job, TimeConstraint, RecoveryType, new_job}
use open_workload_scheduler.Convertions.{build_string_from_job_state}
use open_workload_scheduler.Convertions.RoundTrip.{text_of_job_state}
use open_workload_scheduler.Database.{Row}
use open_workload_scheduler.Domain.State.{Domain}
use open_workload_scheduler.Domain.Reads.{job_of, time_of, recovery_of}
use open_workload_scheduler.Domain.Rows.{get_jobs_next, get_time_constraints}

-- What a job that was read back has of the one that was written; the jobs before it are never read.
pub record IsReadBack (j : Job) (owner : String) (k : Job) : Type 0 where
  pub name : k.name ≡ j.name
  pub cmd_line : k.cmd_line ≡ j.cmd_line
  pub node_name : k.node_name ≡ j.node_name
  pub weight : k.weight ≡ j.weight
  pub state : k.state ≡ j.state
  pub domain : k.domain ≡ owner
  pub prv : k.prv ≡ []

to_int16_small : (w : ℕ) → w < 32768 → to_int16 (pos w) ≡ pos w
unfolding to_int16
to_int16_small w small = ground arith

module _ (p : Platform) where
  -- The columns that get_jobs asks for, of the row of that job.
  abbrev pub row_of : Job → String → String → String → Row
  row_of j recovery start stop =
      j.name
      ∷ j.cmd_line
      ∷ j.node_name
      ∷ p.to_string j.weight
      ∷ build_string_from_job_state j.state
      ∷ recovery
      ∷ start
      ∷ stop
      ∷ []

  -- What job_of does behind the state of that job.
  abbrev rest : String → Job → String → String → String → String → M Domain Job
  rest domain_name j owner recovery start stop = do
    start_time ← time_of p start
    stop_time ← time_of p stop
    nxt ← get_jobs_next p domain_name j.name
    time_constraints ← get_time_constraints p domain_name j.name
    recovery_type ← recovery_of p domain_name recovery
    pure (record new_job {
      start_time = start_time;
      stop_time = stop_time;
      state = j.state;
      name = j.name;
      node_name = j.node_name;
      domain = owner;
      cmd_line = j.cmd_line;
      weight = to_int16 j.weight;
      nxt = nxt;
      time_constraints = time_constraints;
      recovery_type = recovery_type;
    })

  job_of-rest :
      (domain_name : String) (j : Job) (recovery start stop : String) (d : Domain)
      → p.cast int (p.to_string j.weight) ≡ some j.weight
      → job_of p domain_name (row_of j recovery start stop) d
        ≡ rest domain_name j d.name recovery start stop d
  unfolding job_of
  job_of-rest domain_name j recovery start stop d cast = rw (cast, text_of_job_state j.state) refl

  rest-Yields :
      (domain_name owner : String) (j : Job) (recovery start stop : String)
      → to_int16 j.weight ≡ j.weight
      → Yields (IsReadBack j owner) (rest domain_name j owner recovery start stop)
  rest-Yields domain_name owner j recovery start stop kept =
      let back : (start_time stop_time : ℤ) (nxt : List String) (tcs : List TimeConstraint)
            (r : RecoveryType)
          → IsReadBack j owner (record new_job {
            start_time = start_time;
            stop_time = stop_time;
            state = j.state;
            name = j.name;
            node_name = j.node_name;
            domain = owner;
            cmd_line = j.cmd_line;
            weight = to_int16 j.weight;
            nxt = nxt;
            time_constraints = tcs;
            recovery_type = r;
          }) =
        λ a b c d e. record {
          name = refl;
          cmd_line = refl;
          node_name = refl;
          weight = kept;
          state = refl;
          domain = refl;
          prv = refl;
        } in
      search (Yields-bind, Yields-pure, back) depth 30 fits 2000

  -- If lexical_cast reads the text of a job's weight as that weight, which is not negative and fits
  -- 16 bits, then what get_jobs makes of the row of that job, if it returns, has the name, command
  -- line, node, weight and state of the job and the name of the domain, and no jobs before it.
  pub job_of-row_of :
      (domain_name : String) (j k : Job) (recovery start stop : String) (w : ℕ) (d : Domain)
      → j.weight ≡ pos w
      → w < 32768
      → p.cast int (p.to_string j.weight) ≡ some j.weight
      → (job_of p domain_name (row_of j recovery start stop) d).0 ≡ returned k
      → IsReadBack j d.name k
  job_of-row_of domain_name j k recovery start stop w d weight small cast done =
      let kept : to_int16 j.weight ≡ j.weight = rw weight (to_int16_small w small) in
      (rest-Yields domain_name d.name j recovery start stop kept).at d k
        (ap (λ t. t.0) (sym (job_of-rest domain_name j recovery start stop d cast)) ∙ done)
