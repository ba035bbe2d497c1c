-- ===== src/Network/Clauses.antt =====
-- src/model.thrift: the `throws` clauses of the service. Thrift hands a declared exception to the
-- caller; any other one arrives as an exception of Thrift's own.
use open_workload_scheduler.Base.{Bool, true, false, ◌≡◌, refl, if◌then◌else◌, arith}
use open_workload_scheduler.Effect.{
  Exception, ex_routing, ex_job, ex_node, ex_planning, ex_processing, std_exception, Outcome,
  returned, thrown, undefined, blocked,
}

-- `throws (1:ex_routing e)`
abbrev pub routing_clause : Exception → Bool
routing_clause (ex_routing msg) = true
routing_clause _ = false

-- `throws (ex_routing, ex_processing)`
abbrev pub processing_clauses : Exception → Bool
processing_clauses (ex_routing msg) = true
processing_clauses (ex_processing msg) = true
processing_clauses _ = false

-- `throws (ex_routing, ex_node, ex_processing)`
abbrev pub node_clauses : Exception → Bool
node_clauses (ex_routing msg) = true
node_clauses (ex_node msg) = true
node_clauses (ex_processing msg) = true
node_clauses _ = false

-- `throws (ex_routing, ex_job, ex_processing)`
abbrev pub job_clauses : Exception → Bool
job_clauses (ex_routing msg) = true
job_clauses (ex_job msg) = true
job_clauses (ex_processing msg) = true
job_clauses _ = false

-- `throws (ex_routing, ex_job, ex_node, ex_processing)`
abbrev pub job_and_node_clauses : Exception → Bool
job_and_node_clauses (ex_routing msg) = true
job_and_node_clauses (ex_job msg) = true
job_and_node_clauses (ex_node msg) = true
job_and_node_clauses (ex_processing msg) = true
job_and_node_clauses _ = false

-- The end of a handler as the caller sees it.
abbrev pub sent_as : {A : Type 0} → (Exception → Bool) → Outcome A → Outcome A
sent_as declares (returned a) = returned a
sent_as declares (thrown e) = if declares e then thrown e else thrown std_exception
sent_as declares undefined = undefined
sent_as declares blocked = blocked

-- The exceptions of statements, and those of the check of a job's node.
abbrev pub is_of_statement : Exception → Bool
is_of_statement (ex_processing msg) = true
is_of_statement _ = false

abbrev pub is_of_insertion : Exception → Bool
is_of_insertion (ex_processing msg) = true
is_of_insertion (ex_node msg) = true
is_of_insertion std_exception = true
is_of_insertion _ = false

module _ {A : Type 0} where
  -- What has crossed one node with these clauses crosses the next one as it is.
  pub sent_as_again :
      (declares : Exception → Bool) (r : Outcome A)
      → sent_as declares (sent_as declares r) ≡ sent_as declares r
  sent_as_again declares (returned a) = refl
  sent_as_again declares (thrown e) = ground arith
  sent_as_again declares undefined = refl
  sent_as_again declares blocked = refl

  abbrev pub throws_only : (Exception → Bool) → Outcome A → Bool
  throws_only expected (returned a) = true
  throws_only expected (thrown e) = expected e
  throws_only expected undefined = true
  throws_only expected blocked = true

  pub sent_as_job :
      (r : Outcome A) → throws_only is_of_statement r ≡ true → sent_as job_clauses r ≡ r
  sent_as_job (returned a) h = refl
  sent_as_job (thrown (ex_processing msg)) h = refl
  sent_as_job (thrown (ex_routing msg)) h = refl
  sent_as_job (thrown (ex_job msg)) h = refl
  sent_as_job (thrown (ex_node msg)) h = absurd (ground arith)
  sent_as_job (thrown (ex_planning msg)) h = absurd (ground arith)
  sent_as_job (thrown std_exception) h = refl
  sent_as_job undefined h = refl
  sent_as_job blocked h = refl

  pub sent_as_job_and_node :
      (r : Outcome A) → throws_only is_of_insertion r ≡ true → sent_as job_and_node_clauses r ≡ r
  sent_as_job_and_node (returned a) h = refl
  sent_as_job_and_node (thrown (ex_processing msg)) h = refl
  sent_as_job_and_node (thrown (ex_routing msg)) h = refl
  sent_as_job_and_node (thrown (ex_job msg)) h = refl
  sent_as_job_and_node (thrown (ex_node msg)) h = refl
  sent_as_job_and_node (thrown (ex_planning msg)) h = absurd (ground arith)
  sent_as_job_and_node (thrown std_exception) h = refl
  sent_as_job_and_node undefined h = refl
  sent_as_job_and_node blocked h = refl
