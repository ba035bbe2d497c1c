-- ===== src/Domain/Series.antt =====
-- src/domain.cpp: `add_node` with a whole node is a series of updates, each one transaction.
use open_workload_scheduler.Base.{
  ap, subst, String, Bool, true, false, some, List, [], ◌∷◌, ◌++◌, map, ◌≡◌, refl, sym, arith, ◌∙◌,
  inl, inr, if◌then◌else◌,
}
use open_workload_scheduler.Base.{not}
use open_workload_scheduler.Base.Int.{ℤ}
use mathlib.Core.List.{append_assoc, append-nil}
use open_workload_scheduler.Effect.{
  M, Outcome, returned, thrown, undefined, blocked, ◌>>=◌, pure, lift, all_of,
}
use open_workload_scheduler.Platform.{Platform, Call}
use open_workload_scheduler.Model.{Resource, Job, Node}
use open_workload_scheduler.Database.Ends.{IsRelease}
use open_workload_scheduler.Database.Journal.{
  Transaction, Journal, IsTransactional, AllPlain, AllOrNothing,
}
use open_workload_scheduler.Domain.State.{Domain}
use open_workload_scheduler.Domain.Insertions.{add_node, add_weighted_node, add_resource, add_job}
use open_workload_scheduler.Domain.Mutex.{
  Update, weighted_node, resource, new_job, perform, perform-Leaves, Leaves,
}
use open_workload_scheduler.Domain.Atomicity.{statements, schema}
use open_workload_scheduler.Domain.Journal.{AllRead, perform-AllOrNothing}

-- The updates that a whole node needs.
abbrev pub insertions : String → Node → List Update
insertions domain_name n =
    weighted_node domain_name n.name n.weight
    ∷ (map (λ r. resource domain_name r n.name) n.resources ++ map (new_job domain_name) n.jobs)

module _ {S A B : Type 0} where
  all_of-map :
      (f : A → M S Bool) (g : B → A) (xs : List B) (s : S)
      → all_of (map g xs) f s ≡ all_of xs (λ x. f (g x)) s
  unfolding all_of
  all_of-map f g [] s = refl
  all_of-map f g (x ∷ xs) s = ground (arith, all_of-map f g xs (f (g x) s).1)

module _ {S A : Type 0} where
  all_of-append :
      (f : A → M S Bool) (xs ys : List A) (s : S)
      → all_of (xs ++ ys) f s ≡ (all_of xs f >>= λ done. if done then all_of ys f else pure false) s
  unfolding all_of
  all_of-append f [] ys s = refl
  all_of-append f (x ∷ xs) ys s = ground (arith, all_of-append f xs ys (f x s).1)

module _ (p : Platform) where
  abbrev pub transaction : Update → Transaction
  transaction u = record { schema = some (schema p u); statements = statements p u }

  -- What a series of updates has committed: all of it, or the transactions of a first part.
  abbrev pub AllOrPart : List Update → List Transaction → Outcome Bool → List Transaction → Type 0
  AllOrPart us base (returned true) log = log ≡ base ++ map transaction us
  AllOrPart us base undefined log = ¬ IsRelease p
  AllOrPart us base blocked log = ⊥
  AllOrPart us base _ log =
      (first : List Update) × (rest : List Update) × (us ≡ first ++ rest)
      × (log ≡ base ++ map transaction first)

  perform-weighted_node :
      (domain_name name : String) (w : ℤ) (d : Domain)
      → perform p (weighted_node domain_name name w) d ≡ add_weighted_node p domain_name name w d
  unfolding perform
  perform-weighted_node domain_name name w d = refl

  perform-resources :
      (domain_name name : String) (rs : List Resource) (d : Domain)
      → all_of (map (λ r. resource domain_name r name) rs) (perform p) d
        ≡ all_of rs (λ r. add_resource p domain_name r name) d
  unfolding perform
  perform-resources domain_name name rs d =
      all_of-map (perform p) (λ r. resource domain_name r name) rs d

  perform-jobs :
      (domain_name : String) (js : List Job) (d : Domain)
      → all_of (map (new_job domain_name) js) (perform p) d
        ≡ all_of js (λ j. add_job p domain_name j) d
  unfolding perform
  perform-jobs domain_name js d = all_of-map (perform p) (new_job domain_name) js d

  -- `if ( f() == false ) return false;` in front of the rest, by its end.
  both_ways :
      (r : Outcome Bool) (k k' : M Domain Bool) (d : Domain)
      → k d ≡ k' d
      → (lift r >>= λ done. if not done then pure false else k) d
        ≡ (lift r >>= λ done. if done then k' else pure false) d
  both_ways (returned true) k k' d same = same
  both_ways (returned false) k k' d same = refl
  both_ways (thrown e) k k' d same = refl
  both_ways undefined k k' d same = refl
  both_ways blocked k k' d same = refl

  rest-insertions :
      (domain_name name : String) (rs : List Resource) (js : List Job) (d : Domain)
      → (all_of rs (λ r. add_resource p domain_name r name) >>= λ done.
            if not done then pure false else all_of js (λ j. add_job p domain_name j))
          d
        ≡ all_of
            (map (λ r. resource domain_name r name) rs ++ map (new_job domain_name) js)
            (perform p)
            d
  rest-insertions domain_name name rs js d =
      let (r, d') = all_of rs (λ r. add_resource p domain_name r name) d in
      let jobs = map (new_job domain_name) js in
      both_ways r (all_of js (λ j. add_job p domain_name j)) (all_of jobs (perform p)) d'
        (sym (perform-jobs domain_name js d'))
      ∙ ap
          (λ (w : Outcome Bool × Domain).
            (lift w.0 >>= λ done. if done then all_of jobs (perform p) else pure false) w.1)
          (sym (perform-resources domain_name name rs d))
      ∙ sym (all_of-append (perform p) (map (λ r. resource domain_name r name) rs) jobs d)

  -- `add_node` performs the series until an update does not return true.
  add_node-insertions :
      (domain_name : String) (n : Node) (d : Domain)
      → add_node p domain_name n d ≡ all_of (insertions domain_name n) (perform p) d
  unfolding add_node all_of
  add_node-insertions domain_name n d =
      let (r, d') = add_weighted_node p domain_name n.name n.weight d in
      let rest =
        map (λ x. resource domain_name x n.name) n.resources ++ map (new_job domain_name) n.jobs in
      both_ways r
        (all_of n.resources (λ x. add_resource p domain_name x n.name) >>= λ done.
          if not done then pure false else all_of n.jobs (λ j. add_job p domain_name j))
        (all_of rest (perform p)) d' (rest-insertions domain_name n.name n.resources n.jobs d')
      ∙ ap
          (λ (w : Outcome Bool × Domain).
            (lift w.0 >>= λ done. if done then all_of rest (perform p) else pure false) w.1)
          (sym (perform-weighted_node domain_name n.name n.weight d))

module _ (p : Platform) (IsPlain IsRead : String → Type 0) (view : List Call → Journal)
    (t : IsTransactional p IsPlain IsRead view) where
  abbrev log_of : Domain → List Transaction
  log_of d = (view d.calls).log

  -- The updates of the series are plain.
  abbrev pub ArePlain : List Update → Type 0
  ArePlain [] = Unit
  ArePlain (u ∷ us) =
      (AllRead p IsPlain IsRead view t u × AllPlain IsPlain (statements p u)) × ArePlain us

  one_more :
      (u : Update) (us : List Update) (base log log' : List Transaction) (r : Outcome Bool)
      → log ≡ base ++ transaction p u ∷ []
      → AllOrPart p us log r log'
      → AllOrPart p (u ∷ us) base r log'
  one_more u us base log log' (returned true) h a =
      a
      ∙ ap (λ l. l ++ map (transaction p) us) h
      ∙ append_assoc base (transaction p u ∷ []) (map (transaction p) us)
  one_more u us base log log' (returned false) h (first, rest, whole, a) = (
    u ∷ first,
    rest,
    ap (λ l. u ∷ l) whole,
    a
        ∙ ap (λ l. l ++ map (transaction p) first) h
        ∙ append_assoc base (transaction p u ∷ []) (map (transaction p) first),
  )
  one_more u us base log log' (thrown e) h (first, rest, whole, a) = (
    u ∷ first,
    rest,
    ap (λ l. u ∷ l) whole,
    a
        ∙ ap (λ l. l ++ map (transaction p) first) h
        ∙ append_assoc base (transaction p u ∷ []) (map (transaction p) first),
  )
  one_more u us base log log' undefined h a = a
  one_more u us base log log' blocked h a = a

  step-AllOrPart :
      (u : Update) (us : List Update) (base : List Transaction) (r : Outcome Bool) (d : Domain)
      → AllOrNothing p (some (schema p u)) (statements p u) base r (log_of d)
      → (r ≡ returned true
          → let (r', d') = all_of us (perform p) d in AllOrPart p us (log_of d) r' (log_of d'))
      → let (r', d') = (lift r >>= λ done. if done then all_of us (perform p) else pure false) d in
        AllOrPart p (u ∷ us) base r' (log_of d')
  step-AllOrPart u us base (returned true) d a next =
      let (r', d') = all_of us (perform p) d in
      one_more u us base (log_of d) (log_of d') r' a (next refl)
  step-AllOrPart u us base (returned false) d a next = ([], u ∷ us, refl, a ∙ sym (append-nil base))
  step-AllOrPart u us base (thrown e) d (inl a) next = ([], u ∷ us, refl, a ∙ sym (append-nil base))
  step-AllOrPart u us base (thrown e) d (inr a) next = (u ∷ [], us, refl, a)
  step-AllOrPart u us base undefined d a next = a
  step-AllOrPart u us base blocked d a next = a

  series-AllOrPart :
      (us : List Update) (d : Domain)
      → d.is_locked ≡ false
      → ArePlain us
      → let (r, d') = all_of us (perform p) d in AllOrPart p us (log_of d) r (log_of d')
  unfolding all_of
  series-AllOrPart [] d free plain = sym (append-nil (log_of d))
  series-AllOrPart (u ∷ us) d free plain =
      let (r, d') = perform p u d in
      step-AllOrPart u us (log_of d) r d'
        (perform-AllOrNothing p IsPlain IsRead view t u d free plain.0.0 plain.0.1)
        (λ done.
          series-AllOrPart us d' (subst (λ x. Leaves p x d') done (perform-Leaves p u d free))
            plain.1)

  -- On a server with the documented behaviour of transactions, add_node with a whole node, if it
  -- finds the mutex free, and if the statements for the node, its resources and its jobs are
  -- neither transaction control nor implicitly committing (and the queries for the nodes of the
  -- jobs are reads), adds to the committed transactions those of a first part of the series: the
  -- node, then each resource, then each job, one transaction each. If it returns true, it adds all
  -- of them. It never blocks, and is undefined only outside of a release build, that is where
  -- results are fetched or START TRANSACTION or COMMIT matches the pattern of blank texts.
  pub add_node-AllOrPart :
      (domain_name : String) (n : Node) (d : Domain)
      → d.is_locked ≡ false
      → ArePlain (insertions domain_name n)
      → let (r, d') = add_node p domain_name n d in
        AllOrPart p (insertions domain_name n) (log_of d) r (log_of d')
  add_node-AllOrPart domain_name n d free plain =
      subst (λ w. AllOrPart p (insertions domain_name n) (log_of d) w.0 (log_of w.1))
        (sym (add_node-insertions p domain_name n d))
        (series-AllOrPart (insertions domain_name n) d free plain)
