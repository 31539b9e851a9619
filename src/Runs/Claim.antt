-- ===== src/Runs/Claim.antt =====
-- What `claim_next_run` of repository.py does when it returns a Run.
use chaosagent.Base.{
  ℕ, ◌+◌, ◌*◌, ◌≡◌, refl, String, Bool, true, Option, none, some, List, ok, arith, Result-cases,
  Bool-cases, inl, inr, ◌∙◌,
}
use chaosagent.Lifecycle.{
  RunStatus, queued, provisioning, status_beq_iff, status_eq, claim_transition,
}
use chaosagent.Lifecycle.Graph.{claim→⟶}
use chaosagent.Store.Tables.{Run, ClaimedRun, LifecycleEvidence, Event, Db, lifecycle_conflict}
use chaosagent.Store.Identifiers.{is_lease_duration}
use chaosagent.Leases.{Clock, microseconds, unleased_test, claimed, first_candidate}
use chaosagent.Runs.{claim_candidate, claim_savepoint, claim_next_run}
use chaosagent.Runs.Protocol.{Change, claim, TakenBy}
use chaosagent.Runs.Guards.{unleased_test-facts, unleased_test-version, later}
use chaosagent.Runs.Transition.{Transition, change_status-Transition}

claimed-Change :
    (clock : Clock) (worker token : String) (duration : ℕ) (source : RunStatus) (version : ℕ)
    (r : Run)
    → is_lease_duration duration ≡ true
    → claim_transition source provisioning ≡ true
    → unleased_test source version r ≡ true
    → (r.status ≡ source)
      × Change r (claimed clock worker token duration r)
      × TakenBy worker token clock.at_update
          (clock.at_update + duration * microseconds)
          r
          (claimed clock worker token duration r)
      × ((claimed clock worker token duration r).status ≡ provisioning)
unfolding claimed claim_transition
claimed-Change clock worker token duration source version r valid legal passed =
    let (same, owner, no_token) = unleased_test-facts source version r passed in
    let queue : source ≡ queued = ground (arith, status_beq_iff source queued) in
    (
      same,
      claim worker token clock.at_update (clock.at_update + duration * microseconds) (same ∙ queue)
          owner no_token (later clock.at_update duration valid) refl,
      record {
        waiting = same ∙ queue;
        free = (owner, no_token);
        lasts = later clock.at_update duration valid;
        row = refl;
      },
      refl,
    )

-- What a claim gives: the candidate's row has made the claim, with its event, and the lease names the
-- worker, the token and the new attempt.
pub record Claimed (candidate : Run) (worker_id token : String) (now expiry : ℕ) (db db' : Db)
    (c : ClaimedRun) : Type 0 where
  pub transition :
      Transition candidate.run_id provisioning
        (TakenBy worker_id token now expiry)
        candidate.lifecycle_version
        db
        db'
        c.run
  pub worker : c.lease.worker_id ≡ worker_id
  pub token_given : c.lease.lease_token ≡ token
  pub of_run : c.lease.run_id ≡ c.run.run_id
  pub generation : c.lease.attempt ≡ c.run.attempt

module _ (is_run_event : Event → Bool) (clock : Clock) (worker_id : String) (duration : ℕ)
    (evidence : LifecycleEvidence) (token : String) (db db' : Db) (c : ClaimedRun) where
  claim_candidate-Claimed :
      (o : Option Run)
      → is_lease_duration duration ≡ true
      → claim_candidate is_run_event clock worker_id duration evidence token db o ≡ ok (some c, db')
      → (k : Run) × (o ≡ some k)
        × Claimed k worker_id token clock.at_update
            (clock.at_update + duration * microseconds)
            db
            db'
            c
  claim_candidate-Claimed none valid h = absurd (ground arith)
  claim_candidate-Claimed (some k) valid h =
      elim (Bool-cases (claim_transition k.status provisioning)) [
        | inr illegal ↦ absurd (ground arith)
        | inl legal ↦
            elim (Result-cases
              (claim_savepoint is_run_event clock worker_id duration evidence token db k)) [
                | inr (x, bad) ↦ absurd (ground arith)
                | inl (saved, e) ↦
                    let t : Transition k.run_id provisioning
                        (TakenBy worker_id token clock.at_update
                          (clock.at_update + duration * microseconds))
                        k.lifecycle_version db db' c.run =
                      change_status-Transition is_run_event k.run_id k.status provisioning
                        clock.after_update evidence (unleased_test k.status k.lifecycle_version)
                        (claimed clock worker_id token duration) lifecycle_conflict db db' c.run
                        (TakenBy worker_id token clock.at_update
                          (clock.at_update + duration * microseconds))
                        k.lifecycle_version (claim→⟶ k.status provisioning legal)
                        (unleased_test-version k.status k.lifecycle_version)
                        (λ r passed.
                          claimed-Change clock worker_id token duration k.status k.lifecycle_version
                            r valid legal passed)
                        (ground arith) in
                    (
                      k,
                      refl,
                      record {
                        transition = t;
                        worker = ground arith;
                        token_given = ground arith;
                        of_run = ground arith;
                        generation = ground arith;
                      },
                    )
              ]
      ]

  -- A claim that returns a Run has put the first candidate of the queue, and nothing else, under the
  -- lease that it returns.
  pub claim_next_run-Claimed :
      (collate : String → String → Bool) (locked : List String) (run_id : Option String)
      → claim_next_run is_run_event collate locked clock worker_id duration evidence run_id token db
        ≡ ok (some c, db')
      → (k : Run) × (first_candidate collate locked run_id db.runs ≡ some k)
        × Claimed k worker_id token clock.at_update
            (clock.at_update + duration * microseconds)
            db
            db'
            c
  unfolding claim_next_run
  claim_next_run-Claimed collate locked run_id h =
      claim_candidate-Claimed (first_candidate collate locked run_id db.runs) (ground arith)
        (ground arith)
