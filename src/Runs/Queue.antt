-- ===== src/Runs/Queue.antt =====
-- Which Run `claim_next_run` of repository.py takes from the queue.
use chaosagent.Base.{
  ℕ, ◌+◌, ◌*◌, ◌≡◌, String, Bool, true, false, Option, none, some, List, [], ◌∷◌, subst, arith, ok,
  All, All-map, Option-cases, Bool-cases, inl, inr, string_eq, nat_eq, Result-cases,
}
use chaosagent.Lifecycle.{provisioning, status_eq, claim_transition}
use chaosagent.Store.Tables.{Run, ClaimedRun, LifecycleEvidence, Event, Db}
use chaosagent.Leases.{Clock, microseconds, precedes, is_candidate, first_candidate}
use chaosagent.Runs.{claim_savepoint, claim_next_run}
use chaosagent.Runs.Claim.{Claimed, claim_next_run-Claimed}

-- What an order of texts has to satisfy.
pub record IsStrictOrder (collate : String → String → Bool) : Type 0 where
  pub irreflexive : (a : String) → collate a a ≡ false
  pub transitive : (a b c : String) → collate a b ≡ true → collate b c ≡ true → collate a c ≡ true

module _ (collate : String → String → Bool) (order : IsStrictOrder collate) where
  precedes_trans :
      (a b c : Run)
      → precedes collate a b ≡ true
      → precedes collate b c ≡ true
      → precedes collate a c ≡ true
  unfolding precedes
  precedes_trans a b c p q = ground (arith, order.transitive a.run_id b.run_id c.run_id)

  precedes_irrefl : (a : Run) → precedes collate a a ≡ false
  unfolding precedes
  precedes_irrefl a = ground (arith, order.irreflexive a.run_id)

  not_before :
      (x r b : Run)
      → precedes collate r b ≡ true
      → precedes collate x b ≡ false
      → precedes collate x r ≡ false
  not_before x r b p q = ground (arith, precedes_trans x r b)

  module _ (locked : List String) (run_id : Option String) where
    -- no candidate of the rows stands before this one
    abbrev IsFirst : Run → List Run → Type 0
    IsFirst k = All (λ r. is_candidate locked run_id r ≡ true → precedes collate r k ≡ false)

    first_candidate_empty :
        (rows : List Run)
        → first_candidate collate locked run_id rows ≡ none
        → All (λ r. is_candidate locked run_id r ≡ false) rows
    unfolding first_candidate
    first_candidate_empty [] h = tt
    first_candidate_empty (r ∷ rest) h = (ground arith, first_candidate_empty rest (ground arith))

    first_candidate-IsFirst :
        (rows : List Run) (k : Run)
        → first_candidate collate locked run_id rows ≡ some k
        → (is_candidate locked run_id k ≡ true) × IsFirst k rows
    unfolding first_candidate
    first_candidate-IsFirst [] k h = absurd (ground arith)
    first_candidate-IsFirst (r ∷ rest) k h = elim (Bool-cases (is_candidate locked run_id r)) [
      | inr other ↦
          let ih = first_candidate-IsFirst rest k (ground arith) in (ih.0, ((λ c. cc), ih.1))
      | inl candidate ↦ elim (Option-cases (first_candidate collate locked run_id rest)) [
        | inl empty ↦
            let own : r ≡ k = ground arith in
            subst (λ x. (is_candidate locked run_id x ≡ true) × IsFirst x (r ∷ rest)) own
              (
                candidate,
                (
                  (λ _. precedes_irrefl r),
                  All-map _ _ rest (λ x none_fits fits. cc) (first_candidate_empty rest empty),
                ),
              )
        | inr (b, e) ↦
            let ih = first_candidate-IsFirst rest b e in
            elim (Bool-cases (precedes collate r b)) [
              | inl before ↦
                  let own : r ≡ k = ground arith in
                  subst (λ x. (is_candidate locked run_id x ≡ true) × IsFirst x (r ∷ rest)) own
                    (
                      candidate,
                      (
                        (λ _. precedes_irrefl r),
                        All-map _ _ rest (λ x f fits. not_before x r b before (f fits)) ih.1,
                      ),
                    )
              | inr after ↦
                  let kept : b ≡ k = ground arith in
                  subst (λ x. (is_candidate locked run_id x ≡ true) × IsFirst x (r ∷ rest)) kept
                    (ih.0, ((λ _. after), ih.1))
            ]
      ]
    ]

module _ (collate : String → String → Bool) (order : IsStrictOrder collate)
    (is_run_event : Event → Bool) (locked : List String) (run_id : Option String) (clock : Clock)
    (worker_id : String) (duration : ℕ) (evidence : LifecycleEvidence) (token : String)
    (db db' : Db) where
  -- A claim that returns a Run has taken a queued Run that no other transaction has locked, and the one
  -- asked for if one was; no other such Run stands before it in the order of creation, and of
  -- identities where these are equal. No worker held it; its row is now provisioning under the worker and
  -- the token of the lease that is returned, from the time of the UPDATE on and for the duration, at the
  -- next attempt and version, with one event; and every other row is as it was.
  pub claim_takes_oldest :
      (c : ClaimedRun)
      → claim_next_run is_run_event collate locked clock worker_id duration evidence run_id token db
        ≡ ok (some c, db')
      → (k : Run) × Claimed k worker_id token clock.at_update
          (clock.at_update + duration * microseconds)
          db
          db'
          c
        × (is_candidate locked run_id k ≡ true)
        × All (λ r. is_candidate locked run_id r ≡ true → precedes collate r k ≡ false) db.runs
  claim_takes_oldest c h =
      let (k, first, claimed) =
        claim_next_run-Claimed is_run_event clock worker_id duration evidence token db db' c collate
          locked run_id h in
      let (fits, least) = first_candidate-IsFirst collate order locked run_id db.runs k first in
      (k, claimed, fits, least)

  -- A claim returns no Run only if no Run is a candidate, and then it has written nothing.
  claim_none :
      claim_next_run is_run_event collate locked clock worker_id duration evidence run_id token db
        ≡ ok (none, db')
      → (db' ≡ db) × All (λ r. is_candidate locked run_id r ≡ false) db.runs
  unfolding claim_next_run
  claim_none h = elim (Option-cases (first_candidate collate locked run_id db.runs)) [
    | inl empty ↦ (ground arith, first_candidate_empty collate order locked run_id db.runs empty)
    | inr (k, e) ↦ absurd (elim (Bool-cases (claim_transition k.status provisioning)) [
      | inr illegal ↦ ground arith
      | inl legal ↦
          elim (Result-cases
            (claim_savepoint is_run_event clock worker_id duration evidence token db k)) [
              | inl (saved, s) ↦ ground arith
              | inr (x, s) ↦ ground arith
            ]
    ])
  ]
