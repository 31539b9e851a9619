-- ===== src/Runs/Steps.antt =====
-- The database under any interleaving of the methods of repository.py that write Runs and their
-- events: each step is a call that returned, with arguments, times and stale reads of any kind.
use chaosagent.Base.{
  ℕ, ◌≡◌, inl, inr, sym, ap, ◌∙◌, none, ◌∷◌, arith, Option-cases, if◌then◌else◌, String, Bool,
  Option, some, ok, subst, List, ◌==◌, string_eq, ==→≡, Bool-cases,
}
use chaosagent.Lifecycle.{RunStatus, status_eq}
use chaosagent.Store.Tables.{
  Run, LeaseIdentity, ClaimedRun, LifecycleEvidence, Event, Payload, lifecycle, other, Db,
}
use chaosagent.Store.Rows.{find_run}
use chaosagent.Events.{append_event}
use chaosagent.Events.Log.{append_event-Appended}
use chaosagent.Leases.{Clock}
use chaosagent.Runs.{
  bind_run_fault_seed, insert_run, created_run, heartbeat, claim_next_run, transition_owned_run,
  cancel_queued_run, requeue_expired_run,
}
use chaosagent.Runs.Protocol.{Change, Changed, Changed-find, Evolves, Evolves-trans, here, next}
use chaosagent.Runs.Refinement.{
  heartbeat-Changed, transition_owned_run-Transition, cancel_queued_run-Transition,
  requeue_expired_run-Transition, bind_run_fault_seed-Changed,
}
use chaosagent.Runs.Claim.{claim_next_run-Claimed}

-- An event that says nothing of a status.
abbrev pub IsOther : Payload → Type 0
IsOther (lifecycle s p r) = ⊥
IsOther (other type texts) = Unit

module _ (is_run_event : Event → Bool) where
  pub data Step (db db' : Db) : Type 0 where
    claim_step :
        (collate : String → String → Bool) (locked : List String) (clock : Clock)
        (worker_id : String) (duration : ℕ) (evidence : LifecycleEvidence) (run_id : Option String)
        (token : String) (c : ClaimedRun)
        → claim_next_run is_run_event collate locked clock worker_id duration evidence run_id token
            db
          ≡ ok (some c, db')
        → Step db db'
    heartbeat_step :
        (clock : Clock) (lease : LeaseIdentity) (version duration : ℕ) (again : Db) (c : ClaimedRun)
        → heartbeat clock lease version duration again db ≡ ok (c, db')
        → Step db db'
    transition_step :
        (clock : Clock) (lease : LeaseIdentity) (target : RunStatus) (version : ℕ)
        (evidence : LifecycleEvidence) (seen again : Db) (r' : Run)
        → transition_owned_run is_run_event clock lease target version evidence seen again db
          ≡ ok (r', db')
        → Step db db'
    cancel_step :
        (clock : Clock) (run_id : String) (version : ℕ) (evidence : LifecycleEvidence)
        (seen again : Db) (r' : Run)
        → cancel_queued_run is_run_event clock run_id version evidence seen again db ≡ ok (r', db')
        → Step db db'
    requeue_step :
        (clock : Clock) (run_id : String) (version : ℕ) (evidence : LifecycleEvidence)
        (seen again : Db) (r' : Run)
        → requeue_expired_run is_run_event clock run_id version evidence seen again db
          ≡ ok (r', db')
        → Step db db'
    append_step : (e : Event) → append_event e db ≡ ok db' → Step db db'
    seed_step :
        (clock : Clock) (lease : LeaseIdentity) (run_seed : ℕ) (r' : Run)
        → bind_run_fault_seed clock lease run_seed db ≡ ok (r', db')
        → Step db db'
    create_step :
        (run_id : String) (created_at : ℕ) (r' : Run)
        → insert_run run_id created_at db ≡ ok (r', db')
        → Step db db'

  pub data Reach (db : Db) : Db → Type 0 where
    start : Reach db db
    more : {mid db' : Db} → Reach db mid → Step mid db' → Reach db db'

one_row :
    (a b : String) (rows : List Run) (x y : Run)
    → a ≡ b
    → find_run a rows ≡ some x
    → find_run b rows ≡ some y
    → x ≡ y
one_row a b rows x y e p q = cc

one_missing :
    (a b : String) (rows : List Run) (y : Run)
    → a ≡ b
    → find_run a rows ≡ none
    → ¬ (find_run b rows ≡ some y)
one_missing a b rows y e p q = ground (arith, sym p ∙ ap (λ i. find_run i rows) e ∙ q)

-- Where one row has changed, each row has evolved.
Changed-Evolves :
    {id : String} {rows rows' : List Run} {r' : Run} (j : String) (r : Run)
    → Changed id rows rows' r'
    → find_run j rows ≡ some r
    → (s : Run) × (find_run j rows' ≡ some s) × Evolves r s
Changed-Evolves {id} {rows} {r' = r'} j r c found = elim (Bool-cases (id == j)) [
  | inl same ↦
      let e : c.before ≡ r = one_row id j rows c.before r (==→≡ id j same) c.found found in
      (r', rw (Changed-find j c, same), next here (subst (λ x. Change x r') e c.change))
  | inr differs ↦ (r, rw (Changed-find j c, differs) found, here)
]

insert_run-Inserted :
    (id : String) (time : ℕ) (db db' : Db) (r' : Run)
    → insert_run id time db ≡ ok (r', db')
    → (find_run id db.runs ≡ none) × (record db { runs = created_run id time ∷ db.runs } ≡ db')
unfolding insert_run
insert_run-Inserted id time db db' r' h = elim (Option-cases (find_run id db.runs)) [
  | inl fresh ↦ (fresh, ground arith)
  | inr (x, there) ↦ absurd (ground arith)
]

-- The rows after the INSERT of a new Run.
pub find-created :
    (id : String) (time : ℕ) (j : String) (db db' : Db) (r' : Run)
    → insert_run id time db ≡ ok (r', db')
    → (find_run id db.runs ≡ none)
      × (find_run j db'.runs ≡ (if id == j then some (created_run id time) else find_run j db.runs))
      × (db'.events ≡ db.events)
unfolding find_run
find-created id time j db db' r' h =
    let (fresh, made) = insert_run-Inserted id time db db' r' h in
    (fresh, sym (ap (λ (d : Db). find_run j d.runs) made), sym (ap (λ (d : Db). d.events) made))

find-inserted :
    (id : String) (time : ℕ) (j : String) (db db' : Db) (r' r : Run)
    → insert_run id time db ≡ ok (r', db')
    → find_run j db.runs ≡ some r
    → find_run j db'.runs ≡ some r
find-inserted id time j db db' r' r h found =
    let (fresh, rows, _) = find-created id time j db db' r' h in
    elim (Bool-cases (id == j)) [
      | inl same ↦ absurd (one_missing id j db.runs r (==→≡ id j same) fresh found)
      | inr differs ↦ rw (rows, differs) found
    ]

module _ {is_run_event : Event → Bool} where
  pub Step-Evolves :
      {db db' : Db} (j : String) (r : Run)
      → Step is_run_event db db'
      → find_run j db.runs ≡ some r
      → (s : Run) × (find_run j db'.runs ≡ some s) × Evolves r s
  Step-Evolves j r (claim_step collate locked clock w d ev id token c h) found =
      let (k, _, claimed) =
        claim_next_run-Claimed is_run_event clock w d ev token _ _ c collate locked id h in
      Changed-Evolves j r claimed.transition.changed found
  Step-Evolves j r (heartbeat_step clock lease v d again c h) found =
      Changed-Evolves j r (heartbeat-Changed clock lease v d again _ _ c h).0 found
  Step-Evolves j r (transition_step clock lease t v ev seen again r' h) found =
      Changed-Evolves j r
        (transition_owned_run-Transition is_run_event clock lease t v ev seen again _ _ r'
          h).changed
        found
  Step-Evolves j r (cancel_step clock id v ev seen again r' h) found =
      Changed-Evolves j r
        (cancel_queued_run-Transition is_run_event clock id v ev seen again _ _ r' h).changed found
  Step-Evolves j r (requeue_step clock id v ev seen again r' h) found =
      Changed-Evolves j r
        (requeue_expired_run-Transition is_run_event clock id v ev seen again _ _ r' h).changed
        found
  Step-Evolves j r (append_step e h) found =
      (r, rw (append_event-Appended e _ _ h).written found, here)
  Step-Evolves {db} j r (seed_step clock lease n r' h) found =
      elim (bind_run_fault_seed-Changed clock lease n db _ r' h) [
        | inl same ↦ (r, ap (λ (d : Db). find_run j d.runs) same ∙ found, here)
        | inr (k, _, _) ↦ Changed-Evolves j r k found
      ]
  Step-Evolves {db} j r (create_step id time r' h) found =
      (r, find-inserted id time j db _ r' r h found, here)

  -- Whatever is called, a Run that is there stays, and its row has evolved.
  pub Reach-Evolves :
      {db db' : Db} (j : String) (r : Run)
      → Reach is_run_event db db'
      → find_run j db.runs ≡ some r
      → (s : Run) × (find_run j db'.runs ≡ some s) × Evolves r s
  Reach-Evolves j r start found = (r, found, here)
  Reach-Evolves j r (more before step) found =
      let (m, there, e) = Reach-Evolves j r before found in
      let (s, now, c) = Step-Evolves j m step there in (s, now, Evolves-trans e c)

-- No event that says something of a status is appended on its own.
abbrev pub IsOtherStep :
    {is_run_event : Event → Bool} {db db' : Db} → Step is_run_event db db' → Type 0
IsOtherStep (append_step e h) = IsOther e.payload
IsOtherStep (claim_step collate locked clock w d ev id token c h) = Unit
IsOtherStep (heartbeat_step clock lease v d again c h) = Unit
IsOtherStep (transition_step clock lease t v ev seen again r' h) = Unit
IsOtherStep (cancel_step clock id v ev seen again r' h) = Unit
IsOtherStep (requeue_step clock id v ev seen again r' h) = Unit
IsOtherStep (seed_step clock lease n r' h) = Unit
IsOtherStep (create_step id time r' h) = Unit

abbrev pub AppendsOther :
    {is_run_event : Event → Bool} {db db' : Db} → Reach is_run_event db db' → Type 0
AppendsOther start = Unit
AppendsOther (more before step) = AppendsOther before × IsOtherStep step
