-- ===== src/Runs/History.antt =====
-- The lifecycle events of a Run, read as the history of its status.
use chaosagent.Base.{
  ℕ, ◌≡◌, ◌≢◌, ◌∙◌, String, Bool, Option, none, some, refl, List, [], ◌∷◌, arith, ap, sym, subst,
  ==→≡, Bool-cases, inl, inr, ◌==◌, string_eq, if◌then◌else◌, eq_iff,
}
use chaosagent.Lifecycle.{RunStatus, queued}
use chaosagent.Lifecycle.Graph.{◌⟶◌}
use chaosagent.Store.Tables.{Run, Event, Payload, lifecycle, other, Db}
use chaosagent.Store.Rows.{find_run}
use chaosagent.Events.Log.{IsLog, append_event-Appended, append_event-IsLog}
use chaosagent.Runs.{created_run}
use chaosagent.Runs.Protocol.{Changed, Changed-find}
use chaosagent.Runs.Transition.{Transition}
use chaosagent.Runs.Refinement.{
  heartbeat-Changed, transition_owned_run-Transition, cancel_queued_run-Transition,
  requeue_expired_run-Transition, bind_run_fault_seed-Changed,
}
use chaosagent.Runs.Claim.{claim_next_run-Claimed}
use chaosagent.Runs.Steps.{
  IsOther, IsOtherStep, AppendsOther, find-created, seed_step, create_step, Step, claim_step,
  heartbeat_step, transition_step, cancel_step, requeue_step, append_step, Reach, start, more,
}

abbrev pub stated : Payload → RunStatus → RunStatus
stated (lifecycle s p reason) before = s
stated (other type texts) before = before

-- The status that the newest lifecycle event of a Run states; a Run begins queued. The newest event
-- stands first.
abbrev pub last_status : String → List Event → RunStatus
last_status id [] = queued
last_status id (e ∷ rest) =
    let before = last_status id rest in if e.run_id == id then stated e.payload before else before

-- The event names the status that it found, and leads on by a legal edge.
abbrev pub Links : Payload → RunStatus → Type 0
Links (lifecycle s p reason) before = (p ≡ before) × (before ⟶ s)
Links (other type texts) before = Unit

-- The lifecycle events of a Run form one path of the diagram, from `queued` on.
abbrev pub IsHistory : String → List Event → Type 0
IsHistory id [] = Unit
IsHistory id (e ∷ rest) =
    (e.run_id ≡ id → Links e.payload (last_status id rest)) × IsHistory id rest

-- the status of a row; a Run that is not there yet begins queued
abbrev pub status_at : Option Run → RunStatus
status_at none = queued
status_at (some r) = r.status

-- The path ends in the status of the row.
abbrev pub Agrees : Db → Type 0
Agrees db =
    (id : String)
    → (last_status id db.events ≡ status_at (find_run id db.runs)) × IsHistory id db.events

Links-other : (p : Payload) (before : RunStatus) → IsOther p → Links p before
Links-other (lifecycle s p r) before o = absurd o
Links-other (other type texts) before o = tt

last_status-own :
    (id : String) (e : Event) (rest : List Event)
    → e.run_id ≡ id
    → last_status id (e ∷ rest) ≡ stated e.payload (last_status id rest)
last_status-own id e rest h = ground (arith, eq_iff e.run_id id)

last_status-foreign :
    (id : String) (e : Event) (rest : List Event)
    → e.run_id ≢ id
    → last_status id (e ∷ rest) ≡ last_status id rest
last_status-foreign id e rest h = ground (arith, eq_iff e.run_id id)

-- the two parts of the agreement, of one Run
abbrev AgreesAt : String → RunStatus → List Event → Type 0
AgreesAt id status events = (last_status id events ≡ status) × IsHistory id events

own_event :
    (id : String) (e : Event) (rest : List Event) (before after : RunStatus)
    (reason : Option String)
    → e.run_id ≡ id
    → e.payload ≡ lifecycle after before reason
    → before ⟶ after
    → AgreesAt id before rest
    → AgreesAt id after (e ∷ rest)
own_event id e rest before after reason own says edge (last, history) = (
  last_status-own id e rest own ∙ ap (λ p. stated p (last_status id rest)) says,
  (
    (λ _.
        subst (λ p. Links p (last_status id rest)) (sym says)
          (sym last, subst (λ s. s ⟶ after) (sym last) edge)),
    history,
  ),
)

foreign_event :
    (id : String) (e : Event) (rest : List Event) (status : RunStatus)
    → e.run_id ≢ id
    → AgreesAt id status rest
    → AgreesAt id status (e ∷ rest)
foreign_event id e rest status foreign (last, history) =
    (last_status-foreign id e rest foreign ∙ last, ((λ own. absurd (foreign own)), history))

other_event :
    (id : String) (e : Event) (rest : List Event) (status : RunStatus)
    → IsOther e.payload
    → AgreesAt id status rest
    → AgreesAt id status (e ∷ rest)
other_event id e rest status o (last, history) = (
  ground (arith, eq_iff e.run_id id),
  ((λ own. Links-other e.payload (last_status id rest) o), history),
)

-- A legal change of status with its event keeps the agreement.
Transition-Agrees :
    {id : String} {target : RunStatus} {Made : Run → Run → Type 0} {version : ℕ} (db db' : Db)
    {r' : Run}
    → Transition id target Made version db db' r'
    → Agrees db
    → Agrees db'
Transition-Agrees {id} db db' {r'} t agrees j =
    subst (AgreesAt j (status_at (find_run j db'.runs))) (sym t.logged)
      (elim (Bool-cases (id == j)) [
        | inl same ↦
            let e : id ≡ j = ==→≡ id j same in
            let now : find_run j db'.runs ≡ some r' = rw (Changed-find j t.changed, same) refl in
            let edge : t.changed.before.status ⟶ r'.status =
              subst (λ s. t.changed.before.status ⟶ s) (sym t.reached) t.edge in
            let there : find_run j db.runs ≡ some t.changed.before =
              subst (λ k. find_run k db.runs ≡ some t.changed.before) e t.changed.found in
            subst (λ o. AgreesAt j (status_at o) (t.event ∷ db.events)) (sym now)
              (own_event j t.event db.events t.changed.before.status r'.status t.reason
                (t.of_run ∙ e) t.says edge
                (subst (λ o. AgreesAt j (status_at o) db.events) there (agrees j)))
        | inr differs ↦
            foreign_event j t.event db.events (status_at (find_run j db'.runs))
              (λ e. ground (arith, eq_iff id j, t.of_run))
              (subst (λ o. AgreesAt j (status_at o) db.events) {x = find_run j db.runs}
                {y = find_run j db'.runs} (sym (rw (Changed-find j t.changed, differs) refl))
                (agrees j))
      ])

-- A change of a row that keeps its status, without an event, keeps the agreement.
Changed-Agrees :
    {id : String} (db db' : Db) {r' : Run} (k : Changed id db.runs db'.runs r')
    → r'.status ≡ k.before.status
    → db'.events ≡ db.events
    → Agrees db
    → Agrees db'
Changed-Agrees {id} db db' {r'} k kept events agrees j =
    subst (AgreesAt j (status_at (find_run j db'.runs))) (sym events) (elim (Bool-cases (id == j)) [
      | inl same ↦
          let e : id ≡ j = ==→≡ id j same in
          let now : find_run j db'.runs ≡ some r' = rw (Changed-find j k, same) refl in
          let there : find_run j db.runs ≡ some k.before =
            subst (λ i. find_run i db.runs ≡ some k.before) e k.found in
          subst (λ s. AgreesAt j s db.events)
            (ap status_at there ∙ sym kept ∙ ap status_at (sym now)) (agrees j)
      | inr differs ↦
          subst (λ o. AgreesAt j (status_at o) db.events) {x = find_run j db.runs}
            {y = find_run j db'.runs} (sym (rw (Changed-find j k, differs) refl)) (agrees j)
    ])

created_status :
    (id j : String) (time : ℕ) (rows : List Run)
    → find_run id rows ≡ none
    → status_at (find_run j rows)
      ≡ status_at (if id == j then some (created_run id time) else find_run j rows)
created_status id j time rows fresh = elim (Bool-cases (id == j)) [
  | inl same ↦ rw same (ap status_at (ap (λ i. find_run i rows) (sym (==→≡ id j same)) ∙ fresh))
  | inr differs ↦ rw differs refl
]

module _ {is_run_event : Event → Bool} where
  Step-Agrees :
      {db db' : Db} (step : Step is_run_event db db') → IsOtherStep step → Agrees db → Agrees db'
  Step-Agrees (claim_step collate locked clock w d ev id token c h) o a =
      let (k, _, claimed) =
        claim_next_run-Claimed is_run_event clock w d ev token _ _ c collate locked id h in
      Transition-Agrees _ _ claimed.transition a
  Step-Agrees {db} {db'} (heartbeat_step clock lease v d again c h) o a =
      let (k, kept, events) = heartbeat-Changed clock lease v d again db db' c h in
      Changed-Agrees db db' k kept events a
  Step-Agrees (transition_step clock lease t v ev seen again r' h) o a =
      Transition-Agrees _ _
        (transition_owned_run-Transition is_run_event clock lease t v ev seen again _ _ r' h) a
  Step-Agrees (cancel_step clock id v ev seen again r' h) o a =
      Transition-Agrees _ _
        (cancel_queued_run-Transition is_run_event clock id v ev seen again _ _ r' h) a
  Step-Agrees (requeue_step clock id v ev seen again r' h) o a =
      Transition-Agrees _ _
        (requeue_expired_run-Transition is_run_event clock id v ev seen again _ _ r' h) a
  Step-Agrees {db} (append_step e h) o a = λ j.
      let written = (append_event-Appended e _ _ h).written in
      subst (λ (d : Db). AgreesAt j (status_at (find_run j d.runs)) d.events) (sym written)
        (other_event j e db.events (status_at (find_run j db.runs)) o (a j))
  Step-Agrees {db} {db'} (seed_step clock lease n r' h) o a =
      elim (bind_run_fault_seed-Changed clock lease n db db' r' h) [
        | inl same ↦ subst Agrees (sym same) a
        | inr (k, kept, events) ↦ Changed-Agrees db db' k kept events a
      ]
  Step-Agrees {db} {db'} (create_step id time r' h) o a = λ j.
      let (fresh, rows, events) = find-created id time j db db' r' h in
      subst (AgreesAt j (status_at (find_run j db'.runs))) (sym events) (
        subst (λ s. AgreesAt j s db.events)
          (created_status id j time db.runs fresh ∙ ap status_at (sym rows)) (a j))

  Step-IsLog : {db db' : Db} → Step is_run_event db db' → IsLog db.events → IsLog db'.events
  Step-IsLog (claim_step collate locked clock w d ev id token c h) l =
      let (k, _, claimed) =
        claim_next_run-Claimed is_run_event clock w d ev token _ _ c collate locked id h in
      claimed.transition.keeps_log l
  Step-IsLog {db} {db'} (heartbeat_step clock lease v d again c h) l =
      let (k, kept, events) = heartbeat-Changed clock lease v d again db db' c h in
      subst IsLog (sym events) l
  Step-IsLog (transition_step clock lease t v ev seen again r' h) l =
      (transition_owned_run-Transition is_run_event clock lease t v ev seen again _ _ r'
          h).keeps_log
        l
  Step-IsLog (cancel_step clock id v ev seen again r' h) l =
      (cancel_queued_run-Transition is_run_event clock id v ev seen again _ _ r' h).keeps_log l
  Step-IsLog (requeue_step clock id v ev seen again r' h) l =
      (requeue_expired_run-Transition is_run_event clock id v ev seen again _ _ r' h).keeps_log l
  Step-IsLog (append_step e h) l = append_event-IsLog e _ _ l h
  Step-IsLog {db} {db'} (seed_step clock lease n r' h) l =
      elim (bind_run_fault_seed-Changed clock lease n db db' r' h) [
        | inl same ↦ subst (λ (d : Db). IsLog d.events) (sym same) l
        | inr (k, kept, events) ↦ subst IsLog (sym events) l
      ]
  Step-IsLog {db} {db'} (create_step id time r' h) l =
      subst IsLog (sym (find-created id time id db db' r' h).2) l

  -- If it was so before, then after any calls by the workers, the control plane and other producers of
  -- events, of which none appends an event of a change of status by `append_event` itself, the lifecycle
  -- events of each Run are one path of legal changes from `queued` to the status of its row, each naming the
  -- status before it; and no event identity and no sequence of a Run is ever taken twice.
  pub history-Agrees :
      {db db' : Db} (reach : Reach is_run_event db db')
      → AppendsOther reach
      → Agrees db
      → IsLog db.events
      → Agrees db' × IsLog db'.events
  history-Agrees start o a l = (a, l)
  history-Agrees (more before step) o a l =
      let (a', l') = history-Agrees before o.0 a l in (Step-Agrees step o.1 a', Step-IsLog step l')
