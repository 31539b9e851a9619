-- ===== src/Runs/Transition.antt =====
-- A change of status and its event, as the savepoint of repository.py writes them together.
use chaosagent.Base.{
  err, false, ℕ, ◌+◌, ◌≡◌, String, Bool, true, Option, some, ok, arith, Result-cases, Option-cases,
  inl, inr, nat_eq, string_eq, subst, sym, ap, ◌∙◌, ◌∷◌,
}
use chaosagent.Lifecycle.{RunStatus, status_eq}
use chaosagent.Lifecycle.Graph.{◌⟶◌}
use chaosagent.Store.Tables.{Run, LifecycleEvidence, Event, lifecycle, Db, Error}
use chaosagent.Store.Rows.{replace_run, find_run, update_run, update_run-eq-some}
use chaosagent.Events.{append_lifecycle_event, max_sequence}
use chaosagent.Events.Log.{
  IsLog, append_event-Appended, append_event-IsLog, append_lifecycle_event-Appended,
}
use chaosagent.Runs.{change_status}
use chaosagent.Runs.Protocol.{Change, Changed}

-- One legal change of status to `target`, which `Made` describes, with its event: the event names the status before and the status after, its
-- sequence is the next of the Run, and it is the only event that is added.
pub record Transition (id : String) (target : RunStatus) (Made : Run → Run → Type 0) (version : ℕ)
    (db db' : Db) (r' : Run) : Type 0 where
  pub changed : Changed id db.runs db'.runs r'
  pub made : Made changed.before r'
  pub expected : changed.before.lifecycle_version ≡ version
  pub edge : changed.before.status ⟶ target
  pub reached : r'.status ≡ target
  pub event : Event
  pub of_run : event.run_id ≡ id
  pub reason : Option String
  pub says : event.payload ≡ lifecycle r'.status changed.before.status reason
  pub next : event.sequence ≡ max_sequence id db.events + 1
  pub logged : db'.events ≡ event ∷ db.events
  pub keeps_log : IsLog db.events → IsLog db'.events

module _ (is_run_event : Event → Bool) (id : String) (source target : RunStatus) (time : ℕ)
    (evidence : LifecycleEvidence) (test : Run → Bool) (set : Run → Run) (failure : Error)
    (db db' : Db) (r' : Run) where
  change_status_inversion :
      change_status is_run_event id source target time evidence test set failure db ≡ ok (r', db')
      → (mid : Db) × (update_run id test set db ≡ some (r', mid))
        × (append_lifecycle_event is_run_event id source target time evidence mid ≡ ok db')
  unfolding change_status
  change_status_inversion h = elim (Option-cases (update_run id test set db)) [
    | inl missing ↦ absurd (ground arith)
    | inr (u, e) ↦
        elim (Result-cases
          (append_lifecycle_event is_run_event id source target time evidence u.1)) [
            | inl (d, a) ↦ (u.1, ground arith, ground arith)
            | inr (x, a) ↦ absurd (ground arith)
          ]
  ]

  pub change_status-Transition :
      (Made : Run → Run → Type 0) (version : ℕ)
      → source ⟶ target
      → ((r : Run) → test r ≡ true → r.lifecycle_version ≡ version)
      → ((r : Run)
          → test r ≡ true
          → (r.status ≡ source) × Change r (set r) × Made r (set r) × ((set r).status ≡ target))
      → change_status is_run_event id source target time evidence test set failure db ≡ ok (r', db')
      → Transition id target Made version db db' r'
  change_status-Transition Made version edge expects changes h =
      let (mid, updated, appended) = change_status_inversion h in
      let (r, found, passed, written, stored) = update_run-eq-some id test set db mid r' updated in
      let l =
        append_lifecycle_event-Appended is_run_event id source target time evidence mid db'
          appended in
      let a = append_event-Appended l.event mid db' l.appended in
      let after : target ≡ r'.status =
        sym (changes r passed).3 ∙ ap (λ (x : Run). x.status) (sym written) in
      let prior : source ≡ r.status = sym (changes r passed).0 in
      record {
        changed = record {
          before = r;
          found = found;
          change = subst (λ x. Change r x) (sym written) (changes r passed).1;
          stored =
              ap (λ (d : Db). d.runs) a.written
              ∙ ap (λ (d : Db). d.runs) stored
              ∙ ap (λ x. replace_run x db.runs) (sym written);
        };
        made = subst (λ x. Made r x) (sym written) (changes r passed).2;
        expected = expects r passed;
        edge = subst (λ x. x ⟶ target) prior edge;
        reached = sym after;
        event = l.event;
        of_run = l.of_run;
        reason = l.reason;
        says = l.says ∙ λ i. lifecycle (after i) (prior i) l.reason;
        next = l.next ∙ ap (λ (d : Db). max_sequence id d.events + 1) stored;
        logged = ap (λ (d : Db). d.events) a.written ∙ ap (λ (d : Db). l.event ∷ d.events) stored;
        keeps_log = λ log.
            append_event-IsLog l.event mid db' (subst (λ (d : Db). IsLog d.events) (sym stored) log)
              l.appended;
      }

-- An UPDATE whose test the row does not pass raises, whatever the event.
pub change_status_refused :
    (is_run_event : Event → Bool) (id : String) (source target : RunStatus) (time : ℕ)
    (evidence : LifecycleEvidence) (test : Run → Bool) (set : Run → Run) (failure : Error) (db : Db)
    (r : Run)
    → find_run id db.runs ≡ some r
    → test r ≡ false
    → change_status is_run_event id source target time evidence test set failure db ≡ err failure
unfolding change_status update_run
change_status_refused is_run_event id source target time evidence test set failure db r found
      refused =
    rw (found, refused)
