-- ===== src/Events/Log.antt =====
-- What the appends leave in the log: each event once, each sequence of a Run once, in range.
use chaosagent.Base.{
  ℕ, ◌+◌, ◌≤◌, ◌<◌, ◌≡◌, refl, String, Bool, true, false, Option, some, List, [], ◌∷◌, arith,
  eq_iff, Result, ok, nat_eq, string_eq, subst, sym, Result-cases, inl, inr,
}
use chaosagent.Lifecycle.{RunStatus}
use chaosagent.Store.Tables.{Error, LifecycleEvidence, Event, lifecycle, Run, Db}
use chaosagent.Store.Rows.{find_run}
use chaosagent.Events.{
  max_safe_integer, fits_jsonb, event_id_exists, sequence_exists, append_event, max_sequence,
  append_event_allocated, append_lifecycle_event,
}

abbrev pub IsLog : List Event → Type 0
IsLog [] = Unit
IsLog (e ∷ rest) =
    (event_id_exists e.event_id rest ≡ false)
    × (sequence_exists e.run_id e.sequence rest ≡ false)
    × (1 ≤ e.sequence)
    × (e.sequence ≤ max_safe_integer)
    × IsLog rest

-- What a successful append has tested, and all that it has written.
pub record Appended (e : Event) (db db' : Db) : Type 0 where
  pub written : db' ≡ record db { events = e ∷ db.events }
  pub id_is_new : event_id_exists e.event_id db.events ≡ false
  pub sequence_is_new : sequence_exists e.run_id e.sequence db.events ≡ false
  pub positive : 1 ≤ e.sequence
  pub safe : e.sequence ≤ max_safe_integer

pub append_event-Appended :
    (e : Event) (db db' : Db) → append_event e db ≡ ok db' → Appended e db db'
unfolding append_event
append_event-Appended e db db' h = record {
  written = ground arith;
  id_is_new = ground arith;
  sequence_is_new = ground arith;
  positive = ground arith;
  safe = ground arith;
}

-- A successful append keeps the log well formed: no event identity and no sequence of a Run twice,
-- and every sequence between 1 and 2^53 - 1.
pub append_event-IsLog :
    (e : Event) (db db' : Db) → IsLog db.events → append_event e db ≡ ok db' → IsLog db'.events
append_event-IsLog e db db' l h =
    let a = append_event-Appended e db db' h in
    subst (λ (d : Db). IsLog d.events) (sym a.written)
      (a.id_is_new, a.sequence_is_new, a.positive, a.safe, l)

-- A sequence above the greatest of a Run is new.
pub sequence_exists-above :
    (id : String) (n : ℕ) (events : List Event)
    → max_sequence id events < n
    → sequence_exists id n events ≡ false
unfolding max_sequence sequence_exists
sequence_exists-above id n [] h = refl
sequence_exists-above id n (e ∷ rest) h = ground (arith, sequence_exists-above id n rest)

module _ (run_id : String) (event_factory : ℕ → Result Error Event) (db : Db) where
  -- What a successful allocation has appended: the factory's event for the sequence next to the
  -- greatest of its Run.
  pub allocated_inversion :
      (db' : Db)
      → append_event_allocated run_id event_factory db ≡ ok db'
      → (e : Event) × (event_factory (max_sequence run_id db.events + 1) ≡ ok e)
        × (e.run_id ≡ run_id)
        × (e.sequence ≡ max_sequence run_id db.events + 1)
        × (append_event e db ≡ ok db')
  unfolding append_event_allocated
  allocated_inversion db' h =
      elim (Result-cases (event_factory (max_sequence run_id db.events + 1))) [
        | inl (e, made) ↦ (
          e,
          made,
          ground (arith, eq_iff e.run_id run_id),
          ground (arith, eq_iff e.run_id run_id),
          ground arith,
        )
        | inr (x, bad) ↦ absurd (ground arith)
      ]

  -- An allocation never meets a taken sequence: where the Run exists, its greatest sequence is below
  -- 2^53 - 1, and the factory gives an event of that Run and of the allocated sequence whose texts
  -- JSONB can hold and whose identity is new, the event is appended.
  pub allocated_succeeds :
      (r : Run) (e : Event)
      → find_run run_id db.runs ≡ some r
      → max_sequence run_id db.events < max_safe_integer
      → event_factory (max_sequence run_id db.events + 1) ≡ ok e
      → e.run_id ≡ run_id
      → e.sequence ≡ max_sequence run_id db.events + 1
      → fits_jsonb e ≡ true
      → event_id_exists e.event_id db.events ≡ false
      → append_event_allocated run_id event_factory db ≡ ok (record db { events = e ∷ db.events })
  unfolding append_event_allocated append_event
  allocated_succeeds r e found room made same next fits new =
      let taken : sequence_exists e.run_id e.sequence db.events ≡ false =
        rw (same, next)
          (sequence_exists-above run_id (max_sequence run_id db.events + 1) db.events
            (omega arith)) in
      rw (found, made) (ground (arith, eq_iff e.run_id run_id))

-- What a successful append of a lifecycle event has written: one event of the Run that names both
-- statuses, under the sequence next to the greatest of the Run.
pub record LifecycleAppended (run_id : String) (previous_state state : RunStatus) (db db' : Db)
    : Type 0 where
  pub event : Event
  pub of_run : event.run_id ≡ run_id
  pub next : event.sequence ≡ max_sequence run_id db.events + 1
  pub reason : Option String
  pub says : event.payload ≡ lifecycle state previous_state reason
  pub appended : append_event event db ≡ ok db'

pub append_lifecycle_event-Appended :
    (is_run_event : Event → Bool) (run_id : String) (previous_state state : RunStatus)
    (occurred_at : ℕ) (evidence : LifecycleEvidence) (db db' : Db)
    → append_lifecycle_event is_run_event run_id previous_state state occurred_at evidence db
      ≡ ok db'
    → LifecycleAppended run_id previous_state state db db'
unfolding append_lifecycle_event
append_lifecycle_event-Appended is_run_event run_id p s occurred_at evidence db db' h =
    let (e, made, same, next, appended) = allocated_inversion run_id _ db db' h in
    record {
      event = e;
      of_run = same;
      next = next;
      reason = evidence.reason_code;
      says = ground arith;
      appended = appended;
    }
