-- ===== src/Evaluators/Streams.antt =====
-- `validate_run_event_stream_v0` in packages/evidence/src/chaosagent_evidence/contracts.py. It raises when a
-- test fails, so it is a Boolean here.
use chaosagent.Base.{
  String, Bool, true, false, not, ◌&&◌, ◌||◌, Option, none, some, List, [], ◌∷◌, ◌++◌, map, ltb,
  ◌==◌, nat_eq, string_eq,
}
use chaosagent.Faults.History.{AttemptPayload, is_unique, same_attempt}
use chaosagent.Evaluators.{
  EvidencePayload, requested, resulted, evidenced, matched, applied, observed, EvidenceEvent,
  Contracts,
}
use chaosagent.Evaluators.Lookups.{collect, each_of, event_of}

abbrev pub related_ids : EvidencePayload → List String
related_ids (evidenced p) = p.related_event_ids
related_ids (matched p) = p.related_event_ids
related_ids (applied p) = p.related_event_ids
related_ids (observed p) = p.related_event_ids
related_ids _ = []

abbrev pub requested_attempt : EvidencePayload → Option AttemptPayload
requested_attempt (requested p digest key) = some p
requested_attempt _ = none

abbrev pub resulted_attempt : EvidencePayload → Option AttemptPayload
resulted_attempt (resulted p request_event_id) = some p
resulted_attempt _ = none

abbrev pub attempt_ids :
    (EvidencePayload → Option AttemptPayload) → List EvidenceEvent → List String
attempt_ids f events = map (λ p. p.attempt_id) (collect (λ e. f e.payload) events)

-- `sequences[index] > sequences[index - 1]` all along
unfoldable pub is_increasing : List EvidenceEvent → Bool
is_increasing [] = true
is_increasing (e ∷ []) = true
is_increasing (e ∷ d ∷ rest) = ltb e.sequence d.sequence && is_increasing (d ∷ rest)

-- a result answers a request that is_preceded it, with the same attempt
abbrev pub answers : List EvidenceEvent → EvidencePayload → Bool
answers earlier (resulted p request_event_id) = elim (event_of request_event_id earlier) [
  | none ↦ false
  | some request ↦ elim (requested_attempt request.payload) [
    | none ↦ false
    | some q ↦ same_attempt p q
  ]
]
answers earlier _ = true

-- the loop over the events, with those before the one at hand
unfoldable pub all_answer : List EvidenceEvent → List EvidenceEvent → Bool
all_answer earlier [] = true
all_answer earlier (e ∷ es) = answers earlier e.payload && all_answer (earlier ++ e ∷ []) es

abbrev pub is_preceded : List EvidenceEvent → EvidenceEvent → String → Bool
is_preceded events e id = elim (event_of id events) [
  | none ↦ false
  | some cause ↦ ltb cause.sequence e.sequence
]

abbrev pub causes : Option String → List String
causes none = []
causes (some id) = id ∷ []

abbrev pub references_precede : List EvidenceEvent → EvidenceEvent → Bool
references_precede events e =
    each_of (is_preceded events e) (causes e.causation_event_id ++ related_ids e.payload)

abbrev pub starts_at_one : List EvidenceEvent → Bool
starts_at_one [] = false
starts_at_one (e ∷ es) = e.sequence == 1

abbrev pub of_one_run : List EvidenceEvent → Bool
of_one_run [] = false
of_one_run (e ∷ es) = each_of (λ d. d.run_id == e.run_id) es

-- `validate_run_event_stream_v0(events, complete=complete)` returns
unfoldable pub is_event_stream : Contracts → Bool → List EvidenceEvent → Bool
is_event_stream contracts complete events =
    ((each_of contracts.is_run_event events && of_one_run events)
      && (is_unique (map (λ e. e.event_id) events) && is_increasing events))
    && ((all_answer [] events
          && (not complete || (starts_at_one events && each_of (references_precede events) events)))
        && (is_unique (attempt_ids requested_attempt events)
            && is_unique (attempt_ids resulted_attempt events)))
