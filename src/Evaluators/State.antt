-- ===== src/Evaluators/State.antt =====
-- The company's state at the end of the evidence, in packages/evaluators/src/chaosagent_evaluators/engine.py:
-- the effects replayed over the initial state (`_replay_state`), and what two states are compared by
-- (`_relevant_state`).
use chaosagent.Base.{
  ℕ, String, Bool, true, false, ◌&&◌, ◌||◌, Option, none, some, List, [], ◌∷◌, ◌++◌, map, ltb, ◌==◌,
  nat_eq, string_eq, Result, ok, ◌>>=◌, or_raise, if◌then◌else◌,
}
use chaosagent.Store.Texts.{text_lt}
use chaosagent.Json.{object, Members, end, member, get}
use chaosagent.Json.Same.{same_value, field, assign_member}
use chaosagent.Evaluators.{
  EvidencePayload, evidenced, StateEvidence, EvidenceEvent, EffectFact, CompanyState, Stop,
  malformed,
}
use chaosagent.Evaluators.Lookups.{last_with, collect, any_of, sort_by, text_of_value, keyed}

abbrev pub refund_fields : List String
refund_fields =
    "refund_id" ∷ "payment_id" ∷ "order_id" ∷ "status" ∷ "amount_minor" ∷ "currency" ∷ []

abbrev pub ticket_fields : List String
ticket_fields = "ticket_id" ∷ "customer_id" ∷ "order_id" ∷ "status" ∷ "subject" ∷ "note" ∷ []

abbrev pub business_of : EvidencePayload → Option StateEvidence
business_of (evidenced p) = if p.evidence_kind == "business_effect" then some p else none
business_of _ = none

-- an item of `bounded_effect_sequences`
abbrev pub evidence_entry : EvidenceEvent → Option (String × ℕ)
evidence_entry e = elim (business_of e.payload) [
  | none ↦ none
  | some p ↦ some (p.evidence_id, e.sequence)
]

unfoldable pub evidence_sequences : List EvidenceEvent → List (String × ℕ)
evidence_sequences events = collect evidence_entry events

abbrev pub sequenced : List (String × ℕ) → EffectFact → Option (ℕ × EffectFact)
sequenced sequences e = elim (last_with (λ entry. entry.0 == e.effect_id) sequences) [
  | none ↦ none
  | some entry ↦ some (entry.1, e)
]

-- the effects that have their evidence within the boundary, each with the sequence of the evidence
unfoldable pub bounded_effects : List (String × ℕ) → List EffectFact → List (ℕ × EffectFact)
bounded_effects sequences effects = collect (sequenced sequences) effects

abbrev pub is_evidenced_before : ℕ × EffectFact → ℕ × EffectFact → Bool
is_evidenced_before a b = ltb a.0 b.0 || (a.0 == b.0 && text_lt a.1.effect_id b.1.effect_id)

-- `{key: result[key] for key in keys}`
unfoldable pub projection : List String → Members → Result Stop Members
projection [] d = ok end
projection (key ∷ keys) d = do
  value ← or_raise (get key d) malformed
  rest ← projection keys d
  ok (member key value rest)

abbrev pub is_row : String → String → Members → Bool
is_row name id row = elim (text_of_value (get name row)) [ ok s ↦ s == id | _ ↦ false ]

-- the row that the dictionary of tickets has under an identity is the last one
unfoldable pub update_ticket : EffectFact → List Members → List Members
update_ticket e [] = []
update_ticket e (row ∷ rows) =
    if any_of (is_row "ticket_id" e.subject_id) rows
    then row ∷ update_ticket e rows
    else if is_row "ticket_id" e.subject_id row
    then assign_member "note" (field "note" e.result)
        (assign_member "status" (field "status" e.result) row)
      ∷ rows
    else row ∷ rows

unfoldable pub replay_refund : EffectFact → CompanyState → Result Stop CompanyState
replay_refund e state = do
  row ← projection refund_fields e.result
  ok (record state { refunds = state.refunds ++ row ∷ [] })

-- one round of the loop over the sorted effects
unfoldable pub replay_one : EffectFact → CompanyState → Result Stop CompanyState
replay_one e state =
    if e.effect_kind == "refund.created"
    then replay_refund e state
    else if e.effect_kind == "support_ticket.updated"
    then ok (record state { support_tickets = update_ticket e state.support_tickets })
    else ok state

unfoldable pub replay_all : List (ℕ × EffectFact) → CompanyState → Result Stop CompanyState
replay_all [] state = ok state
replay_all (e ∷ es) state = do state' ← replay_one e.1 state; replay_all es state'

-- `_replay_state`
unfoldable pub replay_state : CompanyState → List (ℕ × EffectFact) → Result Stop CompanyState
replay_state initial effects = do
  tickets ← keyed "ticket_id" initial.support_tickets []
  replay_all (sort_by is_evidenced_before effects) initial

-- `{field: row.get(field) for field in fields}`
abbrev pub fields_of : List String → Members → Members
fields_of [] row = end
fields_of (name ∷ names) row = member name (field name row) (fields_of names row)

unfoldable pub identified_rows : String → List Members → Result Stop (List (String × Members))
identified_rows name [] = ok []
identified_rows name (row ∷ rows) = do
  id ← text_of_value (get name row)
  rest ← identified_rows name rows
  ok ((id, row) ∷ rest)

unfoldable pub relevant_rows : String → List String → List Members → Result Stop (List Members)
relevant_rows name fields rows = do
  entries ← identified_rows name rows
  ok (map (λ entry. fields_of fields entry.1) (sort_by (λ a b. text_lt a.0 b.0) entries))

abbrev pub same_rows : List Members → List Members → Bool
same_rows [] [] = true
same_rows (a ∷ rest) (b ∷ bs) = same_value (object a) (object b) && same_rows rest bs
same_rows _ _ = false

-- `_relevant_state(left) == _relevant_state(right)`
unfoldable pub same_relevant_state : CompanyState → CompanyState → Result Stop Bool
same_relevant_state left right = do
  refunds ← relevant_rows "refund_id" refund_fields left.refunds
  tickets ← relevant_rows "ticket_id" ticket_fields left.support_tickets
  refunds' ← relevant_rows "refund_id" refund_fields right.refunds
  tickets' ← relevant_rows "ticket_id" ticket_fields right.support_tickets
  ok (same_rows refunds refunds' && same_rows tickets tickets')
