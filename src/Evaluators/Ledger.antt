-- ===== src/Evaluators/Ledger.antt =====
-- What authorised each effect, and the checks of the ledger of effects against the events and the final state
-- (`_validate_authority`) in packages/evaluators/src/chaosagent_evaluators/engine.py.
use chaosagent.Base.{
  String, Bool, true, false, not, ◌&&◌, ◌||◌, Option, none, some, List, [], ◌∷◌, ◌++◌, map, filter,
  ◌==◌, nat_eq, string_eq, contains, Result, ok, err, ◌>>=◌, if◌then◌else◌,
}
use chaosagent.Json.{Members}
use chaosagent.Json.Same.{same_value, field}
use chaosagent.Faults.History.{is_unique, lookup, same_set}
use chaosagent.Evaluators.{
  EvidenceEvent, EffectFact, RequestDetail, EvaluationInput, CompanyState, EventRef, Authority,
  IntegrityError, duplicate_event, duplicate_effect, bindings_unavailable, bindings_malformed,
  approval_duplicated, effect_inconsistent, refund_disagrees, ticket_disagrees, unknown_effect_kind,
  refunds_disagree, identities_disagree, Stop, malformed, noted, Contracts,
}
use chaosagent.Evaluators.Lookups.{collect, assign, keyed}
use chaosagent.Evaluators.State.{refund_fields, business_of}
use chaosagent.Evaluators.Chains.{evidence_chain, request_chain, cause_chain, decision_chain}
use chaosagent.Evaluators.Approvals.{authorize}

-- `_MUTATION_CONTRACTS.get(tool_id) == contract_version`
abbrev pub is_mutation_contract : String → String → Bool
is_mutation_contract tool_id contract_version =
    (tool_id == "payments.refund" && contract_version == "chaosagent.tool/payments.refund/v0")
    || (tool_id == "support.update_ticket"
        && contract_version == "chaosagent.tool/support.update_ticket/v0")

-- `all(state.get(field) == result.get(field) for field in fields)`
abbrev pub agree_on : List String → Members → Members → Bool
agree_on [] a b = true
agree_on (name ∷ names) a b = same_value (field name a) (field name b) && agree_on names a b

abbrev pub is_state_of : List String → EffectFact → Option Members → Bool
is_state_of fields e none = false
is_state_of fields e (some row) = agree_on fields row e.result

-- the comparison of an effect with the final state: the errors that it notes
unfoldable pub state_errors :
    EffectFact → List (String × Members) → CompanyState → Result Stop (List IntegrityError)
state_errors e final_refunds final_state =
    if e.effect_kind == "refund.created"
    then ok (
        if is_state_of refund_fields e (lookup e.subject_id final_refunds)
        then []
        else refund_disagrees ∷ [])
    else if e.effect_kind == "support_ticket.updated"
    then keyed "ticket_id" final_state.support_tickets [] >>= (λ tickets. ok (
        if is_state_of ("ticket_id" ∷ "status" ∷ "note" ∷ []) e (lookup e.subject_id tickets)
        then []
        else ticket_disagrees ∷ []))
    else err (noted unknown_effect_kind)

abbrev pub ref_of_event : EvidenceEvent → EventRef
ref_of_event e = record { event_id = e.event_id; sequence = e.sequence }

-- what the loop over the effects has looked up before it
pub record Tables : Type 0 where
  pub initial_refunds : List (String × Members)
  pub final_refunds : List (String × Members)
  pub details : List RequestDetail

unfoldable pub is_effect_of : EvaluationInput → Tables → EffectFact → Bool
is_effect_of v t e =
    (e.run_id == v.run_id && not (contains e.subject_id (map (λ row. row.0) t.initial_refunds)))
    && (contains e.tool_id v.scenario.allowed_tools
        && is_mutation_contract e.tool_id e.contract_version)

-- the errors that a round notes, and the authority of its effect if it has come to its end
abbrev pub EffectRound : Type 0
EffectRound = List IntegrityError × Option Authority

abbrev pub noting :
    List IntegrityError → Result Stop (List IntegrityError × Authority) → Result Stop EffectRound
noting earlier (ok (errors, authority)) = ok (earlier ++ errors, some authority)
noting earlier (err malformed) = err malformed
noting earlier (err (noted n)) = ok (earlier ++ n ∷ [], none)

-- the round from the evidence of an effect on
unfoldable pub effect_chain :
    Contracts
    → EvaluationInput
    → List RequestDetail
    → EffectFact
    → Result Stop (List IntegrityError × Authority)
effect_chain contracts v details e = do
  chain ← evidence_chain v.events e
  request ← request_chain contracts details e chain.0 chain.2
  cause ← cause_chain v.events e chain.0 request chain.2
  decision ← decision_chain v.scenario.policy v.events e chain.0 request
  let outcome = authorize contracts v e chain.0 request cause decision
  ok (outcome.0, record { event_ref = ref_of_event chain.0; authorization = outcome.1 })

abbrev pub after_state :
    Result Stop (List IntegrityError)
    → Result Stop (List IntegrityError × Authority)
    → Result Stop EffectRound
after_state (ok disagreements) chain = noting disagreements chain
after_state (err malformed) chain = err malformed
after_state (err (noted n)) chain = ok (n ∷ [], none)

-- one round of the loop over the effects
unfoldable pub effect_round :
    Contracts → EvaluationInput → Tables → EffectFact → Result Stop EffectRound
effect_round contracts v t e =
    if is_effect_of v t e
    then after_state (state_errors e t.final_refunds v.final_state)
        (effect_chain contracts v t.details e)
    else ok (effect_inconsistent ∷ [], none)

-- what `_validate_authority` returns
pub record Authorities : Type 0 where
  pub errors : List IntegrityError
  pub by_effect : List (String × Authority)

abbrev pub assigned :
    String → Option Authority → List (String × Authority) → List (String × Authority)
assigned id none authorities = authorities
assigned id (some a) authorities = assign id a authorities

-- the loop
unfoldable pub effect_rounds :
    Contracts → EvaluationInput → Tables → List EffectFact → Authorities → Result Stop Authorities
effect_rounds contracts v t [] a = ok a
effect_rounds contracts v t (e ∷ es) a = do
  round ← effect_round contracts v t e
  effect_rounds contracts v t es (record {
    errors = a.errors ++ round.0;
    by_effect = assigned e.effect_id round.1 a.by_effect;
  })

abbrev pub error_unless : Bool → IntegrityError → List IntegrityError
error_unless true e = []
error_unless false e = e ∷ []

abbrev pub effect_ids : List EffectFact → List String
effect_ids effects = map (λ e. e.effect_id) effects

abbrev pub evidenced_id : EvidenceEvent → Option String
evidenced_id e = elim (business_of e.payload) [ none ↦ none | some p ↦ some p.evidence_id ]

abbrev pub refund_subject : EffectFact → Option String
refund_subject e = if e.effect_kind == "refund.created" then some e.subject_id else none

-- the checks before the loop
unfoldable pub opening_errors : EvaluationInput → List RequestDetail → List IntegrityError
opening_errors v details =
    error_unless (is_unique (map (λ d. d.event_id) v.events)) duplicate_event
    ++ (error_unless (is_unique (effect_ids v.effects)) duplicate_effect
        ++ (error_unless (is_unique (map (λ d. d.request_event_id) details)) bindings_malformed
            ++ error_unless (is_unique (map (λ a. a.approval_id) v.approvals)) approval_duplicated))

-- the checks after the loop
unfoldable pub closing_errors : EvaluationInput → Tables → List IntegrityError
closing_errors v t =
    error_unless
      (same_set
        (filter (λ id. not (contains id (map (λ row. row.0) t.initial_refunds)))
          (map (λ row. row.0) t.final_refunds))
        (collect refund_subject v.effects))
      refunds_disagree
    ++ error_unless (same_set (collect evidenced_id v.events) (effect_ids v.effects))
        identities_disagree

unfoldable pub bound_authority : Contracts → EvaluationInput → Tables → Result Stop Authorities
bound_authority contracts v t = do
  a ←
      effect_rounds contracts v t v.effects
        (record { errors = opening_errors v t.details; by_effect = [] })
  ok (record a { errors = a.errors ++ closing_errors v t })

-- `_validate_authority`
unfoldable pub validate_authority : Contracts → EvaluationInput → Result Stop Authorities
validate_authority contracts v = do
  initial_refunds ← keyed "refund_id" v.initial_state.refunds []
  final_refunds ← keyed "refund_id" v.final_state.refunds []
  elim v.execution.tool_requests [
    | none ↦ ok (record { errors = bindings_unavailable ∷ []; by_effect = [] })
    | some details ↦ bound_authority contracts v (record {
      initial_refunds = initial_refunds;
      final_refunds = final_refunds;
      details = details;
    })
  ]
