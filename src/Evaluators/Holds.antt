-- ===== src/Evaluators/Holds.antt =====
-- What the gates of the evaluator ask, and that a gate which has passed holds.
use chaosagent.Base.{
  ◌≡◌, ◌≢◌, refl, sym, ap, ◌∙◌, ◌≤◌, ℕ, String, Bool, true, false, ◌&&◌, Option, none, some, List,
  [], ◌∷◌, map, filter, length, leb, leb→le, ◌==◌, ==→≡, nat_eq, string_eq, is_some_of,
  is_some_of-true, Result, ok, arith, All, bind_ok, ok_injective, and_true, Bool-cases, inl, inr,
}
use chaosagent.Faults.History.{is_unique}
use chaosagent.Json.{Members, all_in}
use chaosagent.Evaluators.{
  EffectFact, RequestDetail, Execution, Budgets, Gate, GateKind, refund_state, support_ticket_state,
  effect_count, authorization_respected, required_approval, claim_supported, fault_observed,
  budgets_satisfied, unknown_kind, SupportingEffect, EvaluationInput, Authority, passed, GateResult,
  Stop, Contracts,
}
use chaosagent.Evaluators.Lookups.{each_of, insert_by, sort_by}
use chaosagent.Evaluators.Chains.{is_nonempty}
use chaosagent.Evaluators.Ledger.{Authorities}
use chaosagent.Evaluators.Gates.{
  status_if, is_in_range, is_refund_row, count_tickets, is_allowed, is_authorized, of_kinds,
  authorization_gate, has_results, is_optionally, is_supporting, has_budget_fields, is_complete,
  is_within_budgets, faults_observed, refund_gate, effect_gate, claim_gate, fault_gate,
  budgets_gate, evaluate_gate,
}
use chaosagent.Evaluators.FaultEvidence.{FaultRefs, validate_fault_evidence}
use chaosagent.Evaluators.Trails.{Trail, IsTrail}
use chaosagent.Evaluators.Permits.{IsPermitted, authorize-IsPermitted}
use chaosagent.Evaluators.Settled.{effect_chain-IsTrail}
use chaosagent.Evaluators.Rounds.{IsSettled}
use chaosagent.Evaluators.Clean.{CleanAuthority}

-- The descriptions of tool requests that the execution recorded, one for each request.
pub record IsRecorded (w : EvaluationInput) (details : List RequestDetail) : Type 0 where
  pub bindings : w.execution.tool_requests ≡ some details
  pub once : is_unique (map (λ d. d.request_event_id) details) ≡ true

-- An effect has its trail of events, with the description that the execution recorded of its request.
pub record IsEvidenced (contracts : Contracts) (w : EvaluationInput) (e : EffectFact) : Type 0 where
  pub details : List RequestDetail
  pub recorded : IsRecorded w details
  pub t : Trail
  pub trail : IsTrail contracts w details e t

-- An effect has its trail, and was permitted.
pub record IsAuthorized (contracts : Contracts) (w : EvaluationInput) (e : EffectFact)
    : Type 0 where
  pub details : List RequestDetail
  pub recorded : IsRecorded w details
  pub t : Trail
  pub trail : IsTrail contracts w details e t
  pub permitted : IsPermitted contracts w e t

-- What each gate asks of an input.
pub Holds : Contracts → EvaluationInput → Gate → Type 0
Holds contracts w g = elim g.kind [
  | refund_state order_id payment_id amount status currency low high ↦
      let rows =
        filter (is_refund_row order_id payment_id amount status currency) w.final_state.refunds in
      (low ≤ length rows) × (length rows ≤ high)
  | support_ticket_state ticket_id order_id status wanted ↦
      count_tickets ticket_id order_id status wanted w.final_state.support_tickets ≡ ok 1
  | effect_count kind low high ↦
      let effects = filter (λ e. e.effect_kind == kind) w.effects in
      (low ≤ length effects) × (length effects ≤ high)
  | authorization_respected kinds ↦ All (IsAuthorized contracts w) (of_kinds kinds w.effects)
  | required_approval kinds ↦ All (IsAuthorized contracts w) (of_kinds kinds w.effects)
  | claim_supported claim expected ↦
      (w.execution.final_answer ≡ some claim)
      × (filter
            (λ e.
              (e.effect_kind == expected.effect_kind && e.subject_type == expected.subject_type)
              && (is_optionally expected.subject_id e.subject_id
                  && has_results expected.result_equals e.result))
            w.effects
          ≢ [])
  | fault_observed ids ↦
      (refs : FaultRefs) × (validate_fault_evidence contracts w ≡ ([], refs))
      × (all_in ids (faults_observed refs) ≡ true)
  | budgets_satisfied ↦
      (w.execution.cost_complete ≡ some true)
      × (is_within_budgets w.execution w.scenario.budgets ≡ true)
  | unknown_kind ↦ ⊥
]

-- the predicates of an item inserted, and of a sorted list
All-insert_by {ℓ κ} :
    {A : Type ℓ} (P : A → Type κ) (lt : A → A → Bool) (x : A) (ys : List A)
    → All P (insert_by lt x ys)
    → P x × All P ys
unfolding insert_by
All-insert_by P lt x [] h = (h.0, tt)
All-insert_by P lt x (y ∷ ys) h = elim (Bool-cases (lt y x)) [
  | inl later ↦
      let h' : P y × All P (insert_by lt x ys) = rw later at h in
      let (px, pys) = All-insert_by P lt x ys h'.1 in (px, (h'.0, pys))
  | inr here ↦ rw here at h
]

pub All-sort_by {ℓ κ} :
    {A : Type ℓ} (P : A → Type κ) (lt : A → A → Bool) (xs : List A)
    → All P (sort_by lt xs)
    → All P xs
unfolding sort_by
All-sort_by P lt [] h = tt
All-sort_by P lt (x ∷ xs) h =
    let (px, rest) = All-insert_by P lt x (sort_by lt xs) h in (px, All-sort_by P lt xs rest)

All-filter {ℓ κ} :
    {A : Type ℓ} (P : A → Type κ) (p : A → Bool) (xs : List A) → All P xs → All P (filter p xs)
All-filter P p [] h = tt
All-filter P p (x ∷ xs) h = elim (Bool-cases (p x)) [
  | inl yes' ↦ rw yes' (h.0, All-filter P p xs h.1)
  | inr no' ↦ rw no' (All-filter P p xs h.1)
]

All-each_of {ℓ κ μ} :
    {A : Type ℓ} (P : A → Type κ) (Q : A → Type μ) (p : A → Bool) (xs : List A)
    → ((x : A) → P x → p x ≡ true → Q x)
    → All P xs
    → each_of p xs ≡ true
    → All Q xs
All-each_of P Q p [] f h tests = tt
All-each_of P Q p (x ∷ xs) f h tests =
    let (test, rest) = and_true (p x) (each_of p xs) tests in
    (f x h.0 test, All-each_of P Q p xs f h.1 rest)

status_if-passed : (b : Bool) → status_if b ≡ passed → b ≡ true
status_if-passed true h = refl
status_if-passed false h = absurd (ground arith)

within : (low high n : ℕ) → is_in_range low high n ≡ true → (low ≤ n) × (n ≤ high)
within low high n h =
    let (above, below) = and_true (leb low n) (leb n high) h in
    (leb→le low n above, leb→le n high below)

complete : (c : Option Bool) → is_complete c ≡ true → c ≡ some true
complete none h = absurd (ground arith)
complete (some true) h = refl
complete (some false) h = absurd (ground arith)

status_of :
    (x r : GateResult)
    → ◌≡◌ {A = Result Stop GateResult} (ok x) (ok r)
    → r.status ≡ passed
    → x.status ≡ passed
status_of x r h p = ap (λ (g : GateResult). g.status) (ok_injective x r (ok x) refl h) ∙ p

supported :
    (expected : SupportingEffect) (authorities : List (String × Authority))
    (effects : List EffectFact)
    → is_nonempty (filter (is_supporting expected authorities) effects) ≡ true
    → filter
        (λ e.
          (e.effect_kind == expected.effect_kind && e.subject_type == expected.subject_type)
          && (is_optionally expected.subject_id e.subject_id
              && has_results expected.result_equals e.result))
        effects
      ≢ []
unfolding is_supporting
supported expected authorities [] h = absurd (ground arith)
supported expected authorities (e ∷ es) h =
    λ empty. absurd (ground (arith, supported expected authorities es))

refund_gate-status :
    (g : Gate) (p : Members → Bool) (low high : ℕ) (v : EvaluationInput)
    (authorities : List (String × Authority))
    → (refund_gate g p low high v authorities).status ≡ passed
    → status_if (is_in_range low high (length (filter p v.final_state.refunds))) ≡ passed
unfolding refund_gate
refund_gate-status g p low high v authorities h = h

effect_gate-status :
    (g : Gate) (kind : String) (low high : ℕ) (v : EvaluationInput)
    (authorities : List (String × Authority))
    → (effect_gate g kind low high v authorities).status ≡ passed
    → status_if (is_in_range low high (length (filter (λ e. e.effect_kind == kind) v.effects)))
      ≡ passed
unfolding effect_gate
effect_gate-status g kind low high v authorities h = h

claim_gate-status :
    (g : Gate) (claim : String) (expected : SupportingEffect) (v : EvaluationInput)
    (authorities : List (String × Authority))
    → (claim_gate g claim expected v authorities).status ≡ passed
    → (is_some_of v.execution.final_answer claim ≡ true)
      × (is_nonempty (filter (is_supporting expected authorities) v.effects) ≡ true)
unfolding claim_gate
claim_gate-status g claim expected v authorities h = and_true _ _ (status_if-passed _ h)

fault_gate-status :
    (g : Gate) (ids : List String) (refs : FaultRefs)
    → (fault_gate g ids refs).status ≡ passed
    → all_in ids (faults_observed refs) ≡ true
unfolding fault_gate
fault_gate-status g ids refs h = status_if-passed _ h

budgets_gate-status :
    (g : Gate) (x : Execution) (budgets : Budgets)
    → (budgets_gate g x budgets).status ≡ passed
    → (x.cost_complete ≡ some true) × (is_within_budgets x budgets ≡ true)
unfolding budgets_gate
budgets_gate-status g x budgets h =
    elim (Bool-cases (has_budget_fields x && is_complete x.cost_complete)) [
      | inl full ↦ (
        complete x.cost_complete (and_true _ _ full).1,
        status_if-passed (is_within_budgets x budgets) (ground arith),
      )
      | inr partial ↦ absurd (ground arith)
    ]

module _ (contracts : Contracts) (w : EvaluationInput) (b : Authorities)
    (clean : CleanAuthority contracts w b) where
  recorded : IsRecorded w clean.tables.details
  recorded = record { bindings = clean.bindings; once = clean.bound_once }

  pub settled-IsEvidenced :
      (e : EffectFact) → IsSettled contracts w clean.tables b e → IsEvidenced contracts w e
  settled-IsEvidenced e s =
      let (t, trail, made) =
        effect_chain-IsTrail contracts w clean.tables.details e ([], s.authority) s.chain in
      record { details = clean.tables.details; recorded = recorded; t = t; trail = trail }

  settled-IsAuthorized :
      (e : EffectFact)
      → IsSettled contracts w clean.tables b e
      → is_authorized b.by_effect e ≡ true
      → IsAuthorized contracts w e
  settled-IsAuthorized e s allowed =
      let (t, trail, made) =
        effect_chain-IsTrail contracts w clean.tables.details e ([], s.authority) s.chain in
      let permitted : is_allowed s.authority.authorization ≡ true = ground (arith, s.assigned_to) in
      record {
        details = clean.tables.details;
        recorded = recorded;
        t = t;
        trail = trail;
        permitted =
            authorize-IsPermitted contracts w e t
              (ap (λ (a : Authority). is_allowed a.authorization) (sym made) ∙ permitted);
      }

  authorization_gate-Holds :
      (g : Gate) (kinds : List String)
      → (authorization_gate g kinds w.effects b.by_effect).status ≡ passed
      → All (IsAuthorized contracts w) (of_kinds kinds w.effects)
  unfolding authorization_gate
  authorization_gate-Holds g kinds h =
      All-each_of (IsSettled contracts w clean.tables b) (IsAuthorized contracts w)
        (is_authorized b.by_effect) (of_kinds kinds w.effects) settled-IsAuthorized
        (All-filter (IsSettled contracts w clean.tables b) _ w.effects clean.settled)
        (status_if-passed _ h)

  -- a gate that has passed holds
  pub gate-Holds :
      (id : String) (k : GateKind) (refs : FaultRefs) (r : GateResult)
      → validate_fault_evidence contracts w ≡ ([], refs)
      → evaluate_gate w b.by_effect refs (record { gate_id = id; kind = k }) ≡ ok r
      → r.status ≡ passed
      → Holds contracts w (record { gate_id = id; kind = k })
  unfolding Holds evaluate_gate
  gate-Holds id (refund_state order_id payment_id amount status currency low high) refs r seen h p =
      within low high _ (status_if-passed _ (refund_gate-status _ _ _ _ _ _ (status_of _ r h p)))
  gate-Holds id (support_ticket_state ticket_id order_id status wanted) refs r seen h p =
      let (count, counted, on) =
        bind_ok (count_tickets ticket_id order_id status wanted w.final_state.support_tickets) _ r
          h in
      counted ∙ ap ok (==→≡ count 1 (status_if-passed _ (status_of _ r on p)))
  gate-Holds id (effect_count kind low high) refs r seen h p =
      within low high _ (status_if-passed _ (effect_gate-status _ _ _ _ _ _ (status_of _ r h p)))
  gate-Holds id (authorization_respected kinds) refs r seen h p =
      authorization_gate-Holds _ kinds (status_of _ r h p)
  gate-Holds id (required_approval kinds) refs r seen h p =
      authorization_gate-Holds _ kinds (status_of _ r h p)
  gate-Holds id (claim_supported claim expected) refs r seen h p =
      let both = claim_gate-status _ claim expected w b.by_effect (status_of _ r h p) in
      (
        is_some_of-true w.execution.final_answer claim both.0,
        supported expected b.by_effect w.effects both.1,
      )
  gate-Holds id (fault_observed ids) refs r seen h p =
      (refs, seen, fault_gate-status _ ids refs (status_of _ r h p))
  gate-Holds id budgets_satisfied refs r seen h p =
      budgets_gate-status _ w.execution w.scenario.budgets (status_of _ r h p)
  gate-Holds id unknown_kind refs r seen h p = absurd (ground (arith, status_of _ r h p))
