-- ===== src/Faults/Selected.antt =====
-- When a rule is matched to a call, in packages/faults/src/chaosagent_faults/matcher.py.
use chaosagent.Base.{
  ℕ, ◌*◌, ◌^◌, ◌<◌, ◌≡◌, ◌↔◌, refl, ap, ◌∙◌, String, true, false, Option, none, some, leb, ◌==◌,
  ==→≡, ==-refl, nat_eq, string_eq, ok, Result-cases, Bool-cases, Option-cases, inl, inr, arith,
}
use chaosagent.Json.{Value, Members, end, member, get}
use chaosagent.Faults.{phase_eq, CompiledFaultRule, FaultMatchContext, FaultDecision, Hashing}
use chaosagent.Faults.Matching.{
  occurrences, facts_of, is_ordinal_mismatch, selection_document, json_equal, arguments_match,
  selection_material, selection_bucket, decide_selection, decide_occurrence, decide_arguments,
  decide_call, match_fault_rule,
}

-- A rule that names an ordinal is for that call only.
abbrev pub OrdinalFits : Option ℕ → ℕ → Type 0
OrdinalFits none n = Unit
OrdinalFits (some m) n = n ≡ m

ordinal_fits_iff : (o : Option ℕ) (n : ℕ) → (is_ordinal_mismatch o n ≡ false) ↔ OrdinalFits o n
ordinal_fits_iff none n = (λ h. tt, λ h. refl)
ordinal_fits_iff (some m) n = ground arith

module _ (h : Hashing) where
  abbrev pub SameJson : Value → Value → Type 0
  SameJson left right = (t : String) × (h.dumps left ≡ some t) × (h.dumps right ≡ some t)

  -- Every argument that the rule names has the value it gives.
  abbrev pub ArgumentsFit : Members → Members → Type 0
  ArgumentsFit end arguments = Unit
  ArgumentsFit (member name expected rest) arguments =
      ((value : Value) × (get name arguments ≡ some value) × SameJson value expected)
      × ArgumentsFit rest arguments

  json_equal→SameJson : (a b : Value) → json_equal h a b ≡ ok true → SameJson a b
  unfolding json_equal
  json_equal→SameJson a b eq = elim (Option-cases (h.dumps a)) [
    | inl none_a ↦ absurd (ground arith)
    | inr (s, text_a) ↦ elim (Option-cases (h.dumps b)) [
      | inl none_b ↦ absurd (ground arith)
      | inr (t, text_b) ↦
          let same : (s == t) ≡ true = ground arith in (t, text_a ∙ ap some (==→≡ s t same), text_b)
    ]
  ]

  SameJson→json_equal : (a b : Value) → SameJson a b → json_equal h a b ≡ ok true
  unfolding json_equal
  SameJson→json_equal a b (t, text_a, text_b) = rw (text_a, text_b) (ap ok (==-refl t))

  arguments_match→ArgumentsFit :
      (expected arguments : Members)
      → arguments_match h expected arguments ≡ ok true
      → ArgumentsFit expected arguments
  unfolding arguments_match
  arguments_match→ArgumentsFit end arguments eq = tt
  arguments_match→ArgumentsFit (member name v rest) arguments eq =
      elim (Option-cases (get name arguments)) [
        | inl missing ↦ absurd (ground arith)
        | inr (value, found) ↦ elim (Result-cases (json_equal h value v)) [
          | inr (e, raised) ↦ absurd (ground arith)
          | inl (same, compared) ↦ elim (Bool-cases same) [
            | inr differ ↦ absurd (ground arith)
            | inl agree ↦ (
              (value, found, json_equal→SameJson value v (compared ∙ ap ok agree)),
              arguments_match→ArgumentsFit rest arguments (ground arith),
            )
          ]
        ]
      ]

  ArgumentsFit→arguments_match :
      (expected arguments : Members)
      → ArgumentsFit expected arguments
      → arguments_match h expected arguments ≡ ok true
  unfolding arguments_match
  ArgumentsFit→arguments_match end arguments fit = refl
  ArgumentsFit→arguments_match (member name v rest) arguments ((value, found, same), fit) =
      let agree = SameJson→json_equal value v same in
      let go_on = ArgumentsFit→arguments_match rest arguments fit in
      ground (arith, found, agree, go_on)

  pub bucket_iff :
      (material : String) (ppm : ℕ)
      → (leb ppm (selection_bucket h material) ≡ false)
        ↔ (h.digest_int material * 1_000_000 < ppm * 2 ^ 256)
  unfolding selection_bucket
  bucket_iff material ppm = (λ below. ground arith, λ below. ground arith)

  pub selection_bucket-bound : (material : String) → selection_bucket h material < 1_000_000
  unfolding selection_bucket
  selection_bucket-bound material = let bound = h.digest_int_bound material in omega arith

  -- All that a match asks of a rule and a call.
  pub record IsSelected (rule : CompiledFaultRule) (c : FaultMatchContext) : Type 0 where
    pub scenario : c.scenario_digest ≡ rule.scenario_digest
    pub tool : c.tool_id ≡ rule.tool_id
    pub phase : c.phase ≡ rule.phase
    pub ordinal : OrdinalFits rule.call_ordinal c.call_ordinal
    pub argument : ArgumentsFit rule.argument_equals c.arguments
    pub cap : occurrences rule.fault_id c.prior_applied_occurrences < rule.max_occurrences
    pub material : String
    pub text : h.dumps (selection_document rule (facts_of c)) ≡ some material
    pub chosen : h.digest_int material * 1_000_000 < rule.probability_ppm * 2 ^ 256

  matched_iff :
      (rule : CompiledFaultRule) (material attempt_id : String)
      → ((decide_selection h rule material attempt_id).matched ≡ true)
        ↔ (h.digest_int material * 1_000_000 < rule.probability_ppm * 2 ^ 256)
  unfolding decide_selection
  matched_iff rule material attempt_id = (
    λ eq. (bucket_iff material rule.probability_ppm).0 (ground arith),
    λ below.
        let drawn = (bucket_iff material rule.probability_ppm).1 below in ground (arith, drawn),
  )

  module _ (rule : CompiledFaultRule) (c : FaultMatchContext) where
    pub decided :
        (d : FaultDecision)
        → match_fault_rule h rule c ≡ ok d
        → d.matched ≡ true
        → (c.scenario_digest ≡ rule.scenario_digest)
          × (c.tool_id ≡ rule.tool_id)
          × (c.phase ≡ rule.phase)
          × (is_ordinal_mismatch rule.call_ordinal c.call_ordinal ≡ false)
          × (decide_arguments h rule c ≡ ok d)
    unfolding match_fault_rule decide_call
    decided d eq m = elim (Bool-cases (c.scenario_digest == rule.scenario_digest)) [
      | inr other ↦ absurd (ground arith)
      | inl scenario ↦ elim (Bool-cases (c.tool_id == rule.tool_id)) [
        | inr other ↦ absurd (ground arith)
        | inl tool ↦ elim (Bool-cases (c.phase == rule.phase)) [
          | inr other ↦ absurd (ground arith)
          | inl phase ↦ elim (Bool-cases (is_ordinal_mismatch rule.call_ordinal c.call_ordinal)) [
            | inl other ↦ absurd (ground arith)
            | inr ordinal ↦ (
              ==→≡ c.scenario_digest rule.scenario_digest scenario,
              ==→≡ c.tool_id rule.tool_id tool,
              ==→≡ c.phase rule.phase phase,
              ordinal,
              ground arith,
            )
          ]
        ]
      ]
    ]

    pub counted :
        (d : FaultDecision)
        → decide_arguments h rule c ≡ ok d
        → d.matched ≡ true
        → (arguments_match h rule.argument_equals c.arguments ≡ ok true)
          × (leb rule.max_occurrences (occurrences rule.fault_id c.prior_applied_occurrences)
              ≡ false)
          × (material : String) × (h.dumps (selection_document rule (facts_of c)) ≡ some material)
          × (decide_selection h rule material c.physical_attempt_id ≡ d)
    unfolding decide_arguments decide_occurrence selection_material
    counted d eq m = elim (Result-cases (arguments_match h rule.argument_equals c.arguments)) [
      | inr (e, raised) ↦ absurd (ground arith)
      | inl (fit, compared) ↦ elim (Bool-cases fit) [
        | inr misfit ↦ absurd (ground arith)
        | inl fits ↦
            elim (Bool-cases
              (leb rule.max_occurrences (occurrences rule.fault_id c.prior_applied_occurrences))) [
                | inl capped ↦ absurd (ground arith)
                | inr below ↦ elim (Option-cases (h.dumps (selection_document rule (facts_of c)))) [
                  | inl refused ↦ absurd (ground arith)
                  | inr (material, text) ↦
                      (compared ∙ ap ok fits, below, material, text, ground arith)
                ]
              ]
      ]
    ]

    selected :
        (d : FaultDecision)
        → match_fault_rule h rule c ≡ ok d
        → d.matched ≡ true
        → IsSelected rule c
    selected d eq m =
        let (scenario, tool, phase, ordinal, rest) = decided d eq m in
        let (argument, cap, material, text, made) = counted d rest m in
        record {
          scenario = scenario;
          tool = tool;
          phase = phase;
          ordinal = (ordinal_fits_iff rule.call_ordinal c.call_ordinal).0 ordinal;
          argument = arguments_match→ArgumentsFit rule.argument_equals c.arguments argument;
          cap = ground arith;
          material = material;
          text = text;
          chosen =
              (matched_iff rule material c.physical_attempt_id).0 (ap (λ x. x.matched) made ∙ m);
        }

    draws :
        (s : IsSelected rule c)
        → (d : FaultDecision) × (match_fault_rule h rule c ≡ ok d) × (d.matched ≡ true)
    unfolding match_fault_rule decide_call decide_arguments decide_occurrence selection_material
    draws s =
        let fit = ArgumentsFit→arguments_match rule.argument_equals c.arguments s.argument in
        let ordinal = (ordinal_fits_iff rule.call_ordinal c.call_ordinal).1 s.ordinal in
        let chosen = (bucket_iff s.material rule.probability_ppm).1 s.chosen in
        let below : leb rule.max_occurrences (occurrences rule.fault_id c.prior_applied_occurrences)
            ≡ false =
          ground arith in
        let scenario = (string_eq.same_iff c.scenario_digest rule.scenario_digest).1 s.scenario in
        let tool = (string_eq.same_iff c.tool_id rule.tool_id).1 s.tool in
        let phase = (phase_eq.same_iff c.phase rule.phase).1 s.phase in
        let text = s.text in
        (
          decide_selection h rule s.material c.physical_attempt_id,
          ground (arith, fit, ordinal, below, scenario, tool, phase, text),
          (matched_iff rule s.material c.physical_attempt_id).1 s.chosen,
        )

    -- A rule is matched, and the matching returns, exactly when the call is of the rule's scenario, tool,
    -- phase and ordinal, has the values that the rule gives for arguments, the rule has been applied fewer
    -- times than its cap, and the digest of the selection document, as a fraction of 2 ^ 256, lies below
    -- the rule's parts per million.
    pub match_fault_rule_iff :
        ((d : FaultDecision) × (match_fault_rule h rule c ≡ ok d) × (d.matched ≡ true))
        ↔ IsSelected rule c
    match_fault_rule_iff = (λ (d, eq, m). selected d eq m, draws)
