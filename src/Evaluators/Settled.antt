-- ===== src/Evaluators/Settled.antt =====
-- The loop over the effects in `_validate_authority`, where it notes no error.
use chaosagent.Base.{
  ◌≡◌, refl, sym, ap, ◌∙◌, String, true, Option, none, some, List, [], ◌∷◌, ◌++◌, ◌==◌, eq_iff,
  string_eq, Result, ok, err, arith, if◌then◌else◌, bind_ok, ok_injective, Bool-cases, inl, inr,
}
use chaosagent.Faults.History.{lookup}
use chaosagent.Evaluators.{
  EvidenceEvent, EffectFact, RequestDetail, EvaluationInput, Authority, IntegrityError, Stop,
  malformed, noted, Contracts,
}
use chaosagent.Evaluators.Lookups.{assign}
use chaosagent.Evaluators.Approvals.{authorize}
use chaosagent.Evaluators.Chains.{evidence_chain, request_chain, cause_chain, decision_chain}
use chaosagent.Evaluators.Ledger.{
  Tables, EffectRound, ref_of_event, is_effect_of, state_errors, noting, after_state, effect_chain,
  effect_round,
}
use chaosagent.Evaluators.Trails.{
  Trail, IsTrail, evidence_chain-ok, request_chain-ok, decision_chain-ok,
}

pub lookup-assign :
    (j k : String) (a : Authority) (m : List (String × Authority))
    → lookup j (assign k a m) ≡ (if k == j then some a else lookup j m)
unfolding lookup assign
lookup-assign j k a [] = refl
lookup-assign j k a ((i, b) ∷ rest) =
    ground (arith, eq_iff k j, eq_iff i k, eq_iff i j, lookup-assign j k a rest)

pub append-nil : (xs ys : List IntegrityError) → xs ++ ys ≡ [] → (xs ≡ []) × (ys ≡ [])
append-nil [] ys h = (refl, h)
append-nil (x ∷ xs) ys h = absurd (ground arith)

noting-settled :
    (earlier : List IntegrityError) (chain : Result Stop (List IntegrityError × Authority))
    (o : Option Authority)
    → noting earlier chain ≡ ok ([], o)
    → (a : Authority) × (o ≡ some a) × (chain ≡ ok ([], a))
noting-settled earlier (ok (errors, a)) o h =
    let made = ok_injective (earlier ++ errors, some a) ([], o) _ refl h in
    let empty = append-nil earlier errors (ap (λ (x : EffectRound). x.0) made) in
    (
      a,
      sym (ap (λ (x : EffectRound). x.1) made),
      ap (λ (x : List IntegrityError). ok (x, a)) empty.1,
    )
noting-settled earlier (err malformed) o h = absurd (ground arith)
noting-settled earlier (err (noted n)) o h =
    let made = ok_injective (earlier ++ n ∷ [], none) ([], o) _ refl h in
    let empty = append-nil earlier (n ∷ []) (ap (λ (x : EffectRound). x.0) made) in
    absurd (ground (arith, empty.1))

after_state-settled :
    (state : Result Stop (List IntegrityError))
    (chain : Result Stop (List IntegrityError × Authority)) (o : Option Authority)
    → after_state state chain ≡ ok ([], o)
    → (a : Authority) × (o ≡ some a) × (chain ≡ ok ([], a))
after_state-settled (ok errors) chain o h = noting-settled errors chain o h
after_state-settled (err malformed) chain o h = absurd (ground arith)
after_state-settled (err (noted n)) chain o h = absurd (ground arith)

module _ (contracts : Contracts) (v : EvaluationInput) where
  -- the authority that a trail gives
  abbrev pub authority_of : EffectFact → Trail → Authority
  authority_of e t = record {
    event_ref = ref_of_event t.evidence.0;
    authorization = (authorize contracts v e t.evidence.0 t.request.0 t.cause t.decision).1;
  }

  pub effect_chain-IsTrail :
      (details : List RequestDetail) (e : EffectFact) (c : List IntegrityError × Authority)
      → effect_chain contracts v details e ≡ ok c
      → (t : Trail) × IsTrail contracts v details e t × (c.1 ≡ authority_of e t)
  unfolding effect_chain
  effect_chain-IsTrail details e c h =
      let (chain, evidenced, on) = bind_ok (evidence_chain v.events e) _ c h in
      let (only_evidence, evidence_fits, related) = evidence_chain-ok v.events e chain evidenced in
      let (r, requesting, on2) =
        bind_ok (request_chain contracts details e chain.0 chain.2) _ c on in
      let (request, detail, same, asked) =
        request_chain-ok contracts details e chain.0 chain.2 r requesting in
      let (cause, causing, on3) = bind_ok (cause_chain v.events e chain.0 r chain.2) _ c on2 in
      let (decision, deciding, returned) =
        bind_ok (decision_chain v.scenario.policy v.events e chain.0 r) _ c on3 in
      let decided =
        decision_chain-ok v e chain.0 request.0 decision
          (ap (decision_chain v.scenario.policy v.events e chain.0) (sym same) ∙ deciding) in
      let made =
        ok_injective
          (
            (authorize contracts v e chain.0 r cause decision).0,
            record {
              event_ref = ref_of_event chain.0;
              authorization = (authorize contracts v e chain.0 r cause decision).1;
            },
          )
          c _ refl returned in
      (
        record {
          evidence = (chain.0, chain.1);
          named = chain.2;
          request = request;
          detail = detail;
          cause = cause;
          decision = decision;
        },
        record {
          only_evidence = only_evidence;
          evidence_fits = evidence_fits;
          related = related;
          only_request = asked.only_request;
          described = asked.described;
          request_fits = asked.request_fits;
          arguments_fit = asked.arguments_fit;
          digest_fits = asked.digest_fits;
          only_decision = decided.0;
          decision_fits = decided.1;
        },
        sym (ap (λ (x : List IntegrityError × Authority). x.1) made)
            ∙ ap
                (λ (x : EvidenceEvent).
                  let y : Authority = record {
                    event_ref = ref_of_event chain.0;
                    authorization = (authorize contracts v e chain.0 x cause decision).1;
                  } in
                  y)
                same,
      )

  module _ (t : Tables) where
    -- a round that notes no error has come to its end
    pub effect_round-settled :
        (e : EffectFact) (o : Option Authority)
        → effect_round contracts v t e ≡ ok ([], o)
        → (a : Authority) × (o ≡ some a)
          × (is_effect_of v t e ≡ true)
          × (effect_chain contracts v t.details e ≡ ok ([], a))
    unfolding effect_round
    effect_round-settled e o h = elim (Bool-cases (is_effect_of v t e)) [
      | inr other ↦ absurd (ground arith)
      | inl effect ↦
          let on : after_state (state_errors e t.final_refunds v.final_state)
                (effect_chain contracts v t.details e)
              ≡ ok ([], o) =
            ground arith in
          let (a, made, chain) = after_state-settled _ _ o on in (a, made, effect, chain)
    ]
