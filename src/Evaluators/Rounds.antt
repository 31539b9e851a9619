-- ===== src/Evaluators/Rounds.antt =====
-- All rounds of the loop over the effects in `_validate_authority`, where it notes no error.
use chaosagent.Base.{
  ◌≡◌, refl, sym, ap, subst, ◌∙◌, String, true, false, not, Option, none, some, List, [], ◌∷◌, ◌++◌,
  ◌==◌, ==-refl, eq_iff, string_eq, contains, ok, arith, All, bind_ok, ok_injective, and_true,
}
use mathlib.Core.List.{append-nil as append_nil, append_assoc}
use chaosagent.Faults.History.{is_unique, lookup}
use chaosagent.Evaluators.{EffectFact, EvaluationInput, Authority, IntegrityError, Contracts}
use chaosagent.Evaluators.Ledger.{
  Tables, EffectRound, Authorities, is_effect_of, effect_chain, effect_round, assigned,
  effect_rounds, effect_ids,
}
use chaosagent.Evaluators.Settled.{lookup-assign, append-nil, effect_round-settled}

module _ (contracts : Contracts) (v : EvaluationInput) (t : Tables) where
  -- what the rounds make of an effect
  pub record IsSettled (b : Authorities) (e : EffectFact) : Type 0 where
    pub authority : Authority
    pub effect : is_effect_of v t e ≡ true
    pub chain : effect_chain contracts v t.details e ≡ ok ([], authority)
    pub assigned_to : lookup e.effect_id b.by_effect ≡ some authority

  next_of : EffectFact → EffectRound → Authorities → Authorities
  next_of e round a = record {
    errors = a.errors ++ round.0;
    by_effect = assigned e.effect_id round.1 a.by_effect;
  }

  step :
      (e : EffectFact) (es : List EffectFact) (a b : Authorities)
      → effect_rounds contracts v t (e ∷ es) a ≡ ok b
      → (round : EffectRound) × (effect_round contracts v t e ≡ ok round)
        × (effect_rounds contracts v t es (next_of e round a) ≡ ok b)
  unfolding effect_rounds next_of
  step e es a b h = bind_ok (effect_round contracts v t e) _ b h

  -- the errors only grow
  pub errors_grow :
      (es : List EffectFact) (a b : Authorities)
      → effect_rounds contracts v t es a ≡ ok b
      → (more : List IntegrityError) × (a.errors ++ more ≡ b.errors)
  unfolding effect_rounds next_of
  errors_grow [] a b h =
      ([], append_nil a.errors ∙ ap (λ (x : Authorities). x.errors) (ok_injective a b _ refl h))
  errors_grow (e ∷ es) a b h =
      let (round, made, on) = step e es a b h in
      let (more, grown) = errors_grow es (next_of e round a) b on in
      (round.0 ++ more, sym (append_assoc a.errors round.0 more) ∙ grown)

  -- a round assigns to its own effect only
  assigned_elsewhere :
      (j k : String) (o : Option Authority) (m : List (String × Authority))
      → (k == j) ≡ false
      → lookup j (assigned k o m) ≡ lookup j m
  assigned_elsewhere j k none m h = refl
  assigned_elsewhere j k (some a) m h = lookup-assign j k a m ∙ rw h

  other_effect :
      (id : String) (e : EffectFact) (es : List EffectFact)
      → contains id (effect_ids (e ∷ es)) ≡ false
      → ((e.effect_id == id) ≡ false) × (contains id (effect_ids es) ≡ false)
  other_effect id e es h = ground (arith, eq_iff id e.effect_id, eq_iff e.effect_id id)

  keeps :
      (id : String) (es : List EffectFact) (a b : Authorities)
      → contains id (effect_ids es) ≡ false
      → effect_rounds contracts v t es a ≡ ok b
      → lookup id b.by_effect ≡ lookup id a.by_effect
  unfolding effect_rounds next_of
  keeps id [] a b other h =
      ap (λ (x : Authorities). lookup id x.by_effect) (sym (ok_injective a b _ refl h))
  keeps id (e ∷ es) a b other h =
      let (round, made, on) = step e es a b h in
      let (not_this, not_those) = other_effect id e es other in
      keeps id es (next_of e round a) b not_those on
      ∙ assigned_elsewhere id e.effect_id round.1 a.by_effect not_this

  settled_one :
      (e : EffectFact) (es : List EffectFact) (a b : Authorities) (o : Option Authority)
      → contains e.effect_id (effect_ids es) ≡ false
      → effect_round contracts v t e ≡ ok ([], o)
      → effect_rounds contracts v t es (next_of e ([], o) a) ≡ ok b
      → IsSettled b e
  unfolding next_of
  settled_one e es a b o fresh made on =
      let (authority, named, effect, chain) = effect_round-settled contracts v t e o made in
      record {
        authority = authority;
        effect = effect;
        chain = chain;
        assigned_to =
            keeps e.effect_id es (next_of e ([], o) a) b fresh on
            ∙ ap (λ (x : Option Authority). lookup e.effect_id (assigned e.effect_id x a.by_effect))
                named
            ∙ lookup-assign e.effect_id e.effect_id authority a.by_effect
            ∙ rw (==-refl e.effect_id);
      }

  pub effect_rounds-IsSettled :
      (es : List EffectFact) (a b : Authorities)
      → is_unique (effect_ids es) ≡ true
      → effect_rounds contracts v t es a ≡ ok b
      → b.errors ≡ []
      → All (IsSettled b) es
  unfolding next_of
  effect_rounds-IsSettled [] a b unique h clean = tt
  effect_rounds-IsSettled (e ∷ es) a b unique h clean =
      let (round, made, on) = step e es a b h in
      let (more, grown) = errors_grow es (next_of e round a) b on in
      let before = append-nil (a.errors ++ round.0) more (grown ∙ clean) in
      let quiet = append-nil a.errors round.0 before.0 in
      let (fresh, rest) =
        and_true (not (contains e.effect_id (effect_ids es))) (is_unique (effect_ids es)) unique in
      let same : round ≡ ([], round.1) =
        ap (λ (x : List IntegrityError). let y : EffectRound = (x, round.1) in y) quiet.1 in
      (
        settled_one e es a b round.1 (ground arith) (made ∙ ap ok same) (
            subst (λ (x : EffectRound). effect_rounds contracts v t es (next_of e x a) ≡ ok b) same
              on),
        effect_rounds-IsSettled es (next_of e round a) b rest on clean,
      )
