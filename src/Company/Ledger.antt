-- ===== src/Company/Ledger.antt =====
-- The ledger of effects in packages/persistence/src/chaosagent_persistence/repository.py: a new row
-- hides no older one.
use chaosagent.Base.{
  ◌≡◌, sym, ap, ◌∙◌, true, inl, inr, none, some, List, ◌∷◌, Bool-cases, arith, eq_iff,
}
use chaosagent.Store.Tables.{Effect}
use chaosagent.Company.{EffectKey, has_key, find_effect, key_of}

pub has_key-eq-true : (key : EffectKey) (e : Effect) → has_key key e ≡ true → key_of e ≡ key
unfolding has_key
has_key-eq-true key e h = ground (
  arith,
  eq_iff e.run_id key.run_id,
  eq_iff e.tool_id key.tool_id,
  eq_iff e.contract_version key.contract_version,
  eq_iff e.idempotency_key_digest key.idempotency_key_digest,
)

pub has_key-key_of : (e : Effect) → has_key (key_of e) e ≡ true
unfolding has_key
has_key-key_of e = ground (
  arith,
  eq_iff e.run_id e.run_id,
  eq_iff e.tool_id e.tool_id,
  eq_iff e.contract_version e.contract_version,
  eq_iff e.idempotency_key_digest e.idempotency_key_digest,
)

pub find_effect-fresh :
    (key : EffectKey) (e old : Effect) (rest : List Effect)
    → find_effect (key_of e) rest ≡ none
    → find_effect key rest ≡ some old
    → find_effect key (e ∷ rest) ≡ some old
unfolding find_effect
find_effect-fresh key e old rest fresh found = elim (Bool-cases (has_key key e)) [
  | inl hit ↦
      let same : find_effect key rest ≡ none =
        sym (ap (λ k. find_effect k rest) (has_key-eq-true key e hit)) ∙ fresh in
      cc
  | inr miss ↦ rw miss found
]

pub find_effect-new :
    (key : EffectKey) (e : Effect) (rest : List Effect)
    → key_of e ≡ key
    → find_effect key (e ∷ rest) ≡ some e
unfolding find_effect
find_effect-new key e rest same =
    let hit : has_key key e ≡ true = sym (ap (λ k. has_key k e) same) ∙ has_key-key_of e in rw hit
