-- ===== src/Faults/History/Counts.antt =====
-- The counts of an authenticated history, in packages/faults/src/chaosagent_faults/history.py.
use mathlib.Core.Option.{some-injective}
use chaosagent.Base.{
  ℕ, ◌+◌, ◌≤◌, ◌≡◌, refl, sym, ap, subst, ◌∙◌, String, Bool, false, not, ◌&&◌, some, List, [], ◌∷◌,
  leb, ◌==◌, ==→≡, nat_eq, string_eq, contains, ok, or_raise, Bool-cases, inl, inr, arith,
  if◌then◌else◌, All, bind_ok, require_ok, ok_injective, or_raise-some, leb→le,
}
use chaosagent.Faults.{history_validation, CompiledFaultRule}
use chaosagent.Faults.Application.{rule_of}
use chaosagent.Faults.History.{
  Payload, fault_applied, FaultPayload, Document, lookup, Match, match_of, bump, Tally,
}
use chaosagent.Faults.History.Passes.{
  observation_of, count_of, tallied, apply_entry, apply_event, apply_documents,
}

abbrev pub is_applied_of : String → Payload → Bool
is_applied_of id (fault_applied p) = p.fault_id == id
is_applied_of id _ = false

-- how many applications of a fault there are
unfoldable pub applications : String → List Document → ℕ
applications id [] = 0
applications id (d ∷ ds) =
    let rest = applications id ds in if is_applied_of id d.payload then rest + 1 else rest

lookup-bump :
    (id k : String) (cs : List (String × ℕ)) (n : ℕ)
    → lookup id cs ≡ some n
    → lookup id (bump k cs) ≡ some (if k == id then n + 1 else n)
unfolding lookup bump
lookup-bump id k [] n h = absurd (ground arith)
lookup-bump id k ((j, m) ∷ rest) n h =
    let later = lookup-bump id k rest n in
    ground (arith, string_eq.same_iff j k, string_eq.same_iff j id, string_eq.same_iff k id)

abbrev pub Known : List CompiledFaultRule → List Match → Type 0
Known rules matched = All (λ e. rule_of e.rule.fault_id rules ≡ some e.rule) matched

match_of-Known :
    (rules : List CompiledFaultRule) (matched : List Match) (a : String) (e : Match)
    → Known rules matched
    → match_of a matched ≡ some e
    → rule_of e.rule.fault_id rules ≡ some e.rule
unfolding match_of
match_of-Known rules [] a e known h = absurd (ground arith)
match_of-Known rules (x ∷ xs) a e (known, rest) h = elim (Bool-cases (x.activation_id == a)) [
  | inl same ↦
      let this : x ≡ e = ground arith in
      subst (λ z. rule_of z.rule.fault_id rules ≡ some z.rule) this known
  | inr differ ↦ match_of-Known rules xs a e rest (ground arith)
]

apply_entry_lem :
    (documents : List Document) (matched : List Match) (t t' : Tally) (d : Document)
    (p : FaultPayload)
    → apply_entry documents matched t d p ≡ ok t'
    → (e : Match) × (match_of p.activation_id matched ≡ some e)
      × (p.fault_id ≡ e.rule.fault_id)
      × (count_of (lookup p.fault_id t'.counts) ≤ e.rule.max_occurrences)
      × (t'.counts ≡ bump p.fault_id t.counts)
unfolding apply_entry
apply_entry_lem documents matched t t' d p h =
    let (entry, found, checking) =
      bind_ok (or_raise (match_of p.activation_id matched) history_validation) _ t' h in
    let (checked, observing) =
      require_ok (not (contains p.activation_id t.applied) && p.fault_id == entry.rule.fault_id)
        history_validation _ t' checking in
    let (observed, seen, counting) = bind_ok (observation_of documents d p entry) _ t' observing in
    let (below, returned) =
      require_ok
        (leb (count_of (lookup p.fault_id (bump p.fault_id t.counts))) entry.rule.max_occurrences)
        history_validation _ t' counting in
    let made = ok_injective (tallied observed.event_id p t) t' _ refl returned in
    (
      entry,
      or_raise-some history_validation (match_of p.activation_id matched) found,
      ==→≡ p.fault_id entry.rule.fault_id (ground arith),
      subst (λ z. count_of (lookup p.fault_id z.counts) ≤ entry.rule.max_occurrences) made
          (leb→le _ _ below),
      ap (λ z. z.counts) (sym made),
    )

one_more : (b : Bool) (n m : ℕ) → (if b then n + 1 else n) + m ≡ n + (if b then m + 1 else m)
one_more b n m = ground arith

module _ (rules : List CompiledFaultRule) (r : CompiledFaultRule)
    (known : rule_of r.fault_id rules ≡ some r) where
  own_rule :
      (e : Match)
      → rule_of e.rule.fault_id rules ≡ some e.rule
      → e.rule.fault_id ≡ r.fault_id
      → e.rule ≡ r
  own_rule e of_e same = some-injective e.rule r (sym of_e ∙ ap (λ i. rule_of i rules) same ∙ known)

  -- An application counts one for its own fault, whose cap the count has not passed.
  step :
      (documents : List Document) (matched : List Match) (t t' : Tally) (d : Document)
      (p : FaultPayload) (n : ℕ)
      → Known rules matched
      → apply_entry documents matched t d p ≡ ok t'
      → lookup r.fault_id t.counts ≡ some n
      → n ≤ r.max_occurrences
      → (lookup r.fault_id t'.counts ≡ some (if p.fault_id == r.fault_id then n + 1 else n))
        × ((if p.fault_id == r.fault_id then n + 1 else n) ≤ r.max_occurrences)
  step documents matched t t' d p n all h counted within =
      let (e, found, names, below, counts) = apply_entry_lem documents matched t t' d p h in
      let now : lookup r.fault_id t'.counts ≡ some (if p.fault_id == r.fault_id then n + 1 else n) =
        ap (lookup r.fault_id) counts ∙ lookup-bump r.fault_id p.fault_id t.counts n counted in
      (
        now,
        elim (Bool-cases (p.fault_id == r.fault_id)) [
          | inr differ ↦ rw (differ) within
          | inl same ↦
              let is_r : e.rule ≡ r =
                own_rule e (match_of-Known rules matched p.activation_id e all found)
                  (sym names ∙ ==→≡ p.fault_id r.fault_id same) in
              let cap : count_of (lookup r.fault_id t'.counts) ≤ r.max_occurrences =
                subst (λ z. count_of (lookup r.fault_id t'.counts) ≤ z.max_occurrences) is_r
                  (subst (λ i. count_of (lookup i t'.counts) ≤ e.rule.max_occurrences)
                    (==→≡ p.fault_id r.fault_id same) below) in
              rw (same) (
                subst (λ o. count_of o ≤ r.max_occurrences)
                  (now ∙ ap (λ b. some (if b then n + 1 else n)) same) cap)
        ],
      )

  event_step :
      (documents : List Document) (matched : List Match) (t t' : Tally) (d : Document)
      (payload : Payload) (n : ℕ)
      → Known rules matched
      → apply_event documents matched t d payload ≡ ok t'
      → lookup r.fault_id t.counts ≡ some n
      → n ≤ r.max_occurrences
      → (lookup r.fault_id t'.counts ≡ some (if is_applied_of r.fault_id payload then n + 1 else n))
        × ((if is_applied_of r.fault_id payload then n + 1 else n) ≤ r.max_occurrences)
  event_step documents matched t t' d (fault_applied p) n all h counted within =
      step documents matched t t' d p n all h counted within
  event_step documents matched t t' d _ n all h counted within =
      let same : t ≡ t' = ok_injective t t' (ok t) refl h in
      (ap (λ z. lookup r.fault_id z.counts) (sym same) ∙ counted, within)

  pub apply_documents-counts :
      (documents : List Document) (matched : List Match) (ds : List Document) (t t' : Tally) (n : ℕ)
      → Known rules matched
      → apply_documents documents matched ds t ≡ ok t'
      → lookup r.fault_id t.counts ≡ some n
      → n ≤ r.max_occurrences
      → (lookup r.fault_id t'.counts ≡ some (n + applications r.fault_id ds))
        × (n + applications r.fault_id ds ≤ r.max_occurrences)
  unfolding apply_documents applications
  apply_documents-counts documents matched [] t t' n all h counted within =
      let same : t ≡ t' = ok_injective t t' (ok t) refl h in
      (
        ap (λ z. lookup r.fault_id z.counts) (sym same) ∙ counted ∙ ap some (omega arith),
        omega arith,
      )
  apply_documents-counts documents matched (d ∷ ds) t t' n all h counted within =
      let b = is_applied_of r.fault_id d.payload in
      let (t1, first, later) = bind_ok (apply_event documents matched t d d.payload) _ t' h in
      let (counted1, within1) =
        event_step documents matched t t1 d d.payload n all first counted within in
      let (counts, cap) =
        apply_documents-counts documents matched ds t1 t' (if b then n + 1 else n) all later
          counted1 within1 in
      let total = one_more b n (applications r.fault_id ds) in
      (counts ∙ ap some total, subst (λ m. m ≤ r.max_occurrences) total cap)
