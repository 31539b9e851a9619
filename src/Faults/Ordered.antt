-- ===== src/Faults/Ordered.antt =====
-- The identities of a plan, which packages/faults/src/chaosagent_faults/matcher.py sorts as Python does, are
-- in a strict order, and so each stands for one rule.
use Prim.Native.Char.{code}
use text.Mathlib.TextEquality.{codes_equal}
use chaosagent.Base.{
  ◌≡◌, ◌⊎◌, refl, sym, subst, String, true, false, List, [], ◌∷◌, map, ◌==◌, ==→≡, ==-refl, nat_eq,
  string_eq, Bool-cases, inl, inr, arith, All, All-map, and_true,
}
use chaosagent.Store.Texts.{text_lt}
use chaosagent.Faults.Rules.{insert_id, sorted_ids, same_texts}

text_lt_irrefl : (s : String) → text_lt s s ≡ false
unfolding text_lt
text_lt_irrefl String.[] = refl
text_lt_irrefl (String.◌∷◌ c s) = rw (==-refl (code c)) (text_lt_irrefl s)

text_lt_trans : (s t u : String) → text_lt s t ≡ true → text_lt t u ≡ true → text_lt s u ≡ true
unfolding text_lt
text_lt_trans String.[] String.[] u p q = absurd (ground arith)
text_lt_trans String.[] (String.◌∷◌ d t) String.[] p q = absurd (ground arith)
text_lt_trans String.[] (String.◌∷◌ d t) (String.◌∷◌ e u) p q = refl
text_lt_trans (String.◌∷◌ c s) String.[] u p q = absurd (ground arith)
text_lt_trans (String.◌∷◌ c s) (String.◌∷◌ d t) String.[] p q = absurd (ground arith)
text_lt_trans (String.◌∷◌ c s) (String.◌∷◌ d t) (String.◌∷◌ e u) p q =
    let rest = text_lt_trans s t u in ground (arith, rest)

text_lt_connex : (s t : String) → text_lt s t ≡ false → text_lt t s ≡ false → s ≡ t
unfolding text_lt
text_lt_connex String.[] String.[] p q = refl
text_lt_connex String.[] (String.◌∷◌ d t) p q = absurd (ground arith)
text_lt_connex (String.◌∷◌ c s) String.[] p q = absurd (ground arith)
text_lt_connex (String.◌∷◌ c s) (String.◌∷◌ d t) p q =
    let same_char : code c ≡ code d = ground arith in
    let same = text_lt_connex s t (ground (arith, same_char)) (ground (arith, same_char)) in
    λ i. String.◌∷◌ (codes_equal c d (ground (arith, same_char)) i) (same i)

abbrev pub IsBelow : String → List String → Type 0
IsBelow s ts = All (λ t. text_lt s t ≡ true) ts

abbrev pub IsOrdered : List String → Type 0
IsOrdered [] = Unit
IsOrdered (s ∷ ts) = IsBelow s ts × IsOrdered ts

IsBelow-trans : (s t : String) (us : List String) → text_lt s t ≡ true → IsBelow t us → IsBelow s us
IsBelow-trans s t us less =
    All-map (λ u. text_lt t u ≡ true) (λ u. text_lt s u ≡ true) us (λ u. text_lt_trans s t u less)

text_lt_flip : (s t : String) → (s == t) ≡ false → text_lt s t ≡ false → text_lt t s ≡ true
text_lt_flip s t differ above = elim (Bool-cases (text_lt t s)) [
  | inl less ↦ less
  | inr greater ↦
      let same = (string_eq.same_iff s t).1 (text_lt_connex s t above greater) in
      absurd (ground (arith, same))
]

insert_id-IsBelow :
    (s id : String) (ts : List String)
    → text_lt s id ≡ true
    → IsBelow s ts
    → IsBelow s (insert_id id ts)
unfolding insert_id
insert_id-IsBelow s id [] below all = (below, tt)
insert_id-IsBelow s id (t ∷ ts) below (first, all) =
    let rest = insert_id-IsBelow s id ts below all in
    elim (Bool-cases (id == t)) [
      | inl same ↦ rw (same) (first, all)
      | inr differ ↦ elim (Bool-cases (text_lt id t)) [
        | inl before ↦ rw (differ, before) (below, (first, all))
        | inr after ↦ rw (differ, after) (first, rest)
      ]
    ]

insert_id-IsOrdered : (id : String) (ts : List String) → IsOrdered ts → IsOrdered (insert_id id ts)
unfolding insert_id
insert_id-IsOrdered id [] ordered = (tt, tt)
insert_id-IsOrdered id (t ∷ ts) (below, ordered) =
    let rest = insert_id-IsOrdered id ts ordered in
    elim (Bool-cases (id == t)) [
      | inl same ↦ rw (same) (below, ordered)
      | inr differ ↦ elim (Bool-cases (text_lt id t)) [
        | inl before ↦
            rw (differ, before) ((before, IsBelow-trans id t ts before below), (below, ordered))
        | inr after ↦
            let comes_after = text_lt_flip id t differ after in
            rw (differ, after) (insert_id-IsBelow t id ts comes_after below, rest)
      ]
    ]

pub sorted_ids-IsOrdered : (ids : List String) → IsOrdered (sorted_ids ids)
unfolding sorted_ids
sorted_ids-IsOrdered [] = tt
sorted_ids-IsOrdered (id ∷ ids) = insert_id-IsOrdered id (sorted_ids ids) (sorted_ids-IsOrdered ids)

pub same_texts→≡ : (ss ts : List String) → same_texts ss ts ≡ true → ss ≡ ts
same_texts→≡ [] [] h = refl
same_texts→≡ [] (t ∷ ts) h = absurd (ground arith)
same_texts→≡ (s ∷ ss) [] h = absurd (ground arith)
same_texts→≡ (s ∷ ss) (t ∷ ts) h =
    let (first, rest) = and_true (s == t) (same_texts ss ts) h in
    rw (==→≡ s t first, same_texts→≡ ss ts rest) refl

-- `a in xs`
abbrev pub Among : {A : Type 0} → A → List A → Type 0
Among a [] = ⊥
Among a (x ∷ xs) = (x ≡ a) ⊎ Among a xs

pub lt→differ : (s t : String) → text_lt s t ≡ true → ((s == t) ≡ false) × ((t == s) ≡ false)
lt→differ s t less = elim (Bool-cases (s == t)) [
  | inl same ↦
      let less_self = subst (λ u. text_lt s u ≡ true) (sym (==→≡ s t same)) less in
      absurd (ground (arith, less_self, text_lt_irrefl s))
  | inr differ ↦ elim (Bool-cases (t == s)) [
    | inl same ↦
        let less_self = subst (λ u. text_lt s u ≡ true) (==→≡ t s same) less in
        absurd (ground (arith, less_self, text_lt_irrefl s))
    | inr differ_too ↦ (differ, differ_too)
  ]
]

module _ {A : Type 0} (id : A → String) where
  pub below-Among :
      (s : String) (xs : List A) (x : A)
      → IsBelow s (map id xs)
      → Among x xs
      → text_lt s (id x) ≡ true
  below-Among s [] x below here = elim here [ ]
  below-Among s (y ∷ ys) x (less, below) (inl this) = subst (λ z. text_lt s (id z) ≡ true) this less
  below-Among s (y ∷ ys) x (less, below) (inr later) = below-Among s ys x below later
