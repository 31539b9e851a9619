-- ===== src/Evaluators/Replayed.antt =====
-- What `_replay_state` makes of the initial state.
use chaosagent.Base.{
  ◌≡◌, ◌≢◌, refl, sym, ap, ◌∙◌, ℕ, String, false, Option, List, [], ◌∷◌, ◌++◌, map, ◌==◌, eq_iff,
  string_eq, Result, ok, ◌>>=◌, arith, if◌then◌else◌, bind_ok, ok_injective, Bool-cases, inl, inr,
}
use mathlib.Core.List.{append-nil, append_assoc}
use chaosagent.Json.{Value, Members, end, member, get}
use chaosagent.Json.Same.{field, assign_member}
use chaosagent.Evaluators.{EffectFact, CompanyState, Stop}
use chaosagent.Evaluators.Lookups.{any_of, sort_by, keyed}
use chaosagent.Evaluators.State.{
  refund_fields, is_evidenced_before, projection, is_row, update_ticket, replay_refund, replay_one,
  replay_all, replay_state,
}

-- the rows of the refunds among some effects, in their order
pub refund_rows : List (ℕ × EffectFact) → Result Stop (List Members)
refund_rows [] = ok []
refund_rows (e ∷ es) =
    let rest = refund_rows es in
    if e.1.effect_kind == "refund.created"
    then projection refund_fields e.1.result >>= (λ row. rest >>= (λ rows. ok (row ∷ rows)))
    else rest

get-assign_member :
    (key name : String) (value : Value) (d : Members)
    → key ≢ name
    → get key (assign_member name value d) ≡ get key d
unfolding get assign_member
get-assign_member key name value end other = ground (arith, eq_iff name key)
get-assign_member key name value (member k v rest) other =
    ground (arith, eq_iff k name, eq_iff k key, get-assign_member key name value rest other)

module _ (key : String) (no_status : key ≢ "status") (no_note : key ≢ "note") where
  updated-get :
      (e : EffectFact) (row : Members)
      → get key (
          assign_member "note"
            (field "note" e.result)
            (assign_member "status" (field "status" e.result) row))
        ≡ get key row
  updated-get e row =
      get-assign_member key "note" _ _ no_note ∙ get-assign_member key "status" _ row no_status

  update_ticket-get :
      (e : EffectFact) (rows : List Members)
      → map (get key) (update_ticket e rows) ≡ map (get key) rows
  unfolding update_ticket
  update_ticket-get e [] = refl
  update_ticket-get e (row ∷ rows) =
      elim (Bool-cases (any_of (is_row "ticket_id" e.subject_id) rows)) [
        | inl later ↦
            rw later (ap (λ (x : List (Option Value)). get key row ∷ x) (update_ticket-get e rows))
        | inr last ↦ rw last (elim (Bool-cases (is_row "ticket_id" e.subject_id row)) [
          | inl here ↦
              rw here (ap (λ (x : Option Value). x ∷ map (get key) rows) (updated-get e row))
          | inr none_here ↦ rw none_here
        ])
      ]

  replay_one-tickets :
      (e : EffectFact) (s s' : CompanyState)
      → replay_one e s ≡ ok s'
      → map (get key) s'.support_tickets ≡ map (get key) s.support_tickets
  unfolding replay_one replay_refund
  replay_one-tickets e s s' h = elim (Bool-cases (e.effect_kind == "refund.created")) [
    | inl refund ↦
        let (row, projected, returned) =
          bind_ok (projection refund_fields e.result)
            (λ row. ok (record s { refunds = s.refunds ++ row ∷ [] })) s' (ground arith) in
        sym (
          ap (λ (x : CompanyState). map (get key) x.support_tickets)
            (ok_injective _ s' _ refl returned))
    | inr other ↦ elim (Bool-cases (e.effect_kind == "support_ticket.updated")) [
      | inl update ↦
          let made =
            ok_injective (record s { support_tickets = update_ticket e s.support_tickets }) s'
              (replay_one e s) (ground arith) h in
          sym (ap (λ (x : CompanyState). map (get key) x.support_tickets) made)
          ∙ update_ticket-get e s.support_tickets
      | inr nothing ↦ sym (
          ap (λ (x : CompanyState). map (get key) x.support_tickets)
            (ok_injective s s' (replay_one e s) (ground arith) h))
    ]
  ]

  replay_all-tickets :
      (es : List (ℕ × EffectFact)) (s s' : CompanyState)
      → replay_all es s ≡ ok s'
      → map (get key) s'.support_tickets ≡ map (get key) s.support_tickets
  unfolding replay_all
  replay_all-tickets [] s s' h =
      sym (ap (λ (x : CompanyState). map (get key) x.support_tickets) (ok_injective s s' _ refl h))
  replay_all-tickets (e ∷ es) s s' h =
      let (next, one, rest) = bind_ok (replay_one e.1 s) _ s' h in
      replay_all-tickets es next s' rest ∙ replay_one-tickets e.1 s next one

kept :
    (e : EffectFact) (s s' : CompanyState)
    → (e.effect_kind == "refund.created") ≡ false
    → replay_one e s ≡ ok s'
    → s'.refunds ≡ s.refunds
unfolding replay_one
kept e s s' other h = elim (Bool-cases (e.effect_kind == "support_ticket.updated")) [
  | inl update ↦ sym (
      ap (λ (x : CompanyState). x.refunds)
        (ok_injective (record s { support_tickets = update_ticket e s.support_tickets }) s'
          (replay_one e s) (ground arith) h))
  | inr nothing ↦
      sym
        (ap (λ (x : CompanyState). x.refunds) (ok_injective s s' (replay_one e s) (ground arith) h))
]

replay_all-refunds :
    (es : List (ℕ × EffectFact)) (s s' : CompanyState)
    → replay_all es s ≡ ok s'
    → (rows : List Members) × (refund_rows es ≡ ok rows) × (s'.refunds ≡ s.refunds ++ rows)
unfolding replay_all replay_one replay_refund refund_rows
replay_all-refunds [] s s' h = (
  [],
  refl,
  sym (ap (λ (x : CompanyState). x.refunds) (ok_injective s s' _ refl h))
      ∙ sym (append-nil s.refunds),
)
replay_all-refunds (e ∷ es) s s' h = elim (Bool-cases (e.1.effect_kind == "refund.created")) [
  | inl refund ↦
      let (next, one, rest) = bind_ok (replay_one e.1 s) _ s' h in
      let (row, projected, returned) =
        bind_ok (projection refund_fields e.1.result)
          (λ row. ok (record s { refunds = s.refunds ++ row ∷ [] })) next (ground arith) in
      let made = ok_injective (record s { refunds = s.refunds ++ row ∷ [] }) next _ refl returned in
      let (rows, projections, appended) = replay_all-refunds es next s' rest in
      (
        row ∷ rows,
        ground (arith, refund, projected, projections),
        appended
            ∙ ap (λ (x : CompanyState). x.refunds ++ rows) (sym made)
            ∙ append_assoc s.refunds (row ∷ []) rows,
      )
  | inr other ↦
      let (next, one, rest) = bind_ok (replay_one e.1 s) _ s' h in
      let (rows, projections, appended) = replay_all-refunds es next s' rest in
      (
        rows,
        ground (arith, other, projections),
        appended ∙ ap (λ (x : List Members). x ++ rows) (kept e.1 s next other one),
      )
]

-- Where a replay returns, the refunds are those of the initial state, followed by one row for each refund among
-- the effects in the order of their evidence, with the fields of its result; and the tickets are those of the
-- initial state, in their order, with every member but the status and the note as it was.
replay_state-refines :
    (initial s : CompanyState) (effects : List (ℕ × EffectFact)) (key : String)
    → replay_state initial effects ≡ ok s
    → key ≢ "status"
    → key ≢ "note"
    → (rows : List Members) × (refund_rows (sort_by is_evidenced_before effects) ≡ ok rows)
      × (s.refunds ≡ initial.refunds ++ rows)
      × (map (get key) s.support_tickets ≡ map (get key) initial.support_tickets)
unfolding replay_state
replay_state-refines initial s effects key h no_status no_note =
    let (tickets, keyed_rows, replayed) =
      bind_ok (keyed "ticket_id" initial.support_tickets []) _ s h in
    let (rows, projected, appended) =
      replay_all-refunds (sort_by is_evidenced_before effects) initial s replayed in
    (
      rows,
      projected,
      appended,
      replay_all-tickets key no_status no_note (sort_by is_evidenced_before effects) initial s
          replayed,
    )
