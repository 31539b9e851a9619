-- ===== src/Company/Conservation.antt =====
-- Refunds in packages/persistence/src/chaosagent_persistence/repository.py never exceed what a payment
-- captured.
use chaosagent.Base.{
  ℕ, ◌+◌, ◌≤◌, ◌≡◌, sym, subst, ◌∙◌, String, false, ◌&&◌, inl, inr, some, List, ◌∷◌, ltb, ◌==◌,
  string_eq, nat_eq, if◌then◌else◌, Bool-cases, ok, arith, eq_iff,
}
use chaosagent.Store.Tables.{Payment, Refund, Effect, Db}
use chaosagent.Company.{
  CompanyEffect, MutationCall, RefundRequest, find_payment, is_payment, is_refundable,
  refunded_total, set_payment_status,
}
use chaosagent.Company.Mutations.{apply_refund_effect, refund_row, settled}
use chaosagent.Company.Payments.{
  find_payment-eq-some, find_payment-set_payment_status, refunded_total-refund_row,
}
use chaosagent.Company.Created.{
  Refunded, apply_refund_effect-cases, apply_support_ticket_effect-cases,
}
use chaosagent.Company.Steps.{Step, refund_step, ticket_step, Reach, start, more}

-- The succeeded refunds of a payment stay within its amount, and it can be refunded as long as some
-- of it is left.
abbrev pub IsCovered : ℕ → Payment → Type 0
IsCovered total p = (total ≤ p.amount_minor) × (is_refundable p.status ≡ ltb total p.amount_minor)

abbrev pub Conserved : Db → Type 0
Conserved db =
    (run_id payment_id : String) (p : Payment)
    → find_payment run_id payment_id db.payments ≡ some p
    → IsCovered (refunded_total run_id payment_id db.refunds) p

pub settled-IsCovered :
    (total : ℕ) (p : Payment)
    → total ≤ p.amount_minor
    → IsCovered total (record p { status = settled total p })
settled-IsCovered total p h = (h, ground arith)

-- The INSERT of a refund and the UPDATE of its payment, seen from the payment `r`, `q`.
pub refund_row-IsCovered :
    (run_id : String) (request : RefundRequest) (e : Effect) (ps : List Payment) (rs : List Refund)
    (payment : Payment)
    → find_payment run_id request.payment_id ps ≡ some payment
    → refunded_total run_id request.payment_id rs + request.amount_minor ≤ payment.amount_minor
    → (r q : String) (p' : Payment)
    → ((p : Payment) → find_payment r q ps ≡ some p → IsCovered (refunded_total r q rs) p)
    → find_payment r q (
        set_payment_status run_id request.payment_id
          (settled (refunded_total run_id request.payment_id rs + request.amount_minor) payment)
          ps)
      ≡ some p'
    → IsCovered (refunded_total r q (refund_row run_id request e ∷ rs)) p'
unfolding is_payment
refund_row-IsCovered run_id request e ps rs payment found room r q p' before h =
    let total = refunded_total run_id request.payment_id rs + request.amount_minor in
    let (p, found', changed) =
      find_payment-set_payment_status r q run_id request.payment_id (settled total payment) ps h in
    let (pr, pq) = find_payment-eq-some r q ps found' in
    let sum = refunded_total-refund_row r q run_id request e rs in
    elim (Bool-cases (is_payment run_id request.payment_id p)) [
      | inl hit ↦
          let at : (p.run_id ≡ run_id) × (p.payment_id ≡ request.payment_id) =
            ground (arith, eq_iff p.run_id run_id, eq_iff p.payment_id request.payment_id) in
          let r_eq : r ≡ run_id = sym pr ∙ at.0 in
          let q_eq : q ≡ request.payment_id = sym pq ∙ at.1 in
          let same : p ≡ payment = cc in
          let sum' : refunded_total r q (refund_row run_id request e ∷ rs) ≡ total =
            rw (r_eq, q_eq)
              (rw (refunded_total-refund_row run_id request.payment_id run_id request e rs) (
                ground
                  (arith, eq_iff run_id run_id, eq_iff request.payment_id request.payment_id))) in
          let p'_eq : p' ≡ record payment { status = settled total payment } =
            rw (changed, hit, same) in
          rw (p'_eq, sum') (settled-IsCovered total payment room)
      | inr miss ↦
          let apart : (run_id == r && request.payment_id == q) ≡ false = ground (
            arith,
            eq_iff p.run_id run_id,
            eq_iff p.payment_id request.payment_id,
            eq_iff run_id r,
            eq_iff request.payment_id q,
          ) in
          rw (changed, miss, sum, apart) (before p found')
    ]

module _ (sha256 : String → String) where
  pub Refunded-Conserved :
      (run_id : String) (call : MutationCall) (request : RefundRequest) (now : ℕ) (db db' : Db)
      (x : CompanyEffect)
      → Conserved db
      → Refunded sha256 run_id call request now db db' x
      → Conserved db'
  Refunded-Conserved run_id call request now db db' x before made r q p' h =
      subst Conserved (sym made.after)
        (λ r q p' h.
          refund_row-IsCovered run_id request x.row db.payments db.refunds made.payment made.found
            made.room r q p' (λ p found. before r q p found) h)
        r q p' h

  Step-Conserved : (db db' : Db) → Conserved db → Step sha256 db db' → Conserved db'
  Step-Conserved db db' before (refund_step run_id call request now x h) =
      elim (apply_refund_effect-cases sha256 run_id call request now db db' x h) [
        | inl made ↦ Refunded-Conserved run_id call request now db db' x before made
        | inr (e, old, again) ↦ subst Conserved (sym again.kept) before
      ]
  Step-Conserved db db' before (ticket_step run_id call request now x h) =
      elim (apply_support_ticket_effect-cases sha256 run_id call request now db db' x h) [
        | inl made ↦ subst Conserved (sym made.after) before
        | inr (e, old, again) ↦ subst Conserved (sym again.kept) before
      ]

  -- Whatever mutations have returned, if the succeeded refunds of every payment were within its amount
  -- before, and it could be refunded as long as some of it was left, then so it is after.
  pub refunds-Conserved : {db db' : Db} → Reach sha256 db db' → Conserved db → Conserved db'
  refunds-Conserved start before = before
  refunds-Conserved (more {db'} {db''} steps step) before =
      Step-Conserved db' db'' (refunds-Conserved steps before) step

  -- A returning refund adds its amount to the succeeded refunds of its payment if it is newly applied,
  -- and nothing if it is a replay; the total of any other payment stays the same.
  pub refund_pays_once :
      (run_id : String) (call : MutationCall) (request : RefundRequest) (now : ℕ) (db db' : Db)
      (x : CompanyEffect)
      → apply_refund_effect sha256 run_id call request now db ≡ ok (x, db')
      → (r q : String)
      → refunded_total r q db'.refunds ≡ (
          if x.newly_applied && (run_id == r && request.payment_id == q)
          then request.amount_minor + refunded_total r q db.refunds
          else refunded_total r q db.refunds)
  refund_pays_once run_id call request now db db' x h r q =
      elim (apply_refund_effect-cases sha256 run_id call request now db db' x h) [
        | inl made ↦
            rw (made.after, made.newly)
              (refunded_total-refund_row r q run_id request x.row db.refunds)
        | inr (e, old, again) ↦ rw (again.kept, again.newly)
      ]
