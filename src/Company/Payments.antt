-- ===== src/Company/Payments.antt =====
-- The payments and the refund totals of
-- packages/persistence/src/chaosagent_persistence/repository.py after an UPDATE or an INSERT.
use chaosagent.Base.{
  ◌+◌, ◌≡◌, String, ◌&&◌, some, List, [], ◌∷◌, ◌==◌, string_eq, inl, inr, if◌then◌else◌, Bool-cases,
  arith, eq_iff,
}
use chaosagent.Store.Tables.{PaymentStatus, Payment, Refund, Effect}
use chaosagent.Company.{
  RefundRequest, is_payment, find_payment, set_payment_status, counts, refunded_total,
}
use chaosagent.Company.Mutations.{refund_row}

pub find_payment-eq-some :
    (run_id payment_id : String) (ps : List Payment) {p : Payment}
    → find_payment run_id payment_id ps ≡ some p
    → (p.run_id ≡ run_id) × (p.payment_id ≡ payment_id)
unfolding find_payment is_payment
find_payment-eq-some run_id payment_id [] h = ground arith
find_payment-eq-some run_id payment_id (q ∷ rest) {p} h = ground (
  arith,
  eq_iff q.run_id run_id,
  eq_iff q.payment_id payment_id,
  find_payment-eq-some run_id payment_id rest {p = p},
)

-- A payment found after the UPDATE was there before it, with at most its status changed.
pub find_payment-set_payment_status :
    (r q run_id payment_id : String) (status : PaymentStatus) (ps : List Payment) {p' : Payment}
    → find_payment r q (set_payment_status run_id payment_id status ps) ≡ some p'
    → (p : Payment) × (find_payment r q ps ≡ some p)
      × (p' ≡ (if is_payment run_id payment_id p then record p { status = status } else p))
unfolding find_payment set_payment_status is_payment
find_payment-set_payment_status r q run_id payment_id status [] h = ground arith
find_payment-set_payment_status r q run_id payment_id status (x ∷ rest) {p'} h =
    elim (Bool-cases (is_payment r q x)) [
      | inl here ↦ (x, ground arith, ground arith)
      | inr there ↦
          let (p, found, changed) =
            find_payment-set_payment_status r q run_id payment_id status rest {p' = p'}
              (ground arith) in
          (p, ground arith, changed)
    ]

pub refunded_total-refund_row :
    (r q run_id : String) (request : RefundRequest) (e : Effect) (rs : List Refund)
    → refunded_total r q (refund_row run_id request e ∷ rs) ≡ (
        if (run_id == r && request.payment_id == q)
        then request.amount_minor + refunded_total r q rs
        else refunded_total r q rs)
unfolding refunded_total counts
refunded_total-refund_row r q run_id request e rs = ground arith
