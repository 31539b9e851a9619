-- ===== src/Approvals/Kept.antt =====
-- What the methods on approvals keep: a request and a resolution stay in their tables.
use chaosagent.Base.{
  ◌≡◌, refl, sym, ap, ◌∙◌, ℕ, String, none, some, List, [], ◌∷◌, ◌==◌, ==→≡, ==-refl, string_eq, ok,
  or_raise, arith, if◌then◌else◌, bind_ok, then_ok, require_ok, ok_injective, Bool-cases, inl, inr,
}
use chaosagent.Evaluators.{EvidenceEvent, Contracts}
use chaosagent.Approvals.{
  reference_not_found, persistence_integrity, evidence_validation, event_conflict, ApprovalRow,
  ResolutionRow, ApprovalStore, ApprovalRecord, frozen_run, find_request, find_resolution,
  append_evidence,
}
use chaosagent.Approvals.Integrity.{record_of, approval_record, validate_approval_integrity}

pub find_request-id :
    (id : String) (rows : List ApprovalRow) (row : ApprovalRow)
    → find_request id rows ≡ some row
    → row.approval_id ≡ id
unfolding find_request
find_request-id id [] row h = absurd (ground arith)
find_request-id id (r ∷ rs) row h = elim (Bool-cases (r.approval_id == id)) [
  | inl same ↦
      let made : r ≡ row = ground arith in
      ap (λ (x : ApprovalRow). x.approval_id) (sym made) ∙ ==→≡ r.approval_id id same
  | inr other ↦ find_request-id id rs row (ground arith)
]

-- Every request and every resolution is still there.
pub record IsKept (s t : ApprovalStore) : Type 0 where
  pub requests :
      (id : String) (row : ApprovalRow)
      → find_request id s.requests ≡ some row
      → find_request id t.requests ≡ some row
  pub resolutions :
      (id : String) (r : ResolutionRow)
      → find_resolution id s.resolutions ≡ some r
      → find_resolution id t.resolutions ≡ some r

pub IsKept-refl : (s : ApprovalStore) → IsKept s s
IsKept-refl s = record { requests = λ id row h. h; resolutions = λ id r h. h }

pub IsKept-trans : (s t u : ApprovalStore) → IsKept s t → IsKept t u → IsKept s u
IsKept-trans s t u h k = record {
  requests = λ id row found. k.requests id row (h.requests id row found);
  resolutions = λ id r found. k.resolutions id r (h.resolutions id r found);
}

pub IsKept-eq :
    (s t : ApprovalStore) → s.requests ≡ t.requests → s.resolutions ≡ t.resolutions → IsKept s t
IsKept-eq s t requests resolutions = record {
  requests = λ id row h. ap (find_request id) (sym requests) ∙ h;
  resolutions = λ id r h. ap (find_resolution id) (sym resolutions) ∙ h;
}

pub new_request :
    (row : ApprovalRow) (rows : List ApprovalRow)
    → find_request row.approval_id rows ≡ none
    → (id : String) (x : ApprovalRow) → find_request id rows ≡ some x
    → find_request id (row ∷ rows) ≡ some x
unfolding find_request
new_request row rows fresh id x h = elim (Bool-cases (row.approval_id == id)) [
  | inl same ↦
      let there = ap (λ (k : String). find_request k rows) (==→≡ row.approval_id id same) in
      absurd (ground (arith, there, fresh, h))
  | inr other ↦ rw other h
]

pub new_resolution :
    (r : ResolutionRow) (rows : List ResolutionRow)
    → find_resolution r.approval_id rows ≡ none
    → (id : String) (x : ResolutionRow) → find_resolution id rows ≡ some x
    → find_resolution id (r ∷ rows) ≡ some x
unfolding find_resolution
new_resolution r rows fresh id x h = elim (Bool-cases (r.approval_id == id)) [
  | inl same ↦
      let there = ap (λ (k : String). find_resolution k rows) (==→≡ r.approval_id id same) in
      absurd (ground (arith, there, fresh, h))
  | inr other ↦ rw other h
]

pub same_option : (x y : ApprovalRow) → some x ≡ some y → x ≡ y
same_option x y h = ground arith

pub first_one :
    (r : ResolutionRow) (id : String) (rows : List ResolutionRow)
    → (if id == id then some r else find_resolution id rows) ≡ some r
first_one r id rows = rw (==-refl id)

module _ (contracts : Contracts) where
  pub append_evidence-tables :
      (run_id : String) (f : ℕ → EvidenceEvent) (s t : ApprovalStore)
      → append_evidence contracts run_id f s ≡ ok t
      → (s.requests ≡ t.requests) × (s.resolutions ≡ t.resolutions)
  unfolding append_evidence
  append_evidence-tables run_id f s t h =
      let (run, found, on) =
        bind_ok (or_raise (frozen_run run_id s.runs) reference_not_found) _ t h in
      let (small, on2) = require_ok _ persistence_integrity _ t on in
      let (schema, on3) = require_ok _ evidence_validation _ t on2 in
      let (fresh, returned) = require_ok _ event_conflict _ t on3 in
      let made = ok_injective _ t _ refl returned in
      (ap (λ (x : ApprovalStore). x.requests) made, ap (λ (x : ApprovalStore). x.resolutions) made)

  pub approval_record-row :
      (s : ApprovalStore) (row : ApprovalRow) (r : ApprovalRecord)
      → approval_record contracts s row ≡ ok r
      → record_of row (find_resolution row.approval_id s.resolutions) ≡ r
  unfolding approval_record
  approval_record-row s row r h =
      let (valid, returned) =
        then_ok
          (validate_approval_integrity contracts s row
            (find_resolution row.approval_id s.resolutions))
          _ r h in
      ok_injective _ r _ refl returned
