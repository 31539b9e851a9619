-- ===== src/Approvals/Returned.antt =====
-- What a creation and a resolution of an approval that return have done.
use chaosagent.Base.{
  ◌≡◌, refl, sym, ap, subst, ◌∙◌, String, true, not, Option, none, some, ◌∷◌, ◌==◌, ==-refl,
  string_eq, ok, or_raise, arith, if◌then◌else◌, bind_ok, then_ok, require_ok, ok_injective,
  or_raise-some,
}
use chaosagent.Faults.History.{Producer}
use chaosagent.Evaluators.{ApprovalStatus, Contracts}
use chaosagent.Approvals.{
  value_error, reference_not_found, approval_conflict, constraint_violation, ApprovalRow,
  ResolutionRow, ApprovalStore, ApprovalRecord, find_request, find_resolution, append_evidence,
}
use chaosagent.Approvals.Integrity.{is_result_status, record_of, approval_record}
use chaosagent.Approvals.Calls.{
  ApprovalCall, request_constraints, approval_matches, request_event, request_of,
}
use chaosagent.Approvals.Requests.{
  checked_row, insert_request, replay_request, insert_or_replay, create_approval_request,
  resolution_event, require_unresolved, is_event_taken, human_resolution, resolve_approval_request,
}
use chaosagent.Approvals.Kept.{
  find_request-id, IsKept, IsKept-refl, new_request, new_resolution, same_option, first_one,
  append_evidence-tables, approval_record-row,
}

module _ (contracts : Contracts) where
  record_of-row : (row : ApprovalRow) (o : Option ResolutionRow) → (record_of row o).row ≡ row
  record_of-row row none = refl
  record_of-row row (some r) = refl

  -- A creation that returns has left the row that it returns under its identity, and that row is the one that
  -- the call asks for, or one that was there and matches it.
  pub record IsCreated (c : ApprovalCall) (s : ApprovalStore) (r : ApprovalRecord)
      (t : ApprovalStore) : Type 0 where
    pub row : ApprovalRow
    pub checked : checked_row contracts c s ≡ ok row
    pub stored : find_request row.approval_id t.requests ≡ some r.row
    pub kept : IsKept s t
    pub replayed :
        (x : ApprovalRow) → find_request row.approval_id s.requests ≡ some x → (t ≡ s) × (r.row ≡ x)

  insert_request-ok :
      (row : ApprovalRow) (producer : Producer) (s : ApprovalStore) (r : ApprovalRecord)
      (t : ApprovalStore)
      → find_request row.approval_id s.requests ≡ none
      → insert_request contracts row producer s ≡ ok (r, t)
      → (find_request row.approval_id t.requests ≡ some r.row) × IsKept s t
  unfolding insert_request find_request
  insert_request-ok row producer s r t fresh h =
      let (valid, on) =
        require_ok (request_constraints row s.requests) constraint_violation _ (r, t) h in
      let (t', appended, on2) =
        bind_ok
          (append_evidence contracts row.run_id (request_event row producer)
            (record s { requests = row ∷ s.requests }))
          _ (r, t) on in
      let (r', recorded, returned) = bind_ok (approval_record contracts t' row) _ (r, t) on2 in
      let made = ok_injective (record r' { newly_created = true }, t') (r, t) _ refl returned in
      let (requests, resolutions) =
        append_evidence-tables contracts row.run_id (request_event row producer)
          (record s { requests = row ∷ s.requests }) t' appended in
      let same_t : t' ≡ t = ap (λ (x : ApprovalRecord × ApprovalStore). x.1) made in
      let same_row : row ≡ r.row =
        sym (record_of-row row (find_resolution row.approval_id t'.resolutions))
        ∙ ap (λ (x : ApprovalRecord). x.row) (approval_record-row contracts t' row r' recorded)
        ∙ ap (λ (x : ApprovalRecord × ApprovalStore). x.0.row) made in
      let all = requests ∙ ap (λ (x : ApprovalStore). x.requests) same_t in
      (
        ap (find_request row.approval_id) (sym all)
            ∙ rw (==-refl row.approval_id) (ap some same_row),
        record {
          requests = λ id x found.
              ap (find_request id) (sym all) ∙ new_request row s.requests fresh id x found;
          resolutions = λ id x found.
              ap (find_resolution id)
                (sym (resolutions ∙ ap (λ (x : ApprovalStore). x.resolutions) same_t))
              ∙ found;
        },
      )

  replay_request-ok :
      (stored asked : ApprovalRow) (s : ApprovalStore) (r : ApprovalRecord) (t : ApprovalStore)
      → replay_request contracts stored asked s ≡ ok (r, t)
      → (t ≡ s) × (r.row ≡ stored)
  unfolding replay_request
  replay_request-ok stored asked s r t h =
      let (r', recorded, on) = bind_ok (approval_record contracts s stored) _ (r, t) h in
      let (same, returned) =
        require_ok (approval_matches stored (request_of asked)) approval_conflict _ (r, t) on in
      let made = ok_injective (r', s) (r, t) _ refl returned in
      (
        sym (ap (λ (x : ApprovalRecord × ApprovalStore). x.1) made),
        sym (ap (λ (x : ApprovalRecord × ApprovalStore). x.0.row) made)
            ∙ sym (
                ap (λ (x : ApprovalRecord). x.row)
                  (approval_record-row contracts s stored r' recorded))
            ∙ record_of-row stored (find_resolution stored.approval_id s.resolutions),
      )

  inserted_or_replayed :
      (o : Option ApprovalRow) (c : ApprovalCall) (row : ApprovalRow) (s : ApprovalStore)
      (r : ApprovalRecord) (t : ApprovalStore)
      → find_request row.approval_id s.requests ≡ o
      → checked_row contracts c s ≡ ok row
      → insert_or_replay contracts o row c.producer s ≡ ok (r, t)
      → IsCreated c s r t
  inserted_or_replayed none c row s r t found checked h =
      let (stored, kept) = insert_request-ok row c.producer s r t found h in
      record {
        row = row;
        checked = checked;
        stored = stored;
        kept = kept;
        replayed = λ x there. absurd (ground (arith, found, there));
      }
  inserted_or_replayed (some x) c row s r t found checked h =
      let (same_t, same_row) = replay_request-ok x row s r t h in
      record {
        row = row;
        checked = checked;
        stored =
            ap (λ (y : ApprovalStore). find_request row.approval_id y.requests) same_t
            ∙ found
            ∙ ap some (sym same_row);
        kept = subst (IsKept s) (sym same_t) (IsKept-refl s);
        replayed = λ y there. (same_t, same_row ∙ same_option x y (sym found ∙ there));
      }

  pub create-IsCreated :
      (c : ApprovalCall) (s : ApprovalStore) (r : ApprovalRecord) (t : ApprovalStore)
      → create_approval_request contracts c s ≡ ok (r, t)
      → IsCreated c s r t
  unfolding create_approval_request
  create-IsCreated c s r t h =
      let (row, checked, on) = bind_ok (checked_row contracts c s) _ (r, t) h in
      inserted_or_replayed (find_request row.approval_id s.requests) c row s r t refl checked on

  -- A resolution that returns was the first one, and has left its row.
  pub record IsResolved (id : String) (result : ApprovalStatus) (actor_id : String)
      (s : ApprovalStore) (r : ApprovalRecord) (t : ApprovalStore) : Type 0 where
    pub unresolved : find_resolution id s.resolutions ≡ none
    pub row : ApprovalRow
    pub event_id : String
    pub asked : find_request id s.requests ≡ some row
    pub stored : find_request id t.requests ≡ some row
    pub identity : row.approval_id ≡ id
    pub resolved :
        find_resolution id t.resolutions
        ≡ some (human_resolution contracts row result actor_id event_id)
    pub kept : IsKept s t

  unresolved : (o : Option ResolutionRow) → require_unresolved contracts o ≡ ok tt → o ≡ none
  unresolved none h = refl
  unresolved (some r) h = absurd (ground arith)

  pub resolve-IsResolved :
      (id : String) (result : ApprovalStatus) (actor_id event_id : String) (producer : Producer)
      (s : ApprovalStore) (r : ApprovalRecord) (t : ApprovalStore)
      → resolve_approval_request contracts id result actor_id event_id producer s ≡ ok (r, t)
      → IsResolved id result actor_id s r t
  unfolding resolve_approval_request find_resolution
  resolve-IsResolved id result actor_id event_id producer s r t h =
      let (named, on) = require_ok _ value_error _ (r, t) h in
      let (final, on2) = require_ok (is_result_status result) value_error _ (r, t) on in
      let (row, there, on3) =
        bind_ok (or_raise (find_request id s.requests) reference_not_found) _ (r, t) on2 in
      let (before, loaded, on4) = bind_ok (approval_record contracts s row) _ (r, t) on3 in
      let (open', on5) =
        then_ok (require_unresolved contracts (find_resolution id s.resolutions)) _ (r, t) on4 in
      let (free, on6) =
        require_ok (not (is_event_taken contracts event_id s.resolutions)) constraint_violation _
          (r, t) on5 in
      let made_row = human_resolution contracts row result actor_id event_id in
      let (t', appended, on7) =
        bind_ok
          (append_evidence contracts row.run_id (resolution_event contracts row made_row producer)
            (record s { resolutions = made_row ∷ s.resolutions }))
          _ (r, t) on6 in
      let (r', recorded, returned) = bind_ok (approval_record contracts t' row) _ (r, t) on7 in
      let same_t : t' ≡ t =
        ap (λ (x : ApprovalRecord × ApprovalStore). x.1)
          (ok_injective (r', t') (r, t) _ refl returned) in
      let (requests, resolutions) =
        append_evidence-tables contracts row.run_id
          (resolution_event contracts row made_row producer)
          (record s { resolutions = made_row ∷ s.resolutions }) t' appended in
      let all_requests = requests ∙ ap (λ (x : ApprovalStore). x.requests) same_t in
      let all_resolutions = resolutions ∙ ap (λ (x : ApprovalStore). x.resolutions) same_t in
      let found = or_raise-some reference_not_found (find_request id s.requests) there in
      let identity = find_request-id id s.requests row found in
      let none_there = unresolved (find_resolution id s.resolutions) open' in
      record {
        unresolved = none_there;
        row = row;
        event_id = event_id;
        asked = found;
        stored = ap (find_request id) (sym all_requests) ∙ found;
        identity = identity;
        resolved =
            ap (find_resolution id) (sym all_resolutions)
            ∙ ap
                (λ (k : String).
                  if row.approval_id == k then some made_row else find_resolution k s.resolutions)
                (sym identity)
            ∙ first_one made_row row.approval_id s.resolutions;
        kept = record {
          requests = λ k x there'. ap (find_request k) (sym all_requests) ∙ there';
          resolutions = λ k x there'.
              ap (find_resolution k) (sym all_resolutions)
              ∙ new_resolution made_row s.resolutions
                  (ap (λ (j : String). find_resolution j s.resolutions) identity ∙ none_there) k x
                  there';
        };
      }
