-- ===== src/Approvals/Once.antt =====
-- Approvals under any sequence of returning creations and resolutions, by any callers, and of any other methods,
-- which leave the two tables of approvals alone.
use chaosagent.Base.{
  ◌≡◌, ◌≢◌, ◌↔◌, true, ==→≡, eq_iff, string_eq, refl, sym, ap, ◌∙◌, String, some, ok, arith,
  bind_ok, then_ok, require_ok, ok_injective, ◌>>=◌, Bool-cases, inl, inr,
}
use chaosagent.Json.{object}
use chaosagent.Json.Same.{same_value}
use chaosagent.Evaluators.Lookups.{same_ref}
use chaosagent.Checkpoints.{members_fit_jsonb}
use chaosagent.Faults.History.{Producer}
use chaosagent.Evaluators.{ApprovalStatus, Contracts}
use chaosagent.Approvals.{
  value_error, persistence_profile, ApprovalRow, ResolutionRow, ApprovalStore, ApprovalRecord,
  find_request, find_resolution,
}
use chaosagent.Approvals.Integrity.{record_of, approval_record}
use chaosagent.Approvals.Calls.{
  ApprovalCall, CallDigests, FrozenRequest, approval_matches, is_well_formed_call,
}
use chaosagent.Approvals.Requests.{
  row_for, check_authority, check_digests, checked_row, create_approval_request,
  get_approval_request, get_approval_request_for_authorization, resolve_approval_request,
  human_resolution,
}
use chaosagent.Approvals.Kept.{IsKept, IsKept-refl, IsKept-trans, IsKept-eq, approval_record-row}
use chaosagent.Approvals.Returned.{create-IsCreated, resolve-IsResolved}

pub data ApprovalStep (contracts : Contracts) : ApprovalStore → ApprovalStore → Type 0 where
  created :
      {s t : ApprovalStore} (c : ApprovalCall) (r : ApprovalRecord)
      → create_approval_request contracts c s ≡ ok (r, t)
      → ApprovalStep contracts s t
  resolved :
      {s t : ApprovalStore} (id : String) (result : ApprovalStatus) (actor_id event_id : String)
      (producer : Producer) (r : ApprovalRecord)
      → resolve_approval_request contracts id result actor_id event_id producer s ≡ ok (r, t)
      → ApprovalStep contracts s t
  elsewhere :
      {s t : ApprovalStore}
      → s.requests ≡ t.requests
      → s.resolutions ≡ t.resolutions
      → ApprovalStep contracts s t

pub data ApprovalSteps (contracts : Contracts) (s : ApprovalStore) : ApprovalStore → Type 0 where
  done : ApprovalSteps contracts s s
  further :
      {t u : ApprovalStore}
      → ApprovalSteps contracts s t
      → ApprovalStep contracts t u
      → ApprovalSteps contracts s u

-- A request is exactly the one that an approval is about.
pub record IsExact (row : ApprovalRow) (asked : FrozenRequest) : Type 0 where
  pub run : row.run_id ≡ asked.run_id
  pub scenario : same_ref row.scenario asked.scenario ≡ true
  pub policy : same_ref row.policy asked.policy ≡ true
  pub tool : row.tool_id ≡ asked.tool_id
  pub contract : row.contract_version ≡ asked.contract_version
  pub digest : row.request_digest ≡ asked.request_digest
  pub key : row.idempotency_key_digest ≡ asked.idempotency_key_digest
  pub arguments : same_value (object row.arguments) (object asked.arguments) ≡ true

some_injective : (x y : ApprovalRecord) → some x ≡ some y → x ≡ y
some_injective x y h = ground arith

module _ (contracts : Contracts) where
  step-IsKept : {s t : ApprovalStore} → ApprovalStep contracts s t → IsKept s t
  step-IsKept {s} {t} (created c r h) = (create-IsCreated contracts c s r t h).kept
  step-IsKept {s} {t} (resolved id result actor_id event_id producer r h) =
      (resolve-IsResolved contracts id result actor_id event_id producer s r t h).kept
  step-IsKept {s} {t} (elsewhere requests resolutions) = IsKept-eq s t requests resolutions

  steps-IsKept : {s t : ApprovalStore} → ApprovalSteps contracts s t → IsKept s t
  steps-IsKept {s} done = IsKept-refl s
  steps-IsKept {s} {t} (further {t = m} before step) =
      IsKept-trans s m t (steps-IsKept before) (step-IsKept step)

  checked_row-digests :
      (c : ApprovalCall) (s : ApprovalStore) (row : ApprovalRow)
      → checked_row contracts c s ≡ ok row
      → (digests : CallDigests) × (check_digests contracts c ≡ ok digests)
        × (row ≡ row_for contracts c digests)
  unfolding checked_row
  checked_row-digests c s row h =
      let (formed, on) = require_ok (is_well_formed_call c) value_error _ row h in
      let (fits, on2) = require_ok (members_fit_jsonb c.arguments) persistence_profile _ row on in
      let (authorized, on3) = then_ok (check_authority contracts c s) _ row on2 in
      let (digests, digested, on4) = bind_ok (check_digests contracts c) _ row on3 in
      let (proven, returned) = then_ok _ (ok (row_for contracts c digests)) row on4 in
      (digests, digested, sym (ok_injective (row_for contracts c digests) row _ refl returned))

  -- the same action, asked for again by another call
  abbrev pub retried : ApprovalCall → ApprovalCall → ApprovalCall
  retried c fresh = record fresh {
    run_id = c.run_id;
    scenario = c.scenario;
    policy = c.policy;
    tool_id = c.tool_id;
    contract_version = c.contract_version;
    request_digest = c.request_digest;
    idempotency_key_digest = c.idempotency_key_digest;
    arguments = c.arguments;
  }

  retried-digests :
      (c fresh : ApprovalCall)
      → check_digests contracts (retried c fresh) ≡ check_digests contracts c
  unfolding check_digests
  retried-digests c fresh = refl

  -- After a creation of an approval request has returned and any steps have followed, any call that asks for the
  -- same action of the same Run, under whatever attempt, decision and event identities, changes nothing if it
  -- returns, and returns the row that the first one returned.
  pub create_once :
      (c fresh : ApprovalCall) (s t u v : ApprovalStore) (r r' : ApprovalRecord)
      → create_approval_request contracts c s ≡ ok (r, t)
      → ApprovalSteps contracts t u
      → create_approval_request contracts (retried c fresh) u ≡ ok (r', v)
      → (v ≡ u) × (r'.row ≡ r.row)
  create_once c fresh s t u v r r' first steps again =
      let one = create-IsCreated contracts c s r t first in
      let two = create-IsCreated contracts (retried c fresh) u r' v again in
      let (digests, digested, made) = checked_row-digests c s one.row one.checked in
      let (digests', digested', made') =
        checked_row-digests (retried c fresh) u two.row two.checked in
      let same =
        ok_injective digests digests' _ digested (sym (retried-digests c fresh) ∙ digested') in
      let ids : one.row.approval_id ≡ two.row.approval_id =
        ap (λ (x : ApprovalRow). x.approval_id) made
        ∙ ap (λ (x : CallDigests). (row_for contracts (retried c fresh) x).approval_id) same
        ∙ ap (λ (x : ApprovalRow). x.approval_id) (sym made') in
      two.replayed r.row (
        ap (λ i. find_request i u.requests) (sym ids)
        ∙ (steps-IsKept steps).requests one.row.approval_id r.row one.stored)

  never_again :
      (id : String) (result : ApprovalStatus) (actor_id event_id : String) (producer : Producer)
      (u v : ApprovalStore) (r : ApprovalRecord) (x : ResolutionRow)
      → find_resolution id u.resolutions ≡ some x
      → resolve_approval_request contracts id result actor_id event_id producer u ≢ ok (r, v)
  never_again id result actor_id event_id producer u v r x there again =
      let first =
        (resolve-IsResolved contracts id result actor_id event_id producer u r v
          again).unresolved in
      absurd (ground (arith, there, first))

  loaded :
      (id : String) (u : ApprovalStore) (row : ApprovalRow) (x : ResolutionRow) (r : ApprovalRecord)
      → find_request id u.requests ≡ some row
      → row.approval_id ≡ id
      → find_resolution id u.resolutions ≡ some x
      → get_approval_request contracts id u ≡ ok (some r)
      → (r.status ≡ x.result) × (r.actor_id ≡ some x.actor_id) × (row ≡ r.row)
  unfolding get_approval_request
  loaded id u row x r there identity answered h =
      let on : (approval_record contracts u row >>= (λ y. ok (some y))) ≡ ok (some r) =
        ground (arith, there) in
      let (y, recorded, returned) =
        bind_ok (approval_record contracts u row) (λ y. ok (some y)) (some r) on in
      let same = some_injective y r (ok_injective (some y) (some r) _ refl returned) in
      let known : record_of row (some x) ≡ r =
        ap (record_of row)
          (sym (ap (λ (k : String). find_resolution k u.resolutions) identity ∙ answered))
        ∙ approval_record-row contracts u row y recorded
        ∙ same in
      (
        ap (λ (z : ApprovalRecord). z.status) (sym known),
        ap (λ (z : ApprovalRecord). z.actor_id) (sym known),
        ap (λ (z : ApprovalRecord). z.row) known,
      )

  -- After a resolution of an approval has returned and any steps have followed, every further resolution of it
  -- raises.
  pub resolved_once :
      (id : String) (result : ApprovalStatus) (actor_id event_id : String) (producer : Producer)
      (s t u : ApprovalStore) (r : ApprovalRecord)
      → resolve_approval_request contracts id result actor_id event_id producer s ≡ ok (r, t)
      → ApprovalSteps contracts t u
      → (result' : ApprovalStatus) (actor' event' : String) (producer' : Producer)
        (r' : ApprovalRecord) (v : ApprovalStore)
      → resolve_approval_request contracts id result' actor' event' producer' u ≢ ok (r', v)
  resolved_once id result actor_id event_id producer s t u r first steps result' actor' event'
        producer' r' v =
      let one = resolve-IsResolved contracts id result actor_id event_id producer s r t first in
      let row = human_resolution contracts one.row result actor_id one.event_id in
      never_again id result' actor' event' producer' u v r' row
        ((steps-IsKept steps).resolutions id row one.resolved)

  matches-IsExact :
      (row : ApprovalRow) (asked : FrozenRequest)
      → approval_matches row asked ≡ true
      → IsExact row asked
  unfolding approval_matches
  matches-IsExact row asked h = record {
    run = ==→≡ _ _ (ground arith);
    scenario = ground arith;
    policy = ground arith;
    tool = ==→≡ _ _ (ground arith);
    contract = ==→≡ _ _ (ground arith);
    digest = ==→≡ _ _ (ground arith);
    key = ==→≡ _ _ (ground arith);
    arguments = ground arith;
  }

  IsExact-matches :
      (row : ApprovalRow) (asked : FrozenRequest)
      → IsExact row asked
      → approval_matches row asked ≡ true
  unfolding approval_matches
  IsExact-matches row asked e = ground (
    arith,
    e.run,
    e.scenario,
    e.policy,
    e.tool,
    e.contract,
    e.digest,
    e.key,
    e.arguments,
    eq_iff row.run_id asked.run_id,
    eq_iff row.tool_id asked.tool_id,
    eq_iff row.contract_version asked.contract_version,
    eq_iff row.request_digest asked.request_digest,
    eq_iff row.idempotency_key_digest asked.idempotency_key_digest,
  )

  authorization_iff :
      (id : String) (asked : FrozenRequest) (s : ApprovalStore) (r : ApprovalRecord)
      → get_approval_request contracts id s ≡ ok (some r)
      → (get_approval_request_for_authorization contracts id asked s ≡ ok (some r))
        ↔ IsExact r.row asked
  unfolding get_approval_request_for_authorization
  authorization_iff id asked s r h = (
    (λ returned. elim (Bool-cases (approval_matches r.row asked)) [
      | inl same ↦ matches-IsExact r.row asked same
      | inr other ↦ absurd (ground (arith, rw (h, other) at returned))
    ]),
    (λ e. rw (h, IsExact-matches r.row asked e) refl),
  )

  -- After a resolution of an approval has returned and any steps have followed, a record that loading the
  -- approval returns has the result and the actor of that resolution, and is of the row that was resolved; and
  -- loading it for an authorization returns that record exactly where the request is of the same Run, Scenario
  -- and policy, of the same tool, contract and digests, and has the same arguments.
  pub resolved_final :
      (id : String) (result : ApprovalStatus) (actor_id event_id : String) (producer : Producer)
      (s t u : ApprovalStore) (r r' : ApprovalRecord) (asked : FrozenRequest)
      → resolve_approval_request contracts id result actor_id event_id producer s ≡ ok (r, t)
      → ApprovalSteps contracts t u
      → get_approval_request contracts id u ≡ ok (some r')
      → (r'.status ≡ result)
        × (r'.actor_id ≡ some actor_id)
        × (find_request id s.requests ≡ some r'.row)
        × ((get_approval_request_for_authorization contracts id asked u ≡ ok (some r'))
            ↔ IsExact r'.row asked)
  resolved_final id result actor_id event_id producer s t u r r' asked first steps h =
      let one = resolve-IsResolved contracts id result actor_id event_id producer s r t first in
      let kept = steps-IsKept steps in
      let row = human_resolution contracts one.row result actor_id one.event_id in
      let there = kept.requests id one.row one.stored in
      let (status, actor, of_row) =
        loaded id u one.row row r' there one.identity (kept.resolutions id row one.resolved) h in
      (status, actor, one.asked ∙ ap some of_row, authorization_iff id asked u r' h)
