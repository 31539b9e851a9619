-- ===== src/Lifecycle/Graph.antt =====
-- The transition diagram of lifecycle.py as a relation, its reachable statuses, and what the four
-- tests of the code admit.
use chaosagent.Base.{◌≡◌, ◌↔◌, refl, Bool, true, false, ◌&&◌, ◌||◌, contains, arith}
use chaosagent.Lifecycle.{
  RunStatus, queued, provisioning, running, evaluating, completed, failed, timed_out, cancelled,
  infra_error, status_eq, terminal_statuses, claim_transition, owned_transition,
  unleased_transition, recovery_transition,
}

infix 40 ◌⟶◌ ◌⟶*◌
-- How a Run may end once a worker holds it, before it is `completed`.
pub data IsAbort : RunStatus → Type 0 where
  failed_abort : IsAbort failed
  timed_out_abort : IsAbort timed_out
  cancelled_abort : IsAbort cancelled
  infra_error_abort : IsAbort infra_error

pub data IsActive : RunStatus → Type 0 where
  provisioning_active : IsActive provisioning
  running_active : IsActive running
  evaluating_active : IsActive evaluating

-- One legal change of status, whoever makes it.
pub data ◌⟶◌ : RunStatus → RunStatus → Type 0 where
  claim : queued ⟶ provisioning
  withdraw : queued ⟶ cancelled
  start : provisioning ⟶ running
  judge : running ⟶ evaluating
  finish : evaluating ⟶ completed
  abort : {s t : RunStatus} → IsActive s → IsAbort t → s ⟶ t
  recover : {s : RunStatus} → IsActive s → s ⟶ queued

pub data ◌⟶*◌ : RunStatus → RunStatus → Type 0 where
  here : {s : RunStatus} → s ⟶* s
  then : {s t u : RunStatus} → s ⟶ t → t ⟶* u → s ⟶* u

pub ruleset edges = (
  claim, withdraw, start, judge, finish, abort, recover, failed_abort, timed_out_abort,
  cancelled_abort, infra_error_abort, provisioning_active, running_active, evaluating_active,
)

abbrev pub admitted : RunStatus → RunStatus → Bool
admitted s t =
    (claim_transition s t || owned_transition s t)
    || (unleased_transition s t || recovery_transition s t)

admitted→⟶ : (s t : RunStatus) → admitted s t ≡ true → s ⟶ t
unfolding claim_transition owned_transition unleased_transition recovery_transition
admitted→⟶ s t h = grind (arith, edges)

⟶→admitted : {s t : RunStatus} → s ⟶ t → admitted s t ≡ true
unfolding claim_transition owned_transition unleased_transition recovery_transition
⟶→admitted claim = refl
⟶→admitted (abort provisioning_active failed_abort) = refl
⟶→admitted (abort running_active failed_abort) = refl
⟶→admitted (abort evaluating_active failed_abort) = refl
⟶→admitted (recover provisioning_active) = refl
⟶→admitted (recover running_active) = refl
⟶→admitted _ = refl

-- One of the four tests of the code lets a change of status through exactly when it is an edge of
-- the diagram.
pub admitted_iff : (s t : RunStatus) → (admitted s t ≡ true) ↔ (s ⟶ t)
admitted_iff s t = (admitted→⟶ s t, ⟶→admitted)

pub claim→⟶ : (s t : RunStatus) → claim_transition s t ≡ true → s ⟶ t
claim→⟶ s t h = admitted→⟶ s t (ground arith)

pub owned→⟶ : (s t : RunStatus) → owned_transition s t ≡ true → s ⟶ t
owned→⟶ s t h = admitted→⟶ s t (ground arith)

pub unleased→⟶ : (s t : RunStatus) → unleased_transition s t ≡ true → s ⟶ t
unleased→⟶ s t h = admitted→⟶ s t (ground arith)

pub recovery→⟶ : (s t : RunStatus) → recovery_transition s t ≡ true → s ⟶ t
recovery→⟶ s t h = admitted→⟶ s t (ground arith)

-- The credentials that an edge needs are settled by its two statuses: no pair of statuses passes
-- two of the four tests.
tests_disjoint :
    (s t : RunStatus)
    → ((claim_transition s t && owned_transition s t) ≡ false)
      × ((claim_transition s t && unleased_transition s t) ≡ false)
      × ((claim_transition s t && recovery_transition s t) ≡ false)
      × ((owned_transition s t && unleased_transition s t) ≡ false)
      × ((owned_transition s t && recovery_transition s t) ≡ false)
      × ((unleased_transition s t && recovery_transition s t) ≡ false)
unfolding claim_transition owned_transition unleased_transition recovery_transition
tests_disjoint s t = ground arith

abbrev pub is_terminal : RunStatus → Bool
is_terminal s = contains s terminal_statuses

⟶-from_terminal : {s t : RunStatus} → s ⟶ t → is_terminal s ≡ false
⟶-from_terminal claim = refl
⟶-from_terminal (abort provisioning_active b) = refl
⟶-from_terminal (abort running_active b) = refl
⟶-from_terminal (abort evaluating_active b) = refl
⟶-from_terminal (recover provisioning_active) = refl
⟶-from_terminal (recover running_active) = refl
⟶-from_terminal _ = refl

-- No sequence of legal changes leaves a terminal status.
pub terminal_absorbing : {s t : RunStatus} → s ⟶* t → is_terminal s ≡ true → s ≡ t
terminal_absorbing here h = refl
terminal_absorbing (then e r) h = cc (⟶-from_terminal e)

-- From every status that is not terminal, a sequence of legal changes leads to `completed`.
pub completed_reachable : (s : RunStatus) → is_terminal s ≡ false → s ⟶* completed
completed_reachable queued h = search (here, then, edges)
completed_reachable provisioning h = search (here, then, edges)
completed_reachable running h = search (here, then, edges)
completed_reachable evaluating h = search (here, then, edges)
completed_reachable _ h = cc
