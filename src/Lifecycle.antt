-- ===== src/Lifecycle.antt =====
-- packages/persistence/src/chaosagent_persistence/lifecycle.py: the statuses of a Run and the tests
-- that its transitions pass. The frozensets are lists that are only tested for membership.
pub mod Graph
pub mod Parse
mod Tests
use chaosagent.Base.{
  ℕ, ◌≡◌, ◌↔◌, refl, Bool, true, false, not, ◌||◌, List, [], ◌∷◌, String, Eq, ◌==◌, contains, arith,
  nat_eq, string_eq, if◌then◌else◌,
}

pub data RunStatus : Type 0 where
  queued provisioning running evaluating completed failed timed_out cancelled infra_error :
      RunStatus

abbrev pub ordinal : RunStatus → ℕ
ordinal queued = 0
ordinal provisioning = 1
ordinal running = 2
ordinal evaluating = 3
ordinal completed = 4
ordinal failed = 5
ordinal timed_out = 6
ordinal cancelled = 7
ordinal infra_error = 8

abbrev pub status_beq : RunStatus → RunStatus → Bool
status_beq s t = ordinal s == ordinal t

pub status_beq_iff : (s t : RunStatus) → (status_beq s t ≡ true) ↔ (s ≡ t)
status_beq_iff s t = ground arith

instance abbrev pub status_eq : Eq RunStatus
status_eq = record { same = status_beq; same_iff = status_beq_iff }

abbrev pub run_statuses : List RunStatus
run_statuses =
    queued ∷ provisioning ∷ running ∷ evaluating ∷ completed ∷ failed ∷ timed_out ∷ cancelled
    ∷ infra_error ∷ []

abbrev pub active_statuses : List RunStatus
active_statuses = provisioning ∷ running ∷ evaluating ∷ []

abbrev pub terminal_statuses : List RunStatus
terminal_statuses = completed ∷ failed ∷ timed_out ∷ cancelled ∷ infra_error ∷ []

-- `_NORMAL_TRANSITIONS`, which `legal_targets` exposes
unfoldable pub normal_transitions : RunStatus → List RunStatus
normal_transitions queued = provisioning ∷ cancelled ∷ []
normal_transitions provisioning = running ∷ failed ∷ timed_out ∷ cancelled ∷ infra_error ∷ []
normal_transitions running = evaluating ∷ failed ∷ timed_out ∷ cancelled ∷ infra_error ∷ []
normal_transitions evaluating = completed ∷ failed ∷ timed_out ∷ cancelled ∷ infra_error ∷ []
normal_transitions _ = []

-- the text of a status, as the column holds it
unfoldable pub status_text : RunStatus → String
status_text queued = "queued"
status_text provisioning = "provisioning"
status_text running = "running"
status_text evaluating = "evaluating"
status_text completed = "completed"
status_text failed = "failed"
status_text timed_out = "timed_out"
status_text cancelled = "cancelled"
status_text infra_error = "infra_error"

pub data ParsedStatus : Type 0 where
  known : RunStatus → ParsedStatus
  unknown_status : String → ParsedStatus

-- `value in RUN_STATUSES`, with the member that it is equal to
unfoldable pub find_status : String → List RunStatus → ParsedStatus
unfolding status_text
find_status value [] = unknown_status value
find_status value (s ∷ rest) = if value == status_text s then known s else find_status value rest

-- the second case is the `ValueError`
unfoldable pub parse_run_status : String → ParsedStatus
unfolding find_status
parse_run_status value = find_status value run_statuses

-- The four `require_…_transition` tests: false is the `IllegalRunTransitionError`.
unfoldable pub claim_transition : RunStatus → RunStatus → Bool
claim_transition source target = not (not (source == queued) || not (target == provisioning))

unfoldable pub owned_transition : RunStatus → RunStatus → Bool
unfolding normal_transitions
owned_transition source target =
    not (not (contains source active_statuses) || not (contains target (normal_transitions source)))

unfoldable pub unleased_transition : RunStatus → RunStatus → Bool
unleased_transition source target = not (not (source == queued) || not (target == cancelled))

unfoldable pub recovery_transition : RunStatus → RunStatus → Bool
recovery_transition source target =
    not (not (contains source active_statuses) || not (target == queued))
