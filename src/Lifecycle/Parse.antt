-- ===== src/Lifecycle/Parse.antt =====
-- `parse_run_status` of lifecycle.py reads back exactly the texts of the nine statuses.
use chaosagent.Base.{◌≡◌, ◌↔◌, refl, arith, String, subst, sym, eq_iff}
use chaosagent.Lifecycle.{RunStatus, queued, known, status_text, parse_run_status}

pub parse_run_status-status_text : (s : RunStatus) → parse_run_status (status_text s) ≡ known s
unfolding parse_run_status
parse_run_status-status_text queued = refl
parse_run_status-status_text _ = refl

status_text-of_parse :
    (value : String) (s : RunStatus) → parse_run_status value ≡ known s → value ≡ status_text s
unfolding parse_run_status
status_text-of_parse value s h = ground (
  arith,
  eq_iff value "queued",
  eq_iff value "provisioning",
  eq_iff value "running",
  eq_iff value "evaluating",
  eq_iff value "completed",
  eq_iff value "failed",
  eq_iff value "timed_out",
  eq_iff value "cancelled",
  eq_iff value "infra_error",
)

-- A text parses as a status exactly when it is that status's text, so parsing and printing are
-- inverse and every other text is refused.
parse_run_status_iff :
    (value : String) (s : RunStatus) → (parse_run_status value ≡ known s) ↔ (value ≡ status_text s)
parse_run_status_iff value s = (
  status_text-of_parse value s,
  λ e. subst (λ v. parse_run_status v ≡ known s) (sym e) (parse_run_status-status_text s),
)
