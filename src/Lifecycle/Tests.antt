-- ===== src/Lifecycle/Tests.antt =====
-- The theorems on the lifecycle at concrete statuses.
use chaosagent.Base.{◌≡◌, ◌↔◌, true}
use chaosagent.Lifecycle.{running, failed}
use chaosagent.Lifecycle.Graph.{◌⟶◌, admitted, admitted_iff}

admitted_iff_example : (admitted running failed ≡ true) ↔ (running ⟶ failed)
admitted_iff_example = admitted_iff running failed
