-- ===== src/Runs/Evolution.antt =====
-- What any number of changes keeps of a row: its identity, the order of versions, the consistency of
-- the lease columns, and an ended Run as it is.
use chaosagent.Base.{
  ◌+◌, ◌≤◌, ◌≡◌, ◌⊎◌, inl, inr, ◌∙◌, sym, refl, none, true, false, arith, ap, subst, contains,
}
use chaosagent.Lifecycle.{RunStatus, active_statuses, status_eq}
use chaosagent.Lifecycle.Graph.{
  IsActive, is_terminal, provisioning_active, running_active, evaluating_active, failed_abort,
  timed_out_abort, cancelled_abort, infra_error_abort,
}
use chaosagent.Leases.{lease_state_consistency}
use chaosagent.Store.Tables.{Run}
use chaosagent.Runs.Protocol.{
  Change, claim, extend, advance, end, cancel, requeue, seed, Evolves, here, next, IsEnd,
  completed_end, abort_end,
}

-- the row as it was, or as it was with its missing fault seed bound
abbrev pub IsSeeded : Run → Run → Type 0
IsSeeded r s = (r.fault_seed ≡ none) × (s ≡ record r { fault_seed = s.fault_seed })

abbrev pub SameButSeed : Run → Run → Type 0
SameButSeed r s = (s ≡ r) ⊎ IsSeeded r s

-- A change counts the version up, or binds the fault seed alone.
version-Change :
    {r s : Run}
    → Change r s
    → (s.lifecycle_version ≡ r.lifecycle_version + 1)
      ⊎ ((s.lifecycle_version ≡ r.lifecycle_version) × IsSeeded r s)
version-Change (claim w t n e a b c d q) = inl (ap (λ (x : Run). x.lifecycle_version) q)
version-Change (extend l n e h a q) = inl (ap (λ (x : Run). x.lifecycle_version) q)
version-Change (advance l n t h a b q) = inl (ap (λ (x : Run). x.lifecycle_version) q)
version-Change (end l n t h a b q) = inl (ap (λ (x : Run). x.lifecycle_version) q)
version-Change (cancel a b c q) = inl (ap (λ (x : Run). x.lifecycle_version) q)
version-Change (requeue n e a b c q) = inl (ap (λ (x : Run). x.lifecycle_version) q)
version-Change {r} {s} (seed l n v h e q) = inr (
  ap (λ (x : Run). x.lifecycle_version) q,
  (e, q ∙ ap (λ o. record r { fault_seed = o }) (sym (ap (λ (x : Run). x.fault_seed) q))),
)

pub version-Evolves : {r s : Run} → Evolves r s → r.lifecycle_version ≤ s.lifecycle_version
version-Evolves here = omega arith
version-Evolves (next e c) = elim (version-Change c) [
  | inl counted ↦ omega (arith, version-Evolves e)
  | inr (kept, _) ↦ omega (arith, version-Evolves e)
]

-- A version number stands for one content of a row but for the fault seed, which is bound without a new
-- version: a compare-and-swap on the version cannot meet a row that was changed and changed back.
pub version_identifies :
    {r s : Run} → Evolves r s → r.lifecycle_version ≡ s.lifecycle_version → SameButSeed r s
version_identifies here h = inl refl
version_identifies {r} {s} (next {s = m} e c) h = elim (version-Change c) [
  | inl counted ↦ absurd (omega (arith, version-Evolves e))
  | inr (kept, (unbound, bound)) ↦ elim (version_identifies e (h ∙ kept)) [
    | inl same ↦ inr (
      ap (λ (x : Run). x.fault_seed) (sym same) ∙ unbound,
      bound ∙ ap (λ (x : Run). record x { fault_seed = s.fault_seed }) same,
    )
    | inr (empty, before) ↦
        inr (empty, bound ∙ ap (λ (x : Run). record x { fault_seed = s.fault_seed }) before)
  ]
]

active_not_terminal : {s : RunStatus} → IsActive s → is_terminal s ≡ false
active_not_terminal provisioning_active = refl
active_not_terminal running_active = refl
active_not_terminal evaluating_active = refl

pub active_in : {s : RunStatus} → IsActive s → contains s active_statuses ≡ true
active_in provisioning_active = refl
active_in running_active = refl
active_in evaluating_active = refl

pub end_terminal : {s : RunStatus} → IsEnd s → is_terminal s ≡ true
end_terminal completed_end = refl
end_terminal (abort_end failed_abort) = refl
end_terminal (abort_end timed_out_abort) = refl
end_terminal (abort_end cancelled_abort) = refl
end_terminal (abort_end infra_error_abort) = refl

-- Every change of the protocol keeps the lease columns consistent with the status, so the CHECK
-- constraint never refuses what the methods write.
pub consistency-Change :
    {r s : Run} → Change r s → lease_state_consistency r ≡ true → lease_state_consistency s ≡ true
unfolding lease_state_consistency
consistency-Change {r} {s} (claim w t n e a b c d q) k = rw q (ground arith)
consistency-Change {r} {s} (extend l n e h a q) k = rw q (ground (arith, active_in h.active))
consistency-Change {r} {s} (advance l n t h e a q) k =
    rw q (ground (arith, active_in h.active, active_in a))
consistency-Change {r} {s} (end l n t h e a q) k = rw q (ground (arith, end_terminal a))
consistency-Change {r} {s} (cancel a b c q) k = rw q (ground arith)
consistency-Change {r} {s} (requeue n e a b c q) k = rw q refl
consistency-Change {r} {s} (seed l n v h e q) k = rw q k

-- An ended Run makes no change.
pub terminal_final : {r s : Run} → is_terminal r.status ≡ true → ¬ Change r s
terminal_final h (claim w t n e a b c d q) = ground arith
terminal_final h (extend l n e k a q) = cc (active_not_terminal k.active)
terminal_final h (advance l n t k e a q) = cc (active_not_terminal k.active)
terminal_final h (end l n t k e a q) = cc (active_not_terminal k.active)
terminal_final h (cancel a b c q) = ground arith
terminal_final h (requeue n e a b c q) = cc (active_not_terminal a)
terminal_final h (seed l n v k e q) = cc (active_not_terminal k.active)

-- Once a Run has ended, its row stays as it is.
pub terminal_row_final : {r s : Run} → is_terminal r.status ≡ true → Evolves r s → r ≡ s
terminal_row_final h here = refl
terminal_row_final {r} h (next {s = m} e c) =
    absurd (
      terminal_final (subst (λ (x : Run). is_terminal x.status ≡ true) (terminal_row_final h e) h)
        c)
