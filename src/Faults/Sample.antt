-- ===== src/Faults/Sample.antt =====
-- A plan of a delay, a failing rule and a timeout after the commit, and a call that they match.
use chaosagent.Base.{pos, ◌≡◌, refl, arith, String, true, none, some, [], ◌∷◌, nat_eq, string_eq}
use chaosagent.Store.Texts.{concat, is_digest}
use chaosagent.Json.{integer, Members, end, member}
use chaosagent.Faults.{
  FaultPhase, before_tool, after_commit, FaultKind, delay, http_error,
  ambiguous_post_commit_timeout, CompiledFaultRule, CompiledFaultPlan, FaultMatchContext, Hashing,
}
use chaosagent.Faults.Rules.{FaultDeclaration, Scenario}

abbrev pub zeros : String
zeros = "0000000000000000000000000000000000000000000000000000000000000000"

abbrev pub digest : String
digest = "sha256:0000000000000000000000000000000000000000000000000000000000000000"

pub zeros_digest : is_digest (concat "sha256:" zeros) ≡ true
unfolding is_digest
zeros_digest = refl

-- A hash that takes every document to the same digest.
abbrev pub constant_hash : Hashing
constant_hash = record {
  dumps = λ v. some "document";
  hexdigest = λ s. zeros;
  digest_int = λ s. 0;
  digest_int_bound = λ s. omega arith;
  hexdigest_digits = λ s. zeros_digest;
}

abbrev pub fault : String → FaultKind → FaultPhase → Members → FaultDeclaration
fault id kind phase parameters = record {
  id = id;
  kind = kind;
  tool_id = "orders.get";
  phase = phase;
  call_ordinal = none;
  argument_equals = end;
  probability_ppm = 500_000;
  max_occurrences = 2;
  parameters = parameters;
}

abbrev pub scenario : Scenario
scenario = record {
  scenario_id = "late-order";
  revision = "1";
  digest = digest;
  faults =
      fault "slow" delay before_tool (member "duration_ms" (integer (pos 250)) end)
      ∷ fault "busy" http_error before_tool (member "status" (integer (pos 429)) end)
      ∷ fault "lost" ambiguous_post_commit_timeout after_commit
          (member "duration_ms" (integer (pos 9)) end)
      ∷ [];
}

abbrev pub rule : String → FaultKind → FaultPhase → Members → CompiledFaultRule
rule id kind phase parameters = record {
  fault_id = id;
  scenario_digest = digest;
  kind = kind;
  tool_id = "orders.get";
  phase = phase;
  call_ordinal = none;
  argument_equals = end;
  probability_ppm = 500_000;
  max_occurrences = 2;
  parameters = parameters;
  integrity_digest = digest;
}

abbrev pub busy : CompiledFaultRule
busy = rule "busy" http_error before_tool (member "status" (integer (pos 429)) end)

abbrev pub lost : CompiledFaultRule
lost =
    rule "lost" ambiguous_post_commit_timeout after_commit
      (member "duration_ms" (integer (pos 9)) end)

abbrev pub slow : CompiledFaultRule
slow = rule "slow" delay before_tool (member "duration_ms" (integer (pos 250)) end)

abbrev pub plan : CompiledFaultPlan
plan = record {
  scenario_id = "late-order";
  scenario_revision = "1";
  scenario_digest = digest;
  rules = busy ∷ lost ∷ slow ∷ [];
  integrity_digest = digest;
}

abbrev pub call : FaultPhase → FaultMatchContext
call phase = record {
  run_id = "run-1";
  run_seed = 7;
  scenario_digest = digest;
  tool_id = "orders.get";
  phase = phase;
  logical_call_id = "call-1";
  physical_attempt_id = "attempt-1";
  attempt_number = 1;
  call_ordinal = 1;
  arguments = end;
  arguments_digest = digest;
  prior_applied_occurrences = ("busy", 1) ∷ [];
}
