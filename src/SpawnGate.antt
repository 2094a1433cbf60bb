-- ===== src/SpawnGate.antt =====
-- kernel/core/src/spawn_gate/mod.rs: one verdict from the deny list, the hook's tier and the
-- scores, before a spawn.
pub mod Verdict
use asolaria_os.Prelude.{ℕ, List, Bytes, leb, ◌&&◌, not, if◌then◌else◌, Bool, Result, ok, err}
use asolaria_os.Access.{AccessTier, HookwallVerdict, proceed, hold, block, SyscallErr, verdict_eq}
use asolaria_os.Hookwall.{HookTier, HookContext, hookwall_pre, compose_verdict_row}
use asolaria_os.SignGate.{deny_check, default_denies}

abbrev pub gate_genius_threshold_q : ℕ
gate_genius_threshold_q = 720

abbrev pub gate_max_reverse_risk_q : ℕ
gate_max_reverse_risk_q = 280

pub record SpawnGateInput : Type 0 where
  pub slot : ℕ
  pub syscall_no : ℕ
  pub caller_pid : ℕ
  pub tier : HookTier
  pub target_tier : AccessTier
  pub event_tags : List Bytes
  pub forward_score_q : ℕ
  pub reverse_risk_q : ℕ

abbrev pub context_of : SpawnGateInput → HookContext
context_of input = record {
  slot = input.slot;
  syscall_no = input.syscall_no;
  caller_pid = input.caller_pid;
  tier = input.tier;
  target_tier = input.target_tier;
}

-- From the hook's answer on.
after_tier : SpawnGateInput → Result SyscallErr HookwallVerdict → HookwallVerdict
after_tier input (err e) = block
after_tier input (ok tier_verdict) =
    if not (verdict_eq tier_verdict proceed)
    then tier_verdict
    else if leb gate_genius_threshold_q input.forward_score_q
        && leb input.reverse_risk_q gate_max_reverse_risk_q
    then proceed
    else hold

unfoldable pub spawn_gate_verdict : SpawnGateInput → HookwallVerdict
unfolding after_tier verdict_eq
spawn_gate_verdict input =
    if not (deny_check input.event_tags default_denies)
    then block
    else after_tier input (hookwall_pre (context_of input))

unfoldable pub seal_row : SpawnGateInput → HookwallVerdict → Bytes
seal_row input verdict = compose_verdict_row (context_of input) verdict
