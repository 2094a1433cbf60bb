-- ===== src/SpawnGate/Verdict.antt =====
-- The spawn verdict of spawn_gate/mod.rs is the strictest of three.
use Prim.Native.Nat.{max}
use asolaria_os.Prelude.{ℕ, ◌≡◌, arith, ltb, leb, ◌&&◌, if◌then◌else◌}
use asolaria_os.Access.{HookwallVerdict, proceed, hold, block}
use asolaria_os.Hookwall.{HookTier, micro, cosign, firmware, hookwall_pre, hookwall_slot_count}
use asolaria_os.SignGate.{deny_check, default_denies}
use asolaria_os.SpawnGate.{
  SpawnGateInput, spawn_gate_verdict, gate_genius_threshold_q, gate_max_reverse_risk_q,
}

-- PROCEED < HOLD < BLOCK
abbrev pub strictness : HookwallVerdict → ℕ
strictness proceed = 0
strictness hold = 1
strictness block = 2

abbrev pub tag_strictness : SpawnGateInput → ℕ
tag_strictness input = if deny_check input.event_tags default_denies then 0 else 2

abbrev tier_rank : HookTier → ℕ
tier_rank micro = 0
tier_rank cosign = 1
tier_rank firmware = 2

abbrev pub hook_strictness : SpawnGateInput → ℕ
hook_strictness input = if ltb input.slot hookwall_slot_count then tier_rank input.tier else 2

abbrev pub score_strictness : SpawnGateInput → ℕ
score_strictness input =
    if leb gate_genius_threshold_q input.forward_score_q
      && leb input.reverse_risk_q gate_max_reverse_risk_q
    then 0
    else 1

-- The verdict is the strictest of what the tags, the hook and the scores call for.
spawn_gate_verdict_strictest :
    (input : SpawnGateInput)
    → strictness (spawn_gate_verdict input)
      ≡ max (tag_strictness input) (max (hook_strictness input) (score_strictness input))
unfolding spawn_gate_verdict hookwall_pre
spawn_gate_verdict_strictest input = ground arith
