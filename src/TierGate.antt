-- ===== src/TierGate.antt =====
-- kernel/core/src/tier_gate/mod.rs: the caller-to-target decision matrix.
pub mod Matrix
use asolaria_os.Prelude.{ℕ, Bool, true, false, ◌&&◌, not, leb, if◌then◌else◌}
use asolaria_os.Access.{
  AccessTier, public_tier, restricted, stealth, hidden, shadow, secret, sovereignty, tier_eq,
}

pub data TierGateVerdict : Type 0 where
  allow deny escalate : TierGateVerdict

unfoldable pub tier_rank : AccessTier → ℕ
tier_rank public_tier = 0
tier_rank restricted = 1
tier_rank stealth = 2
tier_rank hidden = 3
tier_rank shadow = 4
tier_rank secret = 5
tier_rank sovereignty = 6

-- The `match` on the caller, below the universal rule.
by_caller : AccessTier → ℕ → ℕ → TierGateVerdict
unfolding tier_rank
by_caller sovereignty caller target = allow
by_caller public_tier caller target = if leb target (tier_rank restricted) then allow else deny
by_caller restricted caller target = if leb target (tier_rank stealth) then allow else escalate
by_caller stealth caller target = if leb target caller then allow else escalate
by_caller hidden caller target = if leb target caller then allow else escalate
by_caller shadow caller target = if leb target caller then allow else deny
by_caller secret caller target = if leb target caller then allow else deny

unfoldable pub check : AccessTier → AccessTier → TierGateVerdict
unfolding by_caller tier_rank tier_eq
check caller_tier target_tier =
    let caller = tier_rank caller_tier in
    let target = tier_rank target_tier in
    if tier_eq target_tier sovereignty && not (tier_eq caller_tier sovereignty)
    then deny
    else by_caller caller_tier caller target

is_allow : TierGateVerdict → Bool
is_allow allow = true
is_allow _ = false

unfoldable pub tier_can_access : AccessTier → AccessTier → Bool
unfolding check is_allow
tier_can_access caller_tier target_tier = is_allow (check caller_tier target_tier)
