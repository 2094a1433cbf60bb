-- ===== src/TierGate/Matrix.antt =====
-- What the decision matrix of kernel/core/src/tier_gate/mod.rs amounts to.
use asolaria_os.Prelude.{ℕ, ◌+◌, ◌≤◌, ◌≡◌, ◌⊎◌, ◌↔◌, true, arith}
use asolaria_os.Access.{AccessTier}
use asolaria_os.TierGate.{TierGateVerdict, allow, deny, escalate, tier_rank, check, tier_can_access}

-- A caller reaches the tiers up to its own, and the two lowest callers reach one tier higher.
tier_can_access_iff :
    (caller target : AccessTier)
    → (tier_can_access caller target ≡ true) ↔ (
        (tier_rank target ≤ tier_rank caller)
        ⊎ ((tier_rank caller ≤ 1) × (tier_rank target ≡ tier_rank caller + 1)))
unfolding tier_can_access tier_rank
tier_can_access_iff caller target = (ground arith, ground arith)

abbrev pub severity : TierGateVerdict → ℕ
severity allow = 0
severity escalate = 1
severity deny = 2

-- For one caller, a more sensitive target never gets a milder verdict.
check_mono :
    (caller low high : AccessTier)
    → tier_rank low ≤ tier_rank high
    → severity (check caller low) ≤ severity (check caller high)
unfolding check tier_rank
check_mono caller low high h = ground arith
