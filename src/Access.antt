-- ===== src/Access.antt =====
-- The shared vocabulary of kernel/core/src/syscall/mod.rs: access tiers, hookwall verdicts and
-- the error type that crosses the syscall boundary.
use asolaria_os.Prelude.{Bool, true, false}

-- Ascending sensitivity.
pub data AccessTier : Type 0 where
  public_tier restricted stealth hidden shadow secret sovereignty : AccessTier

pub data HookwallVerdict : Type 0 where
  proceed hold block : HookwallVerdict

pub data SyscallErr : Type 0 where
  unimplemented invalid would_block permission_denied : SyscallErr
  hookwall_block exhausted cosign_reject : SyscallErr

-- The derived `PartialEq` of the two enums.
unfoldable pub tier_eq : AccessTier → AccessTier → Bool
tier_eq public_tier public_tier = true
tier_eq restricted restricted = true
tier_eq stealth stealth = true
tier_eq hidden hidden = true
tier_eq shadow shadow = true
tier_eq secret secret = true
tier_eq sovereignty sovereignty = true
tier_eq _ _ = false

unfoldable pub verdict_eq : HookwallVerdict → HookwallVerdict → Bool
verdict_eq proceed proceed = true
verdict_eq hold hold = true
verdict_eq block block = true
verdict_eq _ _ = false
