-- ===== src/Hookwall.antt =====
-- kernel/core/src/hookwall/mod.rs: the hooks before and after a system call.
pub mod Row
use asolaria_os.Prelude.{
  ℕ, ◌≤◌, List, [], ◌∷◌, ◌++◌, Bytes, bytes, le_bytes, leb, if◌then◌else◌, Bool, Result, ok, err,
}
use asolaria_os.Access.{
  AccessTier, public_tier, restricted, stealth, hidden, shadow, secret, sovereignty,
  HookwallVerdict, proceed, hold, block, SyscallErr, invalid, cosign_reject,
}
use asolaria_os.Cosign.{append_row}

abbrev pub hookwall_slot_count : ℕ
hookwall_slot_count = 64

pub data HookTier : Type 0 where
  micro cosign firmware : HookTier

pub record HookContext : Type 0 where
  pub slot : ℕ
  pub syscall_no : ℕ
  pub caller_pid : ℕ
  pub tier : HookTier
  pub target_tier : AccessTier

tier_verdict : HookTier → HookwallVerdict
tier_verdict micro = proceed
tier_verdict cosign = hold
tier_verdict firmware = block

unfoldable pub hookwall_pre : HookContext → Result SyscallErr HookwallVerdict
unfolding tier_verdict
hookwall_pre ctx =
    if leb hookwall_slot_count ctx.slot then err invalid else ok (tier_verdict ctx.tier)

tier_code : HookTier → ℕ
tier_code micro = 1
tier_code cosign = 2
tier_code firmware = 3

verdict_code : HookwallVerdict → ℕ
verdict_code proceed = 1
verdict_code hold = 2
verdict_code block = 3

target_code : AccessTier → ℕ
target_code public_tier = 0
target_code restricted = 1
target_code stealth = 2
target_code hidden = 3
target_code shadow = 4
target_code secret = 5
target_code sovereignty = 6

-- Bytes 0 to 3, the caller's pid in bytes 4 to 11, the target's tier, and the magic `HVD`.
unfoldable pub compose_verdict_row : HookContext → HookwallVerdict → Bytes
unfolding tier_code verdict_code target_code
compose_verdict_row ctx verdict =
    ctx.slot
    ∷ ctx.syscall_no
    ∷ tier_code ctx.tier
    ∷ verdict_code verdict
    ∷ (le_bytes 8 ctx.caller_pid ++ (target_code ctx.target_tier ∷ bytes "HVD"))

reject : {E A : Type 0} → Result E A → Result SyscallErr (Unit {0})
reject (ok a) = ok tt
reject (err e) = err cosign_reject

-- `seq` is the counter of the cosign module's `append`, returned with its new value.
unfoldable pub hookwall_post : HookContext → HookwallVerdict → ℕ → Result SyscallErr (Unit {0}) × ℕ
unfolding compose_verdict_row reject
hookwall_post ctx verdict seq =
    if leb hookwall_slot_count ctx.slot
    then (err invalid, seq)
    else (let (r, seq') = append_row (compose_verdict_row ctx verdict) seq in (reject r, seq'))
