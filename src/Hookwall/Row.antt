-- ===== src/Hookwall/Row.antt =====
-- The verdict row of hookwall/mod.rs is a faithful record of a hook call.
use asolaria_os.Prelude.{
  ◌<◌, ◌≡◌, sym, ap, ◌∙◌, ◌∷◌, arith, length, length-append, drop, bytes, le_bytes, length-le_bytes,
  le_bytes-injective, append-injective, u64_mod,
}
use asolaria_os.Access.{HookwallVerdict, AccessTier}
use asolaria_os.Hookwall.{
  HookTier, HookContext, tier_code, verdict_code, target_code, compose_verdict_row,
}

tier_code-injective : (a b : HookTier) → tier_code a ≡ tier_code b → a ≡ b
unfolding tier_code
tier_code-injective a b e = ground arith

verdict_code-injective : (a b : HookwallVerdict) → verdict_code a ≡ verdict_code b → a ≡ b
unfolding verdict_code
verdict_code-injective a b e = ground arith

target_code-injective : (a b : AccessTier) → target_code a ≡ target_code b → a ≡ b
unfolding target_code
target_code-injective a b e = ground arith

-- A row has the sixteen bytes that `sys_cosign_append` asks for.
length-compose_verdict_row :
    (ctx : HookContext) (verdict : HookwallVerdict) → length (compose_verdict_row ctx verdict) ≡ 16
unfolding compose_verdict_row
length-compose_verdict_row ctx verdict = omega (
  arith,
  length-append (le_bytes 8 ctx.caller_pid) (target_code ctx.target_tier ∷ bytes "HVD"),
  length-le_bytes 8 ctx.caller_pid,
)

-- Two calls that leave the same row had the same context and the same verdict, the caller's pid
-- being a u64.
compose_verdict_row-injective :
    (a b : HookContext) (v w : HookwallVerdict)
    → a.caller_pid < u64_mod
    → b.caller_pid < u64_mod
    → compose_verdict_row a v ≡ compose_verdict_row b w
    → (a ≡ b) × (v ≡ w)
unfolding compose_verdict_row
compose_verdict_row-injective a b v w ha hb e =
    let (pids, rest) =
      append-injective (le_bytes 8 a.caller_pid) _ (le_bytes 8 b.caller_pid) _
        (length-le_bytes 8 a.caller_pid ∙ sym (length-le_bytes 8 b.caller_pid)) (ap (drop 4) e) in
    let pid = le_bytes-injective 8 a.caller_pid b.caller_pid (omega arith) (omega arith) pids in
    let slots : a.slot ≡ b.slot = cc (e) in
    let numbers : a.syscall_no ≡ b.syscall_no = cc (e) in
    let tiers = tier_code-injective a.tier b.tier (cc (e)) in
    let targets = target_code-injective a.target_tier b.target_tier (cc (rest)) in
    (ground arith, verdict_code-injective v w (cc (e)))
