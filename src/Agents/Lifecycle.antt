-- ===== src/Agents/Lifecycle.antt =====
-- The life of one agent in the registry of agent_runtime/mod.rs.
use asolaria_os.Prelude.{
  ℕ, suc, ◌+◌, ◌≤◌, ◌≡◌, refl, ap, ◌∙◌, sym, inl, inr, List, [], ◌∷◌, ◌++◌, map, Bytes, u64, length,
  same, Bool-cases, true, false, leb, Result, ok, err, arith,
}
use mathlib.Core.List.{append_assoc}
use asolaria_os.Access.{AccessTier}
use asolaria_os.Agents.{agent_registry_max, AgentErr, invalid_state_transition}
use asolaria_os.Agents.Registry.{
  AgentRole, AgentClass, virtual_pointer, real_receipt_gated, ambiguous, VantageId, AgentEntry,
  DispatchCounters, AgentRegistry, registry_new, note_omnidispatch_routed,
  note_opencode_free_agent_call, note_os_process_spawn, is_live, is_retired, count_if, count,
  mint_agent_pid, bump, fresh_entry, register, spawn, spawn_real_gated, classify_request,
  retire_first, retire, stamp_first, heartbeat,
}
use asolaria_os.Agents.Counts.{
  Call, spawn_call, real_call, retire_call, heartbeat_call, routed_call, opencode_call, launch_call,
  apply, run,
}
use asolaria_os.Agents.Bounded.{mint_nonempty}

-- What of an entry no call changes.
abbrev pub identity : AgentEntry → Bytes × AgentRole × VantageId × AccessTier × AgentClass
identity e = (e.agent_pid, e.role, e.vantage, e.tier, e.class)

stamp-retire_first :
    (pid : Bytes) (now_ns : ℕ) (es : List AgentEntry)
    → (retire_first pid es).0 ≡ true
    → stamp_first pid now_ns (retire_first pid es).1
      ≡ (err invalid_state_transition, (retire_first pid es).1)
unfolding retire_first stamp_first
stamp-retire_first pid now_ns [] h = cc
stamp-retire_first pid now_ns (e ∷ es) h = elim (Bool-cases (same e.agent_pid pid)) [
  | inl here ↦ rw (here, here) refl
  | inr next ↦ rw (next, next, stamp-retire_first pid now_ns es (rw next at h)) refl
]

-- An agent that was retired does not come back: its heartbeat is refused and changes nothing.
pub heartbeat-retire :
    (pid : Bytes) (now_ns : ℕ) (r : AgentRegistry)
    → (retire pid r).0 ≡ ok tt
    → heartbeat pid now_ns (retire pid r).1 ≡ (err invalid_state_transition, (retire pid r).1)
unfolding retire heartbeat
heartbeat-retire pid now_ns r h = elim (Bool-cases (retire_first pid r.entries).0) [
  | inl found ↦
      ap (λ (p : Result AgentErr (Unit {0}) × List AgentEntry). (p.0, record r { entries = p.1 }))
        (stamp-retire_first pid now_ns r.entries found)
  | inr missing ↦ cc (rw missing at h)
]

live-retired :
    (pid : Bytes) (now_ns : ℕ) (es : List AgentEntry)
    → (stamp_first pid now_ns es).0 ≡ ok tt
    → suc (count_if is_live (retire_first pid es).1) ≡ count_if is_live es
unfolding retire_first stamp_first count_if
live-retired pid now_ns [] h = cc
live-retired pid now_ns (e ∷ es) h = elim (Bool-cases (same e.agent_pid pid)) [
  | inl here ↦ elim (Bool-cases (is_retired e.state)) [
    | inl dead ↦ cc (rw (here, dead) at h)
    | inr alive ↦ rw (here, alive) refl
  ]
  | inr next ↦
      let ih = live-retired pid now_ns es (rw next at h) in
      elim (Bool-cases (is_retired e.state)) [
        | inl dead ↦ rw (next, dead) ih
        | inr alive ↦ rw (next, alive) (ap suc ih)
      ]
]

-- Retiring an agent that could send a heartbeat makes room for exactly one: the live count is one
-- less, and with at most 10,000 live before, the next registration succeeds.
pub register-retire :
    (pid : Bytes) (now_ns : ℕ) (r : AgentRegistry) (role : AgentRole) (vantage : VantageId)
    (tier : AccessTier) (class : AgentClass)
    → count r ≤ agent_registry_max
    → (heartbeat pid now_ns r).0 ≡ ok tt
    → (suc (count (retire pid r).1) ≡ count r)
      × ((q : Bytes) × ((register role vantage tier class (retire pid r).1).0 ≡ ok q))
unfolding retire heartbeat count register
register-retire pid now_ns r role vantage tier class bound h =
    let one = live-retired pid now_ns r.entries h in
    let room : leb agent_registry_max (count_if is_live (retire_first pid r.entries).1) ≡ false =
      ground (arith, one, bound) in
    (
      one,
      (
        mint_agent_pid (u64 (u64 (length (retire_first pid r.entries).1) + 1)) role vantage tier,
        rw
            (
              room,
              mint_nonempty (u64 (u64 (length (retire_first pid r.entries).1) + 1)) role vantage
                  tier,
            )
            refl,
      ),
    )

identity-retire_first :
    (pid : Bytes) (es : List AgentEntry) → map identity (retire_first pid es).1 ≡ map identity es
unfolding retire_first
identity-retire_first pid [] = refl
identity-retire_first pid (e ∷ es) = elim (Bool-cases (same e.agent_pid pid)) [
  | inl here ↦ rw here refl
  | inr next ↦ rw next (ap (◌∷◌ (identity e)) (identity-retire_first pid es))
]

identity-stamp_first :
    (pid : Bytes) (now_ns : ℕ) (es : List AgentEntry)
    → map identity (stamp_first pid now_ns es).1 ≡ map identity es
unfolding stamp_first
identity-stamp_first pid now_ns [] = refl
identity-stamp_first pid now_ns (e ∷ es) = elim (Bool-cases (same e.agent_pid pid)) [
  | inl here ↦ elim (Bool-cases (is_retired e.state)) [
    | inl dead ↦ rw (here, dead) refl
    | inr alive ↦ rw (here, alive) refl
  ]
  | inr next ↦ rw next (ap (◌∷◌ (identity e)) (identity-stamp_first pid now_ns es))
]

abbrev pub Identity : Type 0
Identity = Bytes × AgentRole × VantageId × AccessTier × AgentClass

-- The second list continues the first.
abbrev pub Extends : List Identity → List Identity → Type 0
Extends before after = (more : List Identity) × (after ≡ before ++ more)

append_nil : (xs : List Identity) → xs ++ [] ≡ xs
append_nil [] = refl
append_nil (x ∷ xs) = ap (◌∷◌ x) (append_nil xs)

Extends-self : (xs ys : List Identity) → ys ≡ xs → Extends xs ys
Extends-self xs ys e = ([], e ∙ sym (append_nil xs))

Extends-trans : (xs ys zs : List Identity) → Extends xs ys → Extends ys zs → Extends xs zs
Extends-trans xs ys zs (a, e) (b, f) = (a ++ b, f ∙ rw e (append_assoc xs a b))

map-identity_append :
    (es : List AgentEntry) (e : AgentEntry)
    → map identity (es ++ e ∷ []) ≡ map identity es ++ identity e ∷ []
map-identity_append [] e = refl
map-identity_append (d ∷ es) e = ap (◌∷◌ (identity d)) (map-identity_append es e)

register-Extends :
    (role : AgentRole) (vantage : VantageId) (tier : AccessTier) (class : AgentClass)
    (r : AgentRegistry)
    → Extends (map identity r.entries) (map identity (register role vantage tier class r).1.entries)
unfolding register
register-Extends role vantage tier class r = elim (Bool-cases (leb agent_registry_max (count r))) [
  | inl full ↦ rw full (Extends-self _ _ refl)
  | inr room ↦
      let pid = mint_agent_pid (u64 (u64 (length r.entries) + 1)) role vantage tier in
      rw (room, mint_nonempty (u64 (u64 (length r.entries) + 1)) role vantage tier)
        (
          identity (fresh_entry pid role vantage tier class) ∷ [],
          map-identity_append r.entries (fresh_entry pid role vantage tier class),
        )
]

apply-Extends :
    (c : Call) (r : AgentRegistry)
    → Extends (map identity r.entries) (map identity (apply c r).entries)
unfolding apply spawn spawn_real_gated retire heartbeat note_omnidispatch_routed
    note_opencode_free_agent_call note_os_process_spawn
apply-Extends (spawn_call role vantage tier) r =
    register-Extends role vantage tier virtual_pointer r
apply-Extends (real_call role vantage tier has_receipt) r =
    register-Extends role vantage tier (classify_request 1 has_receipt) r
apply-Extends (retire_call pid) r = Extends-self _ _ (identity-retire_first pid r.entries)
apply-Extends (heartbeat_call pid now_ns) r =
    Extends-self _ _ (identity-stamp_first pid now_ns r.entries)
apply-Extends routed_call r = Extends-self _ _ refl
apply-Extends opencode_call r = Extends-self _ _ refl
apply-Extends launch_call r = Extends-self _ _ refl

-- No call removes, reorders or renames an entry: after any calls the entries, up to their states and
-- time stamps, are those from before and possibly more after them.
pub run-Extends :
    (calls : List Call) (r : AgentRegistry)
    → Extends (map identity r.entries) (map identity (run calls r).entries)
unfolding run
run-Extends [] r = Extends-self _ _ refl
run-Extends (c ∷ calls) r = Extends-trans _ _ _ (apply-Extends c r) (run-Extends calls (apply c r))

-- The launches among the calls.
abbrev pub launches : List Call → ℕ
launches [] = 0
launches (launch_call ∷ calls) = suc (launches calls)
launches (_ ∷ calls) = launches calls

bump-launch :
    (class : AgentClass) (c : DispatchCounters)
    → (bump class c).os_process_spawn ≡ c.os_process_spawn
unfolding bump
bump-launch virtual_pointer c = refl
bump-launch real_receipt_gated c = refl
bump-launch ambiguous c = refl

register-launch :
    (role : AgentRole) (vantage : VantageId) (tier : AccessTier) (class : AgentClass)
    (r : AgentRegistry)
    → (register role vantage tier class r).1.counters.os_process_spawn ≡ r.counters.os_process_spawn
unfolding register bump
register-launch role vantage tier class r = elim (Bool-cases (leb agent_registry_max (count r))) [
  | inl full ↦ rw full refl
  | inr room ↦
      rw (room, mint_nonempty (u64 (u64 (length r.entries) + 1)) role vantage tier)
        (bump-launch class r.counters)
]

run-launch :
    (calls : List Call) (r : AgentRegistry) (n : ℕ)
    → r.counters.os_process_spawn ≡ u64 n
    → (run calls r).counters.os_process_spawn ≡ u64 (n + launches calls)
unfolding run apply spawn spawn_real_gated retire heartbeat note_omnidispatch_routed
    note_opencode_free_agent_call note_os_process_spawn
run-launch [] r n h = let z : n + 0 ≡ n = omega arith in rw z h
run-launch (spawn_call role vantage tier ∷ calls) r n h =
    run-launch calls _ n (register-launch role vantage tier virtual_pointer r ∙ h)
run-launch (real_call role vantage tier has_receipt ∷ calls) r n h =
    run-launch calls _ n (register-launch role vantage tier (classify_request 1 has_receipt) r ∙ h)
run-launch (retire_call pid ∷ calls) r n h = run-launch calls _ n h
run-launch (heartbeat_call pid now_ns ∷ calls) r n h = run-launch calls _ n h
run-launch (routed_call ∷ calls) r n h = run-launch calls _ n h
run-launch (opencode_call ∷ calls) r n h = run-launch calls _ n h
run-launch (launch_call ∷ calls) r n h =
    let z : n + suc (launches calls) ≡ n + 1 + launches calls = omega arith in
    rw z (run-launch calls (note_os_process_spawn r) (n + 1) (omega arith))

-- Registration never counts as a launch: after any calls of a new registry the counter of launched
-- processes is the number of launches noted, modulo 2^64.
launches_counted :
    (calls : List Call) → (run calls registry_new).counters.os_process_spawn ≡ u64 (launches calls)
launches_counted calls = run-launch calls registry_new 0 refl ∙ ap u64 (omega arith)
