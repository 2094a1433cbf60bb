-- ===== src/Agents/Counts.antt =====
-- The calls of the registry of agent_runtime/mod.rs, its invariant, and what retiring and heartbeats keep of it.
use asolaria_os.Prelude.{
  ℕ, suc, ◌+◌, ◌≤◌, ◌≡◌, refl, inl, inr, List, [], ◌∷◌, ◌++◌, Bytes, u64, length, same, Bool-cases,
  true, false, if◌then◌else◌, Bool, arith,
}
use asolaria_os.Access.{AccessTier}
use asolaria_os.Agents.{agent_registry_max}
use asolaria_os.Agents.Registry.{
  retired, AgentRole, AgentClass, virtual_pointer, real_receipt_gated, ambiguous, VantageId,
  AgentEntry, AgentRegistry, note_omnidispatch_routed, note_opencode_free_agent_call,
  note_os_process_spawn, is_live, is_retired, count_if, count, mint_agent_pid, spawn,
  spawn_real_gated, retire_first, retire, stamp_first, heartbeat,
}

-- A call of the registry.
pub data Call : Type 0 where
  spawn_call : AgentRole → VantageId → AccessTier → Call
  real_call : AgentRole → VantageId → AccessTier → Bool → Call
  retire_call : Bytes → Call
  heartbeat_call : Bytes → ℕ → Call
  routed_call opencode_call launch_call : Call

unfoldable pub apply : Call → AgentRegistry → AgentRegistry
unfolding spawn spawn_real_gated retire heartbeat note_omnidispatch_routed
    note_opencode_free_agent_call note_os_process_spawn
apply (spawn_call role vantage tier) r = (spawn role vantage tier r).1
apply (real_call role vantage tier has_receipt) r =
    (spawn_real_gated role vantage tier has_receipt r).1
apply (retire_call pid) r = (retire pid r).1
apply (heartbeat_call pid now_ns) r = (heartbeat pid now_ns r).1
apply routed_call r = note_omnidispatch_routed r
apply opencode_call r = note_opencode_free_agent_call r
apply launch_call r = note_os_process_spawn r

unfoldable pub run : List Call → AgentRegistry → AgentRegistry
unfolding apply
run [] r = r
run (c ∷ calls) r = run calls (apply c r)

abbrev pub same_class : AgentClass → AgentClass → Bool
same_class virtual_pointer virtual_pointer = true
same_class real_receipt_gated real_receipt_gated = true
same_class ambiguous ambiguous = true
same_class _ _ = false

-- The entries of a class.
abbrev pub has_class : AgentClass → AgentEntry → Bool
has_class class e = same_class class e.class

-- The entries carry the identifiers of the handles `n + 1`, `n + 2`, ...
abbrev pub IsMinted : ℕ → List AgentEntry → Type 0
IsMinted n [] = Unit
IsMinted n (e ∷ es) =
    (e.agent_pid ≡ mint_agent_pid (u64 (u64 n + 1)) e.role e.vantage e.tier) × IsMinted (suc n) es

-- The bound, the counters of the three lanes and the identifiers.
pub record IsRegistry (r : AgentRegistry) : Type 0 where
  pub bounded : count r ≤ agent_registry_max
  pub virtual_count :
      r.counters.virtual_registered ≡ u64 (count_if (has_class virtual_pointer) r.entries)
  pub gated_count :
      r.counters.receipt_gated_helper ≡ u64 (count_if (has_class real_receipt_gated) r.entries)
  pub held_count : r.counters.ambiguous_held ≡ u64 (count_if (has_class ambiguous) r.entries)
  pub minted : IsMinted 0 r.entries

pub count_if-append :
    (p : AgentEntry → Bool) (es : List AgentEntry) (e : AgentEntry)
    → count_if p (es ++ e ∷ []) ≡ count_if p es + (if p e then 1 else 0)
unfolding count_if
count_if-append p [] e = ground arith
count_if-append p (d ∷ es) e = elim (Bool-cases (p d)) [
  | inl yes_ ↦ rw yes_ (omega (arith, count_if-append p es e))
  | inr no_ ↦ rw no_ (count_if-append p es e)
]

u64_suc : (n : ℕ) → u64 (u64 n + 1) ≡ u64 (n + 1)
u64_suc n = omega arith

pub IsMinted-append :
    (n : ℕ) (es : List AgentEntry) (e : AgentEntry)
    → IsMinted n es
    → e.agent_pid ≡ mint_agent_pid (u64 (u64 (n + length es) + 1)) e.role e.vantage e.tier
    → IsMinted n (es ++ e ∷ [])
IsMinted-append n [] e h k = (let z : n + 0 ≡ n = omega arith in rw z at k, tt)
IsMinted-append n (d ∷ es) e (q, h) k = (
  q,
  IsMinted-append (suc n) es e h
      (let z : n + suc (length es) ≡ suc n + length es = omega arith in rw z at k),
)

-- A change of the entries that keeps what the laws look at.
module _ (p : AgentEntry → Bool) (pid : Bytes) where
  pub count_if-retire_first :
      ((e : AgentEntry) → p (record e { state = retired }) ≡ p e)
      → (es : List AgentEntry) → count_if p (retire_first pid es).1 ≡ count_if p es
  unfolding count_if retire_first
  count_if-retire_first h [] = refl
  count_if-retire_first h (e ∷ es) = elim (Bool-cases (same e.agent_pid pid)) [
    | inl here ↦ rw (here, h e) refl
    | inr next ↦ rw (next, count_if-retire_first h es) refl
  ]

  pub count_if-stamp_first :
      (now_ns : ℕ)
      → ((e : AgentEntry) → p (record e { last_heartbeat_ns = now_ns }) ≡ p e)
      → (es : List AgentEntry) → count_if p (stamp_first pid now_ns es).1 ≡ count_if p es
  unfolding count_if stamp_first
  count_if-stamp_first now_ns h [] = refl
  count_if-stamp_first now_ns h (e ∷ es) = elim (Bool-cases (same e.agent_pid pid)) [
    | inl here ↦ elim (Bool-cases (is_retired e.state)) [
      | inl dead ↦ rw (here, dead) refl
      | inr alive ↦ rw (here, alive, h e) refl
    ]
    | inr next ↦ rw (next, count_if-stamp_first now_ns h es) refl
  ]

pub live-retire_first :
    (pid : Bytes) (es : List AgentEntry)
    → count_if is_live (retire_first pid es).1 ≤ count_if is_live es
unfolding count_if retire_first
live-retire_first pid [] = omega arith
live-retire_first pid (e ∷ es) = elim (Bool-cases (same e.agent_pid pid)) [
  | inl here ↦ rw here (ground arith)
  | inr next ↦ elim (Bool-cases (is_live e)) [
    | inl yes_ ↦ rw (next, yes_) (omega (arith, live-retire_first pid es))
    | inr no_ ↦ rw (next, no_) (live-retire_first pid es)
  ]
]

pub IsMinted-retire_first :
    (pid : Bytes) (n : ℕ) (es : List AgentEntry)
    → IsMinted n es
    → IsMinted n (retire_first pid es).1
unfolding retire_first
IsMinted-retire_first pid n [] h = tt
IsMinted-retire_first pid n (e ∷ es) (q, h) = elim (Bool-cases (same e.agent_pid pid)) [
  | inl here ↦ rw here (q, h)
  | inr next ↦ rw next (q, IsMinted-retire_first pid (suc n) es h)
]

pub IsMinted-stamp_first :
    (pid : Bytes) (now_ns n : ℕ) (es : List AgentEntry)
    → IsMinted n es
    → IsMinted n (stamp_first pid now_ns es).1
unfolding stamp_first
IsMinted-stamp_first pid now_ns n [] h = tt
IsMinted-stamp_first pid now_ns n (e ∷ es) (q, h) = elim (Bool-cases (same e.agent_pid pid)) [
  | inl here ↦ elim (Bool-cases (is_retired e.state)) [
    | inl dead ↦ rw (here, dead) (q, h)
    | inr alive ↦ rw (here, alive) (q, h)
  ]
  | inr next ↦ rw next (q, IsMinted-stamp_first pid now_ns (suc n) es h)
]
