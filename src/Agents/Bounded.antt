-- ===== src/Agents/Bounded.antt =====
-- What the registry of agent_runtime/mod.rs counts, after any calls.
use asolaria_os.Prelude.{
  ℕ, ◌+◌, ◌≡◌, refl, ap, ◌∙◌, sym, inl, inr, List, [], ◌∷◌, ◌++◌, Bytes, u64, is_empty, length,
  Bool-cases, false, leb, if◌then◌else◌, Bool, arith,
}
use asolaria_os.Access.{AccessTier}
use asolaria_os.Agents.{agent_registry_max}
use asolaria_os.Agents.Registry.{
  AgentRole, AgentClass, virtual_pointer, real_receipt_gated, ambiguous, VantageId, AgentEntry,
  DispatchCounters, AgentRegistry, registry_new, note_omnidispatch_routed,
  note_opencode_free_agent_call, note_os_process_spawn, is_live, count_if, count, mint_agent_pid,
  bump, fresh_entry, register, spawn, spawn_real_gated, classify_request, retire, heartbeat,
}
use asolaria_os.Agents.Counts.{
  Call, apply, run, same_class, has_class, IsRegistry, count_if-append, IsMinted-append,
  live-retire_first, IsMinted-retire_first, IsMinted-stamp_first, spawn_call, real_call,
  retire_call, heartbeat_call, routed_call, opencode_call, launch_call, count_if-retire_first,
  count_if-stamp_first,
}

retire-IsRegistry : (pid : Bytes) (r : AgentRegistry) → IsRegistry r → IsRegistry (retire pid r).1
unfolding retire count
retire-IsRegistry pid r v = record {
  bounded = omega (arith, v.bounded, live-retire_first pid r.entries);
  virtual_count =
      v.virtual_count
      ∙ ap u64 (sym (count_if-retire_first (has_class virtual_pointer) pid (λ e. refl) r.entries));
  gated_count =
      v.gated_count
      ∙ ap u64
          (sym (count_if-retire_first (has_class real_receipt_gated) pid (λ e. refl) r.entries));
  held_count =
      v.held_count
      ∙ ap u64 (sym (count_if-retire_first (has_class ambiguous) pid (λ e. refl) r.entries));
  minted = IsMinted-retire_first pid 0 r.entries v.minted;
}

heartbeat-IsRegistry :
    (pid : Bytes) (now_ns : ℕ) (r : AgentRegistry)
    → IsRegistry r
    → IsRegistry (heartbeat pid now_ns r).1
unfolding heartbeat count
heartbeat-IsRegistry pid now_ns r v = record {
  bounded = omega (arith, v.bounded, count_if-stamp_first is_live pid now_ns (λ e. refl) r.entries);
  virtual_count =
      v.virtual_count
      ∙ ap u64
          (sym (count_if-stamp_first (has_class virtual_pointer) pid now_ns (λ e. refl) r.entries));
  gated_count =
      v.gated_count
      ∙ ap u64 (
          sym
            (count_if-stamp_first (has_class real_receipt_gated) pid now_ns (λ e. refl) r.entries));
  held_count =
      v.held_count
      ∙ ap u64 (sym (count_if-stamp_first (has_class ambiguous) pid now_ns (λ e. refl) r.entries));
  minted = IsMinted-stamp_first pid now_ns 0 r.entries v.minted;
}

abbrev of_class : AgentClass → AgentClass → ℕ
of_class wanted class = if same_class wanted class then 1 else 0

bump-counts :
    (class : AgentClass) (c : DispatchCounters) (v g h : ℕ)
    → c.virtual_registered ≡ u64 v
    → c.receipt_gated_helper ≡ u64 g
    → c.ambiguous_held ≡ u64 h
    → ((bump class c).virtual_registered ≡ u64 (v + of_class virtual_pointer class))
      × ((bump class c).receipt_gated_helper ≡ u64 (g + of_class real_receipt_gated class))
      × ((bump class c).ambiguous_held ≡ u64 (h + of_class ambiguous class))
unfolding bump
bump-counts virtual_pointer c v g h ev eg eh = (omega arith, omega arith, omega arith)
bump-counts real_receipt_gated c v g h ev eg eh = (omega arith, omega arith, omega arith)
bump-counts ambiguous c v g h ev eg eh = (omega arith, omega arith, omega arith)

pub mint_nonempty :
    (handle : ℕ) (role : AgentRole) (vantage : VantageId) (tier : AccessTier)
    → is_empty (mint_agent_pid handle role vantage tier) ≡ false
unfolding mint_agent_pid
mint_nonempty handle role vantage tier = refl

added :
    (p : AgentEntry → Bool) (es : List AgentEntry) (e : AgentEntry)
    → u64 (count_if p es + (if p e then 1 else 0)) ≡ u64 (count_if p (es ++ e ∷ []))
added p es e = ap u64 (sym (count_if-append p es e))

-- An entry added under the bound.
added-IsRegistry :
    (role : AgentRole) (vantage : VantageId) (tier : AccessTier) (class : AgentClass)
    (r : AgentRegistry)
    → IsRegistry r
    → leb agent_registry_max (count r) ≡ false
    → IsRegistry (record {
      entries =
          r.entries
          ++ fresh_entry
              (mint_agent_pid (u64 (u64 (length r.entries) + 1)) role vantage tier)
              role
              vantage
              tier
              class
            ∷ [];
      counters = bump class r.counters;
    })
unfolding count
added-IsRegistry role vantage tier class r v room =
    let e =
      fresh_entry (mint_agent_pid (u64 (u64 (length r.entries) + 1)) role vantage tier) role vantage
        tier class in
    let (a, b, c) = bump-counts class r.counters _ _ _ v.virtual_count v.gated_count v.held_count in
    record {
      bounded = ground (arith, room, count_if-append is_live r.entries e);
      virtual_count = a ∙ added (has_class virtual_pointer) r.entries e;
      gated_count = b ∙ added (has_class real_receipt_gated) r.entries e;
      held_count = c ∙ added (has_class ambiguous) r.entries e;
      minted =
          IsMinted-append 0 r.entries e v.minted
            (let q : 0 + length r.entries ≡ length r.entries = omega arith in rw q refl);
    }

register-IsRegistry :
    (role : AgentRole) (vantage : VantageId) (tier : AccessTier) (class : AgentClass)
    (r : AgentRegistry)
    → IsRegistry r
    → IsRegistry (register role vantage tier class r).1
unfolding register
register-IsRegistry role vantage tier class r v =
    elim (Bool-cases (leb agent_registry_max (count r))) [
      | inl full ↦ rw full v
      | inr room ↦
          rw (room, mint_nonempty (u64 (u64 (length r.entries) + 1)) role vantage tier)
            (added-IsRegistry role vantage tier class r v room)
    ]

new-IsRegistry : IsRegistry registry_new
unfolding count count_if
new-IsRegistry = record {
  bounded = omega arith;
  virtual_count = refl;
  gated_count = refl;
  held_count = refl;
  minted = tt;
}

apply-IsRegistry : (c : Call) (r : AgentRegistry) → IsRegistry r → IsRegistry (apply c r)
unfolding apply spawn spawn_real_gated note_omnidispatch_routed note_opencode_free_agent_call
    note_os_process_spawn count
apply-IsRegistry (spawn_call role vantage tier) r v =
    register-IsRegistry role vantage tier virtual_pointer r v
apply-IsRegistry (real_call role vantage tier has_receipt) r v =
    register-IsRegistry role vantage tier (classify_request 1 has_receipt) r v
apply-IsRegistry (retire_call pid) r v = retire-IsRegistry pid r v
apply-IsRegistry (heartbeat_call pid now_ns) r v = heartbeat-IsRegistry pid now_ns r v
apply-IsRegistry routed_call r v = record {
  bounded = v.bounded;
  virtual_count = v.virtual_count;
  gated_count = v.gated_count;
  held_count = v.held_count;
  minted = v.minted;
}
apply-IsRegistry opencode_call r v = record {
  bounded = v.bounded;
  virtual_count = v.virtual_count;
  gated_count = v.gated_count;
  held_count = v.held_count;
  minted = v.minted;
}
apply-IsRegistry launch_call r v = record {
  bounded = v.bounded;
  virtual_count = v.virtual_count;
  gated_count = v.gated_count;
  held_count = v.held_count;
  minted = v.minted;
}

run-IsRegistry : (calls : List Call) (r : AgentRegistry) → IsRegistry r → IsRegistry (run calls r)
unfolding run
run-IsRegistry [] r v = v
run-IsRegistry (c ∷ calls) r v = run-IsRegistry calls (apply c r) (apply-IsRegistry c r v)

-- After any calls of a new registry at most 10,000 agents are live, the three counters of the
-- registrations are the numbers of entries of their class modulo 2^64, and the entries carry the
-- identifiers minted for the handles 1, 2, ... in order.
pub run-new-IsRegistry : (calls : List Call) → IsRegistry (run calls registry_new)
run-new-IsRegistry calls = run-IsRegistry calls registry_new new-IsRegistry
