-- ===== src/Agents/Registry.antt =====
-- kernel/core/src/agent_runtime/mod.rs: the agent registry and its dispatch counters. A method on
-- `&mut self` returns the registry after it; a counter is a u64 that wraps in the release profile.
use asolaria_os.Prelude.{
  ℕ, zero, suc, ◌+◌, ◌*◌, ◌/◌, ◌%◌, List, [], ◌∷◌, ◌++◌, Bytes, bytes, same, length, get_or,
  is_empty, leb, ◌==◌, not, ◌&&◌, Bool, true, false, if◌then◌else◌, Result, ok, err, u64, le_bytes,
  bit_xor,
}
use asolaria_os.Access.{
  AccessTier, public_tier, restricted, stealth, hidden, shadow, secret, sovereignty,
}
use asolaria_os.Agents.{
  agent_registry_max, AgentErr, registry_full, pid_mint_failed, not_found, invalid_state_transition,
}

pub data AgentState : Type 0 where
  spawned working heartbeating failed retired : AgentState

pub data AgentRole : Type 0 where
  hermes space_deck_driver space_agent pi : AgentRole
  omnispindle omniflywheel big_pickle sub_agent : AgentRole

pub data AgentClass : Type 0 where
  virtual_pointer real_receipt_gated ambiguous : AgentClass

unfoldable pub classify_request : ℕ → Bool → AgentClass
classify_request planned_os_spawns has_receipt =
    if planned_os_spawns == 0
    then virtual_pointer
    else if has_receipt
    then real_receipt_gated
    else ambiguous

pub data VantageId : Type 0 where
  acer liris falcon aether : VantageId

pub record AgentEntry : Type 0 where
  pub agent_pid : Bytes
  pub role : AgentRole
  pub state : AgentState
  pub vantage : VantageId
  pub tier : AccessTier
  pub class : AgentClass
  pub spawned_at_ns : ℕ
  pub last_heartbeat_ns : ℕ

pub record DispatchCounters : Type 0 where
  pub virtual_registered : ℕ
  pub omnidispatch_routed : ℕ
  pub receipt_gated_helper : ℕ
  pub opencode_free_agent_call : ℕ
  pub os_process_spawn : ℕ
  pub ambiguous_held : ℕ

pub record AgentRegistry : Type 0 where
  pub entries : List AgentEntry
  pub counters : DispatchCounters

abbrev pub registry_new : AgentRegistry
registry_new = record {
  entries = [];
  counters = record {
    virtual_registered = 0;
    omnidispatch_routed = 0;
    receipt_gated_helper = 0;
    opencode_free_agent_call = 0;
    os_process_spawn = 0;
    ambiguous_held = 0;
  };
}

unfoldable pub note_omnidispatch_routed : AgentRegistry → AgentRegistry
note_omnidispatch_routed r =
    let c = r.counters in
    record r { counters = record c { omnidispatch_routed = u64 (c.omnidispatch_routed + 1) } }

unfoldable pub note_opencode_free_agent_call : AgentRegistry → AgentRegistry
note_opencode_free_agent_call r =
    let c = r.counters in
    record r {
      counters = record c { opencode_free_agent_call = u64 (c.opencode_free_agent_call + 1) };
    }

unfoldable pub note_os_process_spawn : AgentRegistry → AgentRegistry
note_os_process_spawn r =
    let c = r.counters in
    record r { counters = record c { os_process_spawn = u64 (c.os_process_spawn + 1) } }

abbrev pub is_retired : AgentState → Bool
is_retired retired = true
is_retired spawned = false
is_retired working = false
is_retired heartbeating = false
is_retired failed = false

abbrev pub same_vantage : VantageId → VantageId → Bool
same_vantage acer acer = true
same_vantage liris liris = true
same_vantage falcon falcon = true
same_vantage aether aether = true
same_vantage _ _ = false

-- `filter(p).count()`.
unfoldable pub count_if : (AgentEntry → Bool) → List AgentEntry → ℕ
count_if p [] = 0
count_if p (e ∷ es) = if p e then suc (count_if p es) else count_if p es

abbrev pub is_live : AgentEntry → Bool
is_live e = not (is_retired e.state)

unfoldable pub count : AgentRegistry → ℕ
unfolding count_if
count r = count_if is_live r.entries

unfoldable pub count_in_vantage : AgentRegistry → VantageId → ℕ
unfolding count_if
count_in_vantage r v =
    count_if (λ e. same_vantage e.vantage v && not (is_retired e.state)) r.entries

-- The inner loop of `fnv1a64`.
unfoldable pub fnv_bytes : ℕ → Bytes → ℕ
fnv_bytes h [] = h
fnv_bytes h (b ∷ bs) = fnv_bytes (u64 (bit_xor h b * 1099511628211)) bs

unfoldable pub fnv_parts : ℕ → List ℕ → ℕ
unfolding fnv_bytes
fnv_parts h [] = h
fnv_parts h (p ∷ ps) = fnv_parts (fnv_bytes h (le_bytes 8 p)) ps

unfoldable pub fnv1a64 : List ℕ → ℕ
unfolding fnv_parts
fnv1a64 parts = fnv_parts 14695981039346656037 parts

unfoldable pub role_tag : AgentRole → Bytes
role_tag hermes = bytes "HRM"
role_tag space_deck_driver = bytes "SDD"
role_tag space_agent = bytes "SPA"
role_tag pi = bytes "PI"
role_tag omnispindle = bytes "SPN"
role_tag omniflywheel = bytes "FLY"
role_tag big_pickle = bytes "BPK"
role_tag sub_agent = bytes "SUB"

unfoldable pub vantage_tag : VantageId → Bytes
vantage_tag acer = bytes "ACER"
vantage_tag liris = bytes "LIRIS"
vantage_tag falcon = bytes "FALCON"
vantage_tag aether = bytes "AETHER"

-- `role as u64`, `vantage as u64` and `tier as u64`: the places in the enumerations.
abbrev pub role_code : AgentRole → ℕ
role_code hermes = 0
role_code space_deck_driver = 1
role_code space_agent = 2
role_code pi = 3
role_code omnispindle = 4
role_code omniflywheel = 5
role_code big_pickle = 6
role_code sub_agent = 7

abbrev pub vantage_code : VantageId → ℕ
vantage_code acer = 0
vantage_code liris = 1
vantage_code falcon = 2
vantage_code aether = 3

abbrev pub access_code : AccessTier → ℕ
access_code public_tier = 0
access_code restricted = 1
access_code stealth = 2
access_code hidden = 3
access_code shadow = 4
access_code secret = 5
access_code sovereignty = 6

-- `{:0nX}` of a number below 16 ^ n.
unfoldable pub upper_hex : ℕ → ℕ → Bytes
upper_hex zero x = []
upper_hex (suc n) x = upper_hex n (x / 16) ++ get_or (bytes "0123456789ABCDEF") (x % 16) 0 ∷ []

unfoldable pub mint_agent_pid : ℕ → AgentRole → VantageId → AccessTier → Bytes
unfolding fnv1a64 role_tag vantage_tag upper_hex
mint_agent_pid handle role vantage tier =
    let seed = fnv1a64 (handle ∷ role_code role ∷ vantage_code vantage ∷ access_code tier ∷ []) in
    bytes "AGT-"
    ++ (vantage_tag vantage
        ++ (bytes "-" ++ (role_tag role ++ (bytes "-H" ++ upper_hex 12 (seed % 281474976710656)))))

unfoldable pub bump : AgentClass → DispatchCounters → DispatchCounters
bump virtual_pointer c = record c { virtual_registered = u64 (c.virtual_registered + 1) }
bump real_receipt_gated c = record c { receipt_gated_helper = u64 (c.receipt_gated_helper + 1) }
bump ambiguous c = record c { ambiguous_held = u64 (c.ambiguous_held + 1) }

abbrev pub fresh_entry : Bytes → AgentRole → VantageId → AccessTier → AgentClass → AgentEntry
fresh_entry agent_pid role vantage tier class = record {
  agent_pid = agent_pid;
  role = role;
  state = spawned;
  vantage = vantage;
  tier = tier;
  class = class;
  spawned_at_ns = 0;
  last_heartbeat_ns = 0;
}

unfoldable pub register :
    AgentRole
    → VantageId
    → AccessTier
    → AgentClass
    → AgentRegistry
    → Result AgentErr Bytes × AgentRegistry
register role vantage tier class r =
    let agent_pid = mint_agent_pid (u64 (u64 (length r.entries) + 1)) role vantage tier in
    if leb agent_registry_max (count r)
    then (err registry_full, r)
    else if is_empty agent_pid
    then (err pid_mint_failed, r)
    else (
      ok agent_pid,
      record {
        entries = r.entries ++ fresh_entry agent_pid role vantage tier class ∷ [];
        counters = bump class r.counters;
      },
    )

unfoldable pub spawn :
    AgentRole → VantageId → AccessTier → AgentRegistry → Result AgentErr Bytes × AgentRegistry
unfolding register
spawn role vantage tier r = register role vantage tier virtual_pointer r

unfoldable pub spawn_real_gated :
    AgentRole
    → VantageId
    → AccessTier
    → Bool
    → AgentRegistry
    → Result AgentErr Bytes × AgentRegistry
unfolding classify_request register
spawn_real_gated role vantage tier has_receipt r =
    register role vantage tier (classify_request 1 has_receipt) r

-- The loop of `retire`: whether an entry has the pid, and the entries after.
unfoldable pub retire_first : Bytes → List AgentEntry → Bool × List AgentEntry
retire_first pid [] = (false, [])
retire_first pid (e ∷ es) =
    let (found, rest) = retire_first pid es in
    if same e.agent_pid pid then (true, record e { state = retired } ∷ es) else (found, e ∷ rest)

unfoldable pub retire : Bytes → AgentRegistry → Result AgentErr (Unit {0}) × AgentRegistry
unfolding retire_first
retire pid r =
    let (found, es) = retire_first pid r.entries in
    (if found then ok tt else err not_found, record r { entries = es })

-- The loop of `heartbeat`.
unfoldable pub stamp_first :
    Bytes → ℕ → List AgentEntry → Result AgentErr (Unit {0}) × List AgentEntry
stamp_first pid now_ns [] = (err not_found, [])
stamp_first pid now_ns (e ∷ es) =
    let (result, rest) = stamp_first pid now_ns es in
    if same e.agent_pid pid
    then if is_retired e.state
      then (err invalid_state_transition, e ∷ es)
      else (ok tt, record e { last_heartbeat_ns = now_ns } ∷ es)
    else (result, e ∷ rest)

unfoldable pub heartbeat : Bytes → ℕ → AgentRegistry → Result AgentErr (Unit {0}) × AgentRegistry
unfolding stamp_first
heartbeat pid now_ns r =
    let (result, es) = stamp_first pid now_ns r.entries in (result, record r { entries = es })

unfoldable pub big_pickle_action_requires_witness : AgentRole → Bool
big_pickle_action_requires_witness big_pickle = true
big_pickle_action_requires_witness _ = false
