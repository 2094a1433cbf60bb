-- ===== src/Agents.antt =====
-- kernel/core/src/agent_runtime/mod.rs: the counter of child handles behind `sys_fork`. The
-- atomic `SPAWN_CHILD_COUNTER` is the argument `counter`.
pub mod Registry
pub mod Counts
pub mod Bounded
pub mod Lifecycle
pub mod Race
use asolaria_os.Prelude.{ℕ, ◌+◌, leb, u64, if◌then◌else◌, Result, ok, err}

abbrev pub agent_registry_max : ℕ
agent_registry_max = 10_000

pub data AgentErr : Type 0 where
  registry_full pid_mint_failed not_found invalid_state_transition : AgentErr
  operator_witness_required unimplemented : AgentErr

unfoldable pub spawn_child_agent : ℕ → Result AgentErr ℕ × ℕ
spawn_child_agent counter =
    if leb agent_registry_max counter
    then (err registry_full, agent_registry_max)
    else (ok (counter + 1), u64 (counter + 1))
