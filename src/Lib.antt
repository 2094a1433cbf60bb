-- ===== src/Lib.antt =====
-- Asolaria OS: a model of the kernel's core and the theorems about it.
--
-- The kernel core (kernel/core/src) is a no_std library. A caller enters by the system calls of
-- syscall/mod.rs. They reach the envelope queue (one slot, guarded by an atomic state), the page
-- allocator (one atomic watermark), the descriptor table, the hooks before and after a call, the
-- counter of the cosign chain and the counter of child handles. Beside them stand the reflection
-- room (prepared and committed events, sealed in windows of 2000), the linked cosign chain, the
-- gates in front of a spawn or an envelope, the peer state machine of the orchestrator, the agent
-- registry, the identifiers of processes, the contract of an application envelope, the levels of rows,
-- the moves between tiers and the lines printed at boot.
--
-- Files, and the sources that they model, below kernel/core/src where no longer path is given:
--   Access          the vocabulary of syscall/mod.rs: tiers, verdicts, errors
--   TierGate        tier_gate/mod.rs: check, tier_can_access
--   Cosign          cosign_chain/mod.rs: CosignChain::new, append, validate_end_to_end, append
--   FrameAlloc      frame_alloc/mod.rs: alloc_pages, free_pages; Race takes the loop step by step
--   Envelope        envelope/mod.rs: dispatch_enqueue_bytes, dispatch_dequeue_bytes; Race takes every
--                   atomic access of both as a step of an interleaving
--   Vfs             vfs/mod.rs: vfs_open, vfs_close, vfs_read, vfs_write
--   Crypto          crypto/mod.rs: canonical_envelope_bytes, sign, verify, ct_eq
--   Hookwall        hookwall/mod.rs: hookwall_pre, hookwall_post, compose_verdict_row
--   SignGate        sign_gate/mod.rs: deny_check, gate_envelope
--   SpawnGate       spawn_gate/mod.rs: spawn_gate_verdict, seal_row
--   Room            reflection_room/mod.rs: the data; Room/Writer its writer, Room/Novelty its gate
--   Tier            tier/mod.rs: classify_path
--   Agents          agent_runtime/mod.rs: spawn_child_agent; Registry the agent registry, Race the
--                   counter of child handles access by access
--   Syscall         syscall/mod.rs: the calls; Syscall/Dispatch serves them one after the other
--   Cycle           cycle_orch/mod.rs: PeerStateMachine, is_op_halt_verb
--   LinkAuth        link_auth/mod.rs: verify_link, hmac_sha256_parts, effective_level
--   Pid             pid/mod.rs: parse_pid, mint_pid, mint_pid_extended, mint_anchor_pid, validate_pid
--   Fedenv          envelope/fedenv.rs: validate, resolve_target
--   LevelTag        level_tag/mod.rs: assign_level, is_pii, contains_ci
--   Boot            boot_diag.rs and boot_identity.rs: the stage and the two lines; Clock takes
--                   kernel/boot/src/rtc.rs: bcd_to_bin, read_boot_time, write_utc
--   Highway         the policy table of tier/mod.rs, highway/mod.rs: check_transit, and
--                   transit/mod.rs: execute
--   Gnn             gnn/mod.rs: the fallback ranking and the handle without a model
--   BusFabric       bus_fabric/mod.rs: PortLabel::from_levels, resolve_label
--   Atlas           atlas/mod.rs: the bands of the codepoints
--   BusAndKick      bus_and_kick/mod.rs: classify_verb, compose, heartbeat_verb_for
--   GlyphGenesis    glyph_genesis/mod.rs: glyph, sentence
--   Surface         surface/src/main.rs: base64, http_response_body, fabric_port_for_context,
--                   query_id, resolve_ident
--   Prelude         what the modules share; Examples the theorems at concrete inputs
--
-- State: static atomics and `&mut self` are arguments, returned with the result of an operation. A
-- `Result` is Prelude's Result with the source's error constructors. Words are natural numbers; where
-- the source adds without a check, the sum is reduced modulo the word as in the release profile. Texts
-- and byte slices are lists of bytes.
--
-- Interleavings: in the three Race modules a thread is at one of the program points between two atomic
-- accesses, a step is one access, and a schedule is any list of thread numbers. The accesses are taken
-- one after the other; the acquire and release orders of the source make the relaxed stores between
-- two claims visible to the next claim.
--
-- Bounds: the receive loop has the budget that the source computes, at most 1000000 tries; the scan
-- of the descriptor table has as many rounds as the table has user descriptors; a decimal number is
-- written with at most 20 digits, enough for a u64. A panic on an index is a missing result.
--
-- Parameters: SHA-256 of the sha2 crate is a function from bytes to bytes, with the length and range
-- of a digest as the hypothesis IsDigest where a theorem needs them; from_utf8, to_lowercase,
-- to_uppercase, trim, the parser of a u64 and the reading of a file are functions.
--
-- Not modelled: sys_exit, which never returns; the stubs that return Unimplemented; test code; the
-- rest of the boot image and its drivers, the sockets, sessions and files of the surface server and
-- the scripts, which are input and output.
pub mod Prelude
pub mod Access
pub mod TierGate
pub mod Cosign
pub mod FrameAlloc
pub mod Envelope
pub mod Vfs
pub mod Crypto
pub mod Hookwall
pub mod SignGate
pub mod SpawnGate
pub mod Room
pub mod Tier
pub mod Agents
pub mod Syscall
pub mod Cycle
pub mod LinkAuth
pub mod Pid
pub mod Fedenv
pub mod LevelTag
pub mod Boot
pub mod Highway
pub mod Gnn
pub mod BusFabric
pub mod Atlas
pub mod BusAndKick
pub mod GlyphGenesis
pub mod Surface
pub mod Examples
