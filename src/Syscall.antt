-- ===== src/Syscall.antt =====
-- kernel/core/src/syscall/mod.rs: the system calls, each with the guards of its own and the
-- translation of the errors below it. The kernel's static atomics are the record `Kernel`. The
-- digest (the sha2 crate), `core::str::from_utf8` and `str::to_lowercase` are parameters.
-- `sys_exit` never returns and is not a function here.
pub mod Dispatch
pub mod Invariant
pub mod Handles
pub mod Loopback
use asolaria_os.Prelude.{
  ℕ, ◌+◌, ◌*◌, Bytes, bytes, length, take, set, get_or, is_empty, [], ◌∷◌, ltb, ◌==◌, u64, not,
  if◌then◌else◌, Option, none, some, Result, ok, err, ◌>>=◌, ◌>>◌, guard,
}
use asolaria_os.Access.{
  AccessTier, public_tier, HookwallVerdict, SyscallErr, invalid, would_block, exhausted,
  cosign_reject,
}
use asolaria_os.FrameAlloc.{FrameErr, pool_exhausted, alloc_pages, free_pages}
use asolaria_os.Envelope.{
  EnvelopeErr, queue_full, queue_empty, min_envelope_bytes, Slot, dispatch_enqueue_bytes,
  dispatch_dequeue_bytes,
}
use asolaria_os.Vfs.{Table, VfsErr, vfs_read, vfs_write}
use asolaria_os.Cosign.{CosignChainErr, append_row}
use asolaria_os.Hookwall.{HookContext, micro, hookwall_pre, hookwall_post}
use asolaria_os.Agents.{AgentErr, registry_full, spawn_child_agent}
use asolaria_os.Tier.{TierClassifierErr, path_malformed, unclassified_default, classify_path}

pub record Kernel : Type 0 where
  pub table : Table
  pub slot : Slot
  pub next_virtual_base : ℕ
  pub exec_handle_next : ℕ
  pub spawn_child_counter : ℕ
  pub monotonic_counter : ℕ
  pub append_seq : ℕ

-- `Err(_) => Err(SyscallErr::Invalid)`
abbrev pub any_invalid : {E A : Type 0} → Result E A → Result SyscallErr A
any_invalid (ok a) = ok a
any_invalid (err _) = err invalid

unfoldable pub sys_read : ℕ → Bytes → ℕ → Kernel → Result SyscallErr ℕ × Bytes × Kernel
sys_read fd buf len k =
    if ltb (length buf) len
    then (err invalid, buf, k)
    else (let (r, buf', slot) = vfs_read fd buf len k.table k.slot in
        (any_invalid r, buf', record k { slot = slot }))

unfoldable pub sys_write : ℕ → Bytes → Kernel → Result SyscallErr ℕ × Kernel
sys_write fd buf k =
    if is_empty buf
    then (err invalid, k)
    else (let (r, slot) = vfs_write fd buf k.table k.slot in
        (any_invalid r, record k { slot = slot }))

unfoldable pub from_enqueue : EnvelopeErr → SyscallErr
from_enqueue queue_full = exhausted
from_enqueue _ = invalid

-- The match of `sys_exec` on what the enqueue returned.
abbrev pub exec_reply : Result EnvelopeErr (Unit {0}) → Kernel → Result SyscallErr ℕ × Kernel
exec_reply (ok _) k =
    (ok k.exec_handle_next, record k { exec_handle_next = u64 (k.exec_handle_next + 1) })
exec_reply (err e) k = (err (from_enqueue e), k)

unfoldable pub sys_exec : Bytes → Kernel → Result SyscallErr ℕ × Kernel
unfolding from_enqueue
sys_exec envelope_bytes k =
    if ltb (length envelope_bytes) min_envelope_bytes
    then (err invalid, k)
    else (let (r, slot) = dispatch_enqueue_bytes envelope_bytes 0 k.slot in
        exec_reply r (record k { slot = slot }))

abbrev pub fork_reply : Result AgentErr ℕ → Result SyscallErr ℕ
fork_reply (ok child_handle) = ok child_handle
fork_reply (err registry_full) = err exhausted
fork_reply (err _) = err invalid

unfoldable pub sys_fork : Kernel → Result SyscallErr ℕ × Kernel
sys_fork k =
    let (r, counter) = spawn_child_agent k.spawn_child_counter in
    (fork_reply r, record k { spawn_child_counter = counter })

abbrev pub mmap_reply : Result FrameErr ℕ → Result SyscallErr ℕ
mmap_reply (ok p) = ok p
mmap_reply (err pool_exhausted) = err exhausted
mmap_reply (err _) = err invalid

unfoldable pub sys_mmap : ℕ → ℕ → Kernel → Result SyscallErr ℕ × Kernel
sys_mmap len prot k =
    if len == 0
    then (err invalid, k)
    else if prot == 0
    then (err invalid, k)
    else (let (r, next) = alloc_pages len k.next_virtual_base in
        (mmap_reply r, record k { next_virtual_base = next }))

unfoldable pub sys_munmap : ℕ → ℕ → Kernel → Result SyscallErr (Unit {0}) × Kernel
sys_munmap addr len k =
    if addr == 0
    then (err invalid, k)
    else if len == 0
    then (err invalid, k)
    else (any_invalid (free_pages addr len), k)

unfoldable pub sys_time : Kernel → Result SyscallErr ℕ × Kernel
sys_time k =
    (ok k.monotonic_counter, record k { monotonic_counter = u64 (k.monotonic_counter + 1) })

-- The big-endian word of the first eight bytes of a digest.
unfoldable pub first_word : ℕ → Bytes → ℕ
first_word v [] = v
first_word v (b ∷ bs) = first_word (u64 (v * 256) + b) bs

unfoldable pub sys_pid_current : (Bytes → Bytes) → Kernel → Result SyscallErr ℕ × Kernel
sys_pid_current sha256 k = (
  ok (first_word 0 (take 8 (sha256 (bytes "ASOLARIA-FEDERATION-REMAKE-1024-PID-2026-05-11")))),
  k,
)

abbrev pub send_reply : Result EnvelopeErr (Unit {0}) → Result SyscallErr (Unit {0})
send_reply (ok _) = ok tt
send_reply (err e) = err (from_enqueue e)

unfoldable pub sys_envelope_send : Bytes → ℕ → Kernel → Result SyscallErr (Unit {0}) × Kernel
unfolding from_enqueue
sys_envelope_send env route_hint k =
    if ltb (length env) min_envelope_bytes
    then (err invalid, k)
    else (let (r, slot) = dispatch_enqueue_bytes env route_hint k.slot in
        (send_reply r, record k { slot = slot }))

abbrev pub recv_reply : Result EnvelopeErr ℕ → Result SyscallErr ℕ
recv_reply (ok n) = ok n
recv_reply (err queue_empty) = err would_block
recv_reply (err _) = err invalid

-- `others` is what the rest of the system does to the slot between two tries.
unfoldable pub sys_envelope_recv :
    (Slot → Slot) → Bytes → ℕ → Kernel → Result SyscallErr ℕ × Bytes × Kernel
sys_envelope_recv others buf max_wait_ns k =
    if is_empty buf
    then (err invalid, buf, k)
    else (let (r, buf', slot) = dispatch_dequeue_bytes others buf max_wait_ns k.slot in
        (recv_reply r, buf', record k { slot = slot }))

abbrev pub hook_context : Bytes → HookContext
hook_context env = record {
  slot = get_or env 0 0;
  syscall_no = get_or env 1 0;
  caller_pid = 0;
  tier = micro;
  target_tier = public_tier;
}

unfoldable pub sys_hookwall_pre : Bytes → Kernel → Result SyscallErr HookwallVerdict × Kernel
sys_hookwall_pre env k =
    if ltb (length env) 2 then (err invalid, k) else (hookwall_pre (hook_context env), k)

unfoldable pub sys_hookwall_post :
    Bytes → HookwallVerdict → Kernel → Result SyscallErr (Unit {0}) × Kernel
sys_hookwall_post env verdict k =
    if ltb (length env) 2
    then (err invalid, k)
    else (let (r, seq) = hookwall_post (hook_context env) verdict k.append_seq in
        (r, record k { append_seq = seq }))

abbrev pub cosign_reply : Result CosignChainErr ℕ → Result SyscallErr ℕ
cosign_reply (ok n) = ok n
cosign_reply (err _) = err cosign_reject

unfoldable pub sys_cosign_append : Bytes → Kernel → Result SyscallErr ℕ × Kernel
sys_cosign_append row k =
    if ltb (length row) 16
    then (err invalid, k)
    else (let (r, seq) = append_row row k.append_seq in
        (cosign_reply r, record k { append_seq = seq }))

abbrev pub tier_reply : Result TierClassifierErr AccessTier → Result SyscallErr AccessTier
tier_reply (ok t) = ok t
tier_reply (err path_malformed) = err invalid
tier_reply (err unclassified_default) = ok public_tier

abbrev pub tier_of : (Bytes → Bytes) → Option Bytes → Result SyscallErr AccessTier
tier_of to_lowercase none = err invalid
tier_of to_lowercase (some s) = tier_reply (classify_path to_lowercase s)

unfoldable pub sys_tier_query :
    (Bytes → Option Bytes)
    → (Bytes → Bytes)
    → Bytes
    → Kernel
    → Result SyscallErr AccessTier × Kernel
sys_tier_query from_utf8 to_lowercase path k = (tier_of to_lowercase (from_utf8 path), k)

-- The inference handle is made with no model loaded, and then always answers `Local`, encoded 0.
unfoldable pub sys_gnn_infer : Bytes → Bytes → Kernel → Result SyscallErr ℕ × Bytes × Kernel
sys_gnn_infer input out k = if is_empty out then (err invalid, out, k) else (ok 1, set out 0 0, k)
