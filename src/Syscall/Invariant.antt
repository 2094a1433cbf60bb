-- ===== src/Syscall/Invariant.antt =====
-- What every system call keeps true of the kernel's state (syscall/mod.rs).
use asolaria_os.Prelude.{
  ℕ, zero, suc, ◌≤◌, ◌≡◌, inl, inr, refl, ◌∙◌, List, [], ◌∷◌, Bool, true, false, Bool-cases, arith,
  Bytes, length, length-set, take, ltb, leb, ◌==◌, is_empty, ◌||◌, if◌then◌else◌, Result, ok, err,
}
use asolaria_os.Envelope.{Slot, EnvelopeErr, dispatch_enqueue_bytes, dispatch_dequeue_bytes}
use asolaria_os.Envelope.Mailbox.{IsQuiet, initial-IsQuiet, enqueue-put, dequeue-collect, alone}
use asolaria_os.FrameAlloc.{alloc_pages}
use asolaria_os.FrameAlloc.Bounds.{IsWatermark, bytes_needed_aligned}
use asolaria_os.Vfs.{
  Table, state_of, claim_lowest, vfs_open, vfs_close, read_kind, write_kind, vfs_read, vfs_write,
  fd_table_size, binding_kind_for_path,
}
use asolaria_os.Agents.{agent_registry_max, spawn_child_agent}
use asolaria_os.Syscall.{
  Kernel, exec_reply, sys_read, sys_write, sys_exec, sys_fork, sys_mmap, sys_munmap, sys_time,
  sys_envelope_send, sys_envelope_recv, sys_hookwall_post, sys_cosign_append,
}
use asolaria_os.Syscall.Dispatch.{
  Call, read, write, exec, fork, mmap, munmap, time, envelope_send, envelope_recv, post_hook,
  cosign_append, open_path, close_fd, serve, serve_all, booted,
}

pub record IsSound (k : Kernel) : Type 0 where
  pub table : length k.table ≡ fd_table_size
  pub slot : IsQuiet k.slot
  pub watermark : IsWatermark k.next_virtual_base
  pub forked : k.spawn_child_counter ≤ agent_registry_max

-- A property of both branches.
pub if_both :
    {A : Type 0} (P : A → Type 0) (c : Bool) (x y : A) → P x → P y → P (if c then x else y)
if_both P true x y h k = h
if_both P false x y h k = k

enqueue-IsQuiet :
    (env : Bytes) (route_hint : ℕ) (slot : Slot)
    → IsQuiet slot
    → IsQuiet ((dispatch_enqueue_bytes env route_hint slot).1)
enqueue-IsQuiet env route_hint slot q = (enqueue-put env route_hint slot q).0

dequeue-IsQuiet :
    (buf : Bytes) (wait : ℕ) (slot : Slot)
    → IsQuiet slot
    → IsQuiet ((dispatch_dequeue_bytes alone buf wait slot).2)
dequeue-IsQuiet buf wait slot q = (dequeue-collect buf wait slot q).0

vfs_read-IsQuiet :
    (fd : ℕ) (buf : Bytes) (len : ℕ) (table : Table) (slot : Slot)
    → IsQuiet slot
    → IsQuiet ((vfs_read fd buf len table slot).2)
unfolding vfs_read read_kind
vfs_read-IsQuiet fd buf len table slot q =
    let keeps : Result _ ℕ × Bytes × Slot → Type 0 = λ r. IsQuiet (r.2) in
    if_both keeps (ltb (length buf) len) _ _ q (
      if_both keeps (fd == 0) _ _ q (
        if_both keeps (fd == 1 || fd == 2) _ _ q (
          if_both keeps (leb 256 fd) _ _ q (
            if_both keeps (state_of table fd == 2) _ _ q (
              if_both keeps (state_of table fd == 3) _ _ (dequeue-IsQuiet (take len buf) 0 slot q)
                q)))))

vfs_write-IsQuiet :
    (fd : ℕ) (buf : Bytes) (table : Table) (slot : Slot)
    → IsQuiet slot
    → IsQuiet ((vfs_write fd buf table slot).1)
unfolding vfs_write write_kind
vfs_write-IsQuiet fd buf table slot q =
    let keeps : Result _ ℕ × Slot → Type 0 = λ r. IsQuiet (r.1) in
    if_both keeps (is_empty buf) _ _ q (
      if_both keeps (fd == 1 || fd == 2) _ _ q (
        if_both keeps (fd == 0) _ _ q (
          if_both keeps (leb 256 fd) _ _ q (
            if_both keeps (state_of table fd == 2) _ _ q
              (if_both keeps (state_of table fd == 3) _ _ (enqueue-IsQuiet buf 0 slot q) q)))))

length-claim_lowest :
    (rounds fd kind : ℕ) (table : Table)
    → length ((claim_lowest rounds fd kind table).1) ≡ length table
unfolding claim_lowest
length-claim_lowest zero fd kind table = refl
length-claim_lowest (suc rounds) fd kind table =
    if_both (λ (r : Result _ ℕ × Table). length (r.1) ≡ length table) (state_of table fd == 0) _ _
      (length-set table fd kind) (length-claim_lowest rounds (suc fd) kind table)

length-vfs_open :
    (path : Bytes) (mode : ℕ) (table : Table) → length ((vfs_open path mode table).1) ≡ length table
unfolding vfs_open
length-vfs_open path mode table =
    let keeps : Result _ ℕ × Table → Type 0 = λ r. length (r.1) ≡ length table in
    if_both keeps (is_empty path) _ _ refl
      (if_both keeps _ _ _ refl (length-claim_lowest 253 3 (binding_kind_for_path path) table))

length-vfs_close : (fd : ℕ) (table : Table) → length ((vfs_close fd table).1) ≡ length table
unfolding vfs_close
length-vfs_close fd table =
    let keeps : Result _ (Unit {0}) × Table → Type 0 = λ r. length (r.1) ≡ length table in
    if_both keeps (leb fd 2) _ _ refl (
      if_both keeps (leb 256 fd) _ _ refl (
        if_both keeps (state_of table fd == 0) _ _ (length-set table fd 0) (length-set table fd 0)))

alloc_pages-IsWatermark : (len next : ℕ) → IsWatermark next → IsWatermark ((alloc_pages len next).1)
unfolding alloc_pages
alloc_pages-IsWatermark len next w = record {
  low = ground arith;
  high = ground arith;
  aligned = ground (arith, bytes_needed_aligned len);
}

spawn-bounded : (counter : ℕ) → (spawn_child_agent counter).1 ≤ agent_registry_max
unfolding spawn_child_agent
spawn-bounded counter = ground arith

pub booted-IsSound : IsSound booted
booted-IsSound = record {
  table = refl;
  slot = initial-IsQuiet;
  watermark = record { low = omega arith; high = omega arith; aligned = omega arith };
  forked = omega arith;
}

-- A call that only moves the slot.
with_slot :
    (k : Kernel) (slot : Slot) → IsSound k → IsQuiet slot → IsSound (record k { slot = slot })
with_slot k slot s q = record {
  table = s.table;
  slot = q;
  watermark = s.watermark;
  forked = s.forked;
}

with_seq : (k : Kernel) (seq : ℕ) → IsSound k → IsSound (record k { append_seq = seq })
with_seq k seq s = record {
  table = s.table;
  slot = s.slot;
  watermark = s.watermark;
  forked = s.forked;
}

with_table :
    (k : Kernel) (table : Table)
    → IsSound k
    → length table ≡ fd_table_size
    → IsSound (record k { table = table })
with_table k table s n = record {
  table = n;
  slot = s.slot;
  watermark = s.watermark;
  forked = s.forked;
}

sys_exec-IsSound : (env : Bytes) (k : Kernel) → IsSound k → IsSound ((sys_exec env k).1)
unfolding sys_exec
sys_exec-IsSound env k s = elim (Bool-cases (ltb (length env) 32)) [
  | inl short ↦ rw short s
  | inr long ↦
      rw long (replied (dispatch_enqueue_bytes env 0 k.slot) (enqueue-IsQuiet env 0 k.slot s.slot))
]
  where
    replied :
        (r : Result EnvelopeErr (Unit {0}) × Slot)
        → IsQuiet (r.1)
        → IsSound ((exec_reply (r.0) (record k { slot = r.1 })).1)
    replied (ok _, slot) q = record {
      table = s.table;
      slot = q;
      watermark = s.watermark;
      forked = s.forked;
    }
    replied (err e, slot) q = with_slot k slot s q

-- Every call, refused or not, leaves the descriptor table at its size, the envelope slot in one of
-- its two resting states, the page watermark page-aligned inside the pool, and the child counter
-- within the registry's bound.
pub serve-IsSound : (c : Call) (k : Kernel) → IsSound k → IsSound (serve c k)
unfolding serve sys_read sys_write sys_fork sys_mmap sys_munmap sys_time sys_envelope_send
    sys_envelope_recv sys_hookwall_post sys_cosign_append
serve-IsSound (read fd buf len) k s =
    if_both (λ (r : Result _ ℕ × Bytes × Kernel). IsSound (r.2)) (ltb (length buf) len) _ _ s
      (with_slot k _ s (vfs_read-IsQuiet fd buf len k.table k.slot s.slot))
serve-IsSound (write fd buf) k s =
    if_both (λ (r : Result _ ℕ × Kernel). IsSound (r.1)) (is_empty buf) _ _ s
      (with_slot k _ s (vfs_write-IsQuiet fd buf k.table k.slot s.slot))
serve-IsSound (exec env) k s = sys_exec-IsSound env k s
serve-IsSound fork k s = record {
  table = s.table;
  slot = s.slot;
  watermark = s.watermark;
  forked = spawn-bounded k.spawn_child_counter;
}
serve-IsSound (mmap len prot) k s =
    if_both (λ (r : Result _ ℕ × Kernel). IsSound (r.1)) (len == 0) _ _ s
      (if_both (λ (r : Result _ ℕ × Kernel). IsSound (r.1)) (prot == 0) _ _ s
        (record {
          table = s.table;
          slot = s.slot;
          watermark = alloc_pages-IsWatermark len k.next_virtual_base s.watermark;
          forked = s.forked;
        }))
serve-IsSound (munmap addr len) k s =
    if_both (λ (r : Result _ (Unit {0}) × Kernel). IsSound (r.1)) (addr == 0) _ _ s
      (if_both (λ (r : Result _ (Unit {0}) × Kernel). IsSound (r.1)) (len == 0) _ _ s s)
serve-IsSound time k s = record {
  table = s.table;
  slot = s.slot;
  watermark = s.watermark;
  forked = s.forked;
}
serve-IsSound (envelope_send env route_hint) k s =
    if_both (λ (r : Result _ (Unit {0}) × Kernel). IsSound (r.1)) (ltb (length env) 32) _ _ s
      (with_slot k _ s (enqueue-IsQuiet env route_hint k.slot s.slot))
serve-IsSound (envelope_recv buf wait) k s =
    if_both (λ (r : Result _ ℕ × Bytes × Kernel). IsSound (r.2)) (is_empty buf) _ _ s
      (with_slot k _ s (dequeue-IsQuiet buf wait k.slot s.slot))
serve-IsSound (post_hook env verdict) k s =
    if_both (λ (r : Result _ (Unit {0}) × Kernel). IsSound (r.1)) (ltb (length env) 2) _ _ s
      (with_seq k _ s)
serve-IsSound (cosign_append row) k s =
    if_both (λ (r : Result _ ℕ × Kernel). IsSound (r.1)) (ltb (length row) 16) _ _ s
      (with_seq k _ s)
serve-IsSound (open_path path mode) k s =
    with_table k _ s (length-vfs_open path mode k.table ∙ s.table)
serve-IsSound (close_fd fd) k s = with_table k _ s (length-vfs_close fd k.table ∙ s.table)

serve_all-keeps : (cs : List Call) (k : Kernel) → IsSound k → IsSound (serve_all cs k)
unfolding serve_all
serve_all-keeps [] k s = s
serve_all-keeps (c ∷ cs) k s = serve_all-keeps cs (serve c k) (serve-IsSound c k s)

-- The kernel is sound after any sequence of calls served from boot on: its descriptor table has its
-- size, the slot rests, the watermark is page-aligned inside the pool, the child counter is bounded.
pub serve_all-IsSound : (cs : List Call) → IsSound (serve_all cs booted)
serve_all-IsSound cs = serve_all-keeps cs booted booted-IsSound
