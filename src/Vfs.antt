-- ===== src/Vfs.antt =====
-- kernel/core/src/vfs/mod.rs: the table of 256 file descriptors and the calls on it. The static
-- `FD_STATE` is the list `table`, the envelope module's statics are its `Slot`; each is returned
-- with the result of a call that can change it.
pub mod Table
pub mod Channel
use asolaria_os.Prelude.{
  ℕ, zero, suc, ◌+◌, ◌-◌, ◌/◌, List, [], ◌∷◌, ◌++◌, Bytes, bytes, same, length, set, get_or, take,
  drop, replicate, is_empty, ltb, leb, ◌==◌, ◌||◌, not, if◌then◌else◌, Bool, true, false, Result,
  ok, err,
}
use asolaria_os.Envelope
use asolaria_os.Envelope.{
  Slot, EnvelopeErr, queue_full, queue_empty, payload_oversize, dispatch_enqueue_bytes,
  dispatch_dequeue_bytes,
}

pub data VfsErr : Type 0 where
  invalid_fd invalid_op_for_fd invalid_buf len_exceeds_buf table_full invalid_path invalid_mode :
      VfsErr
  oversize would_block unimplemented : VfsErr

abbrev pub stdin_fd : ℕ
stdin_fd = 0

abbrev pub stdout_fd : ℕ
stdout_fd = 1

abbrev pub stderr_fd : ℕ
stderr_fd = 2

abbrev pub reserved_fd_max : ℕ
reserved_fd_max = stderr_fd

abbrev pub fd_table_size : ℕ
fd_table_size = 256

abbrev pub fd_state_free : ℕ
fd_state_free = 0

abbrev pub fd_bind_unbacked : ℕ
fd_bind_unbacked = 1

abbrev pub fd_bind_devnull : ℕ
fd_bind_devnull = 2

abbrev pub fd_bind_busenvelope : ℕ
fd_bind_busenvelope = 3

abbrev pub Table : Type 0
Table = List ℕ

-- `FD_STATE[fd].load()`, at an index in bounds.
abbrev pub state_of : Table → ℕ → ℕ
state_of table fd = get_or table fd fd_state_free

unfoldable pub reset : Table
reset = replicate fd_table_size fd_state_free

unfoldable pub vfs_is_open : ℕ → Table → Bool
vfs_is_open fd table =
    if leb fd reserved_fd_max
    then true
    else if leb fd_table_size fd
    then false
    else not (state_of table fd == fd_state_free)

unfoldable pub binding_kind_for_path : Bytes → ℕ
binding_kind_for_path path =
    if same path (bytes "/dev/null")
    then fd_bind_devnull
    else if same path (bytes "/dev/bus/envelope")
    then fd_bind_busenvelope
    else fd_bind_unbacked

-- The scan for a free slot, at `fd` with `rounds` slots left.
unfoldable pub claim_lowest : ℕ → ℕ → ℕ → Table → Result VfsErr ℕ × Table
claim_lowest zero fd kind table = (err table_full, table)
claim_lowest (suc rounds) fd kind table =
    let next = claim_lowest rounds (suc fd) kind table in
    if state_of table fd == fd_state_free then (ok fd, set table fd kind) else next

-- `mode & !MODE_MASK`: the bits above the mask's two.
abbrev mode_excess : ℕ → ℕ
mode_excess mode = mode / 4

unfoldable pub vfs_open : Bytes → ℕ → Table → Result VfsErr ℕ × Table
unfolding claim_lowest binding_kind_for_path
vfs_open path mode table =
    if is_empty path
    then (err invalid_path, table)
    else if mode == 0 || not (mode_excess mode == 0)
    then (err invalid_mode, table)
    else claim_lowest (fd_table_size - suc reserved_fd_max) (suc reserved_fd_max)
        (binding_kind_for_path path) table

unfoldable pub vfs_close : ℕ → Table → Result VfsErr (Unit {0}) × Table
vfs_close fd table =
    if leb fd reserved_fd_max
    then (err invalid_op_for_fd, table)
    else if leb fd_table_size fd
    then (err invalid_fd, table)
    else let old = state_of table fd in
      let table' = set table fd fd_state_free in
      if old == fd_state_free then (err invalid_fd, table') else (ok tt, table')

-- The `match` on the error of a queue operation.
unfoldable pub from_read_err : EnvelopeErr → VfsErr
from_read_err queue_empty = would_block
from_read_err payload_oversize = oversize
from_read_err _ = invalid_fd

unfoldable pub from_write_err : EnvelopeErr → VfsErr
from_write_err queue_full = would_block
from_write_err payload_oversize = oversize
from_write_err _ = invalid_fd

map_err : {E F A : Type 0} → (E → F) → Result E A → Result F A
map_err f (ok a) = ok a
map_err f (err e) = err (f e)

-- The read on an open descriptor, by its binding. `others` is what the rest of the system does to
-- the slot; a wait of 0 polls once.
unfoldable pub read_kind : ℕ → Bytes → ℕ → Slot → Result VfsErr ℕ × Bytes × Slot
unfolding map_err from_read_err
read_kind kind buf len slot =
    if kind == fd_bind_devnull
    then (ok 0, buf, slot)
    else if kind == fd_bind_busenvelope
    then (let (r, head, slot') = dispatch_dequeue_bytes (λ s. s) (take len buf) 0 slot in
        (map_err from_read_err r, head ++ drop len buf, slot'))
    else (err invalid_fd, buf, slot)

unfoldable pub vfs_read : ℕ → Bytes → ℕ → Table → Slot → Result VfsErr ℕ × Bytes × Slot
unfolding read_kind
vfs_read fd buf len table slot =
    if ltb (length buf) len
    then (err len_exceeds_buf, buf, slot)
    else if fd == stdin_fd
    then (ok 0, buf, slot)
    else if fd == stdout_fd || fd == stderr_fd
    then (err invalid_op_for_fd, buf, slot)
    else if leb fd_table_size fd
    then (err invalid_fd, buf, slot)
    else read_kind (state_of table fd) buf len slot

written : Result EnvelopeErr (Unit {0}) → Bytes → Result VfsErr ℕ
unfolding from_write_err
written (ok _) buf = ok (length buf)
written (err e) buf = err (from_write_err e)

unfoldable pub write_kind : ℕ → Bytes → Slot → Result VfsErr ℕ × Slot
unfolding written
write_kind kind buf slot =
    if kind == fd_bind_devnull
    then (ok (length buf), slot)
    else if kind == fd_bind_busenvelope
    then (let (r, slot') = dispatch_enqueue_bytes buf 0 slot in (written r buf, slot'))
    else (err invalid_fd, slot)

unfoldable pub vfs_write : ℕ → Bytes → Table → Slot → Result VfsErr ℕ × Slot
unfolding write_kind
vfs_write fd buf table slot =
    if is_empty buf
    then (err invalid_buf, slot)
    else if fd == stdout_fd || fd == stderr_fd
    then (ok (length buf), slot)
    else if fd == stdin_fd
    then (err invalid_op_for_fd, slot)
    else if leb fd_table_size fd
    then (err invalid_fd, slot)
    else write_kind (state_of table fd) buf slot
