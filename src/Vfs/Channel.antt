-- ===== src/Vfs/Channel.antt =====
-- Descriptors bound to `/dev/bus/envelope` are two ends of the envelope slot (vfs/mod.rs).
use mathlib.Core.List.{append_assoc}
use asolaria_os.Prelude.{
  ℕ, zero, suc, ◌≤◌, ◌<◌, ◌≡◌, refl, ap, [], ◌∷◌, ◌++◌, arith, Bytes, length, length-take, take,
  drop, is_empty, false, none, ok,
}
use asolaria_os.Envelope.{
  Slot, empty, envelope_slot_bytes, dispatch_enqueue_bytes, dispatch_dequeue_bytes,
}
use asolaria_os.Envelope.Mailbox.{IsQuiet, view, alone, send-receive}
use asolaria_os.Vfs.{
  Table, state_of, fd_bind_busenvelope, fd_table_size, reserved_fd_max, written, map_err,
  from_read_err, vfs_read, vfs_write,
}

drop-take : (n m : ℕ) (xs : Bytes) → n ≤ m → drop n (take m xs) ++ drop m xs ≡ drop n xs
drop-take zero m xs h = take-append-drop m xs
  where
    take-append-drop : (m : ℕ) (xs : Bytes) → take m xs ++ drop m xs ≡ xs
    take-append-drop zero xs = refl
    take-append-drop (suc m) [] = refl
    take-append-drop (suc m) (x ∷ xs) = ap (◌∷◌ x) (take-append-drop m xs)
drop-take (suc n) zero xs h = absurd (omega arith)
drop-take (suc n) (suc m) [] h = refl
drop-take (suc n) (suc m) (x ∷ xs) h = drop-take n m xs (omega arith)

-- A descriptor bound to the envelope queue.
pub record IsChannel (fd : ℕ) (table : Table) : Type 0 where
  pub user : reserved_fd_max < fd
  pub within : fd < fd_table_size
  pub bound : state_of table fd ≡ fd_bind_busenvelope

module _ (fd : ℕ) (table : Table) (c : IsChannel fd table) (slot : Slot) where
  write-channel :
      (buf : Bytes)
      → is_empty buf ≡ false
      → let (r, slot') = dispatch_enqueue_bytes buf 0 slot in
        vfs_write fd buf table slot ≡ (written r buf, slot')
  unfolding vfs_write
  write-channel buf h = ground (arith, c.bound)

  read-channel :
      (buf : Bytes) (len : ℕ)
      → len ≤ length buf
      → let (r, head, slot') = dispatch_dequeue_bytes alone (take len buf) 0 slot in
        vfs_read fd buf len table slot ≡ (map_err from_read_err r, head ++ drop len buf, slot')
  unfolding vfs_read
  read-channel buf len h = ground (arith, c.bound)

-- What is written to one such descriptor is read from another: the read reports the length
-- written, puts the bytes at the start of the buffer and leaves the rest of the buffer alone.
pub write-read :
    (a b : ℕ) (table : Table) (slot : Slot) (env buf : Bytes) (len : ℕ)
    → IsChannel a table
    → IsChannel b table
    → IsQuiet slot
    → slot.state ≡ empty
    → is_empty env ≡ false
    → length env ≤ envelope_slot_bytes
    → length env ≤ len
    → len ≤ length buf
    → let (written, slot') = vfs_write a env table slot in
      let (got, buf', slot'') = vfs_read b buf len table slot' in
      (written ≡ ok (length env))
      × (got ≡ ok (length env))
      × (buf' ≡ env ++ drop (length env) buf)
      × (view slot'' ≡ none)
unfolding written map_err
write-read a b table slot env buf len ca cb quiet e some_bytes fits long room =
    let (sent, got, head, gone) =
      send-receive env (take len buf) 0 0 slot quiet e fits (omega (arith, length-take len buf)) in
    let slot' = (dispatch_enqueue_bytes env 0 slot).1 in
    rw (write-channel a table ca slot env some_bytes, read-channel b table cb slot' buf len room)
      (
        rw sent refl,
        rw got refl,
        rw (head, append_assoc) (ap (◌++◌ env) (drop-take (length env) len buf long)),
        gone,
      )
