-- ===== src/Examples/Descriptors.antt =====
-- The descriptor table at concrete inputs.
use asolaria_os.Prelude.{same, ◌≡◌, refl, [], ◌∷◌, Bytes, bytes, replicate, set, none, arith, ok}
use asolaria_os.Envelope.{initial}
use asolaria_os.Envelope.Mailbox.{initial-IsQuiet, view}
use asolaria_os.Vfs.{Table, vfs_open, vfs_close, vfs_read, vfs_write, binding_kind_for_path}
use asolaria_os.Vfs.Table.{Lowest, vfs_open-Lowest, close-open}
use asolaria_os.Vfs.Channel.{write-read}

abbrev bus : Bytes
bus = bytes "/dev/bus/envelope"

-- Descriptor 3 is taken.
abbrev table : Table
table = set (replicate 256 0) 3 1

abbrev opened : Table
opened = set table 4 3

vfs_open-Lowest_example : Lowest 3 256 (binding_kind_for_path bus) table (vfs_open bus 3 table)
vfs_open-Lowest_example = vfs_open-Lowest bus 3 table refl (omega arith) (omega arith)

close-open_example : vfs_close 4 opened ≡ (ok tt, table)
unfolding vfs_open same
close-open_example = close-open bus 3 table opened 4 refl refl

abbrev channels : Table
channels = set opened 5 3

write-read_example :
    let (written, slot') = vfs_write 4 (9 ∷ 8 ∷ []) channels initial in
    let (got, buf', slot'') = vfs_read 5 (replicate 6 0) 4 channels slot' in
    (written ≡ ok 2) × (got ≡ ok 2) × (buf' ≡ 9 ∷ 8 ∷ 0 ∷ 0 ∷ 0 ∷ 0 ∷ []) × (view slot'' ≡ none)
unfolding initial
write-read_example =
    write-read 4 5 channels initial (9 ∷ 8 ∷ []) (replicate 6 0) 4
      (record { user = omega arith; within = omega arith; bound = refl })
      (record { user = omega arith; within = omega arith; bound = refl }) initial-IsQuiet refl refl
      (omega arith) (omega arith) (omega arith)
