-- ===== src/Boot/Identity.antt =====
-- kernel/core/src/boot_identity.rs: the identity line of one machine. An index that `%` by an empty
-- seed would make the source panic on is `none`.
use asolaria_os.Prelude.{
  ℕ, zero, suc, ◌+◌, ◌*◌, ◌%◌, List, [], ◌∷◌, ◌++◌, Bytes, bytes, decimal, length, get_or, is_empty,
  if◌then◌else◌, Option, none, some, Result, u64, bit_and,
}
use asolaria_os.Boot.Writer.{RenderError, count_only, with_buffer, push_all, finish}

infixl 5 ◌>>=◌
abbrev pub ◌>>=◌ : {A B : Type 0} → Option A → (A → Option B) → Option B
none >>= f = none
some a >>= f = f a

abbrev pub axis_count : ℕ
axis_count = 60

pub record BootIdentity : Type 0 where
  pub seat : Bytes
  pub device_pid : Bytes
  pub operator_pid : Bytes
  pub co_operator_pid : Bytes
  pub room_pid : Bytes
  pub glyph : Bytes
  pub cohort : Bytes
  pub hilbert : ℕ
  pub tuple_dim : ℕ
  pub date : Bytes
  pub location : Bytes

abbrev pub acer_device_pid : Bytes
acer_device_pid = bytes "ACER-PID-H740C-A07-W104-P00-N00000"

abbrev pub op_jesse_pid : Bytes
op_jesse_pid = bytes "OP-JESSE-PID-G0000-A00-W000-P00-N00000"

abbrev pub op_rayssa_pid : Bytes
op_rayssa_pid = bytes "OP-RAYSSA-PID-G0000-A00-W000-P00-N00000"

abbrev pub acer_fable5_boot_identity : BootIdentity
acer_fable5_boot_identity = record {
  seat = bytes "ACER-CLAUDE-FABLE5";
  device_pid = acer_device_pid;
  operator_pid = op_jesse_pid;
  co_operator_pid = op_rayssa_pid;
  room_pid = bytes "8467a937cba309f7";
  glyph = bytes "BH1024:SEAT-FABLE5";
  cohort = bytes "H740C";
  hilbert = 1720;
  tuple_dim = axis_count;
  date = bytes "2026-07-09";
  location = bytes "SEC-FABLE5-1720";
}

unfoldable pub identity_seed : BootIdentity → Bytes
identity_seed identity = if is_empty identity.device_pid then identity.seat else identity.device_pid

abbrev pub u16 : ℕ → ℕ
u16 n = n % 65536

unfoldable pub axis_of_seed : Bytes → ℕ → ℕ
axis_of_seed seed index =
    let a = get_or seed (index % length seed) 0 in
    let b = get_or seed (u64 (u64 (index * 7) + 3) % length seed) 0 in
    let c = get_or seed (u64 (u64 (index * 13) + 11) % length seed) 0 in
    bit_and (u16 (u16 (u16 (u16 (a * 31) + u16 (b * 17)) + u16 (c * 7)) + u16 (u16 index * 19)))
      1023

unfoldable pub selector_axis_u10 : BootIdentity → ℕ → Option ℕ
unfolding identity_seed axis_of_seed
selector_axis_u10 identity index =
    if is_empty (identity_seed identity)
    then none
    else some (axis_of_seed (identity_seed identity) index)

-- The loop over the axes, `n` of them from `i` on.
unfoldable pub axis_parts : BootIdentity → ℕ → ℕ → Option (List Bytes)
unfolding selector_axis_u10
axis_parts identity i zero = some []
axis_parts identity i (suc n) = do
  axis ← selector_axis_u10 identity i
  rest ← axis_parts identity (suc i) n
  some (elim i [ zero ↦ decimal axis ∷ rest | suc k ↦ bytes "," ∷ decimal axis ∷ rest ])

-- What `render_boot_identity_line_inner` pushes before the axes.
unfoldable pub identity_head : BootIdentity → List Bytes
identity_head identity =
    bytes "ASOBTID|format=hbpish|evidence=BUILD_TIME_DEVICE_CONTEXT|source=uefi|json=0"
    ∷ bytes "|seat="
    ∷ identity.seat
    ∷ bytes "|device_pid="
    ∷ identity.device_pid
    ∷ bytes "|operator_pid="
    ∷ identity.operator_pid
    ∷ bytes "|co_operator_pid="
    ∷ identity.co_operator_pid
    ∷ bytes "|room_pid="
    ∷ identity.room_pid
    ∷ bytes "|glyph="
    ∷ identity.glyph
    ∷ bytes "|cohort="
    ∷ identity.cohort
    ∷ bytes "|hilbert="
    ∷ decimal identity.hilbert
    ∷ bytes "|tuple_dim="
    ∷ decimal identity.tuple_dim
    ∷ bytes "|date="
    ∷ identity.date
    ∷ bytes "|location="
    ∷ identity.location
    ∷ bytes "|axes="
    ∷ []

unfoldable pub identity_parts : BootIdentity → Option (List Bytes)
unfolding identity_head axis_parts
identity_parts identity = do
  axes ← axis_parts identity 0 identity.tuple_dim
  some (identity_head identity ++ axes)

unfoldable pub boot_identity_line_len : BootIdentity → Option ℕ
unfolding identity_parts push_all
boot_identity_line_len identity = do
  parts ← identity_parts identity
  some (push_all parts count_only).required

unfoldable pub render_boot_identity_line :
    BootIdentity → Bytes → Option (Result RenderError ℕ × Option Bytes)
unfolding identity_parts push_all finish
render_boot_identity_line identity out = do
  parts ← identity_parts identity
  let w = push_all parts (with_buffer out)
  some (finish w, w.buffer)
