-- ===== src/Boot/Writer.antt =====
-- `StatusLineWriter` of boot_diag.rs, which boot_identity.rs repeats as `IdentityLineWriter`: the
-- bytes a line needs are counted, and those that fit are written.
use asolaria_os.Prelude.{
  ℕ, ◌+◌, ◌-◌, List, [], ◌∷◌, ◌++◌, Bytes, length, take, drop, ltb, ◌==◌, min, if◌then◌else◌,
  Option, none, some, Result, ok, err, u64_max,
}

pub data RenderError : Type 0 where
  buffer_too_small : ℕ → RenderError

pub record LineWriter : Type 0 where
  pub buffer : Option Bytes
  pub required : ℕ
  pub written : ℕ

abbrev pub count_only : LineWriter
count_only = record { buffer = none; required = 0; written = 0 }

abbrev pub with_buffer : Bytes → LineWriter
with_buffer buffer = record { buffer = some buffer; required = 0; written = 0 }

unfoldable pub saturating_add : ℕ → ℕ → ℕ
saturating_add a b = min (a + b) u64_max

abbrev pub min_usize : ℕ → ℕ → ℕ
min_usize left right = if ltb left right then left else right

-- `buffer[at..at + value.len()].copy_from_slice(value)`.
abbrev pub overwrite : Bytes → ℕ → Bytes → Bytes
overwrite buffer place value = take place buffer ++ (value ++ drop (place + length value) buffer)

-- The part of `push_bytes` under `if let Some(buffer)`.
unfoldable pub copied : Option Bytes → ℕ → Bytes → Option Bytes × ℕ
copied none written value = (none, written)
copied (some buffer) written value =
    let to_copy = min_usize (length buffer - written) (length value) in
    if to_copy == 0
    then (some buffer, written)
    else (some (overwrite buffer written (take to_copy value)), written + to_copy)

unfoldable pub push_bytes : Bytes → LineWriter → LineWriter
unfolding copied saturating_add
push_bytes value w =
    let (buffer, written) = copied w.buffer w.written value in
    record {
      buffer = buffer;
      required = saturating_add w.required (length value);
      written = written;
    }

unfoldable pub finish : LineWriter → Result RenderError ℕ
finish w = if ltb w.written w.required then err (buffer_too_small w.required) else ok w.required

-- The pushes of one line, in order.
unfoldable pub push_all : List Bytes → LineWriter → LineWriter
unfolding push_bytes
push_all [] w = w
push_all (value ∷ values) w = push_all values (push_bytes value w)
