-- ===== src/Prelude/Hex.antt =====
-- The lower-case hexadecimal text of bytes.
use Prim.Native.Nat.{ℕ, ◌/◌, ◌%◌}
use mathlib.Core.List.{[], ◌∷◌}
use asolaria_os.Prelude.Lists.{get_or}
use asolaria_os.Prelude.Text.{Bytes, bytes}

abbrev pub hex_digit : ℕ → ℕ
hex_digit d = get_or (bytes "0123456789abcdef") d 0

abbrev pub hex_text : Bytes → Bytes
hex_text [] = []
hex_text (b ∷ s) = hex_digit (b / 16) ∷ hex_digit (b % 16) ∷ hex_text s
