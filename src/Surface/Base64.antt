-- ===== src/Surface/Base64.antt =====
-- What base64 of surface/src/main.rs writes can be read back.
use asolaria_os.Prelude.{
  ℕ, ◌+◌, ◌-◌, ◌*◌, ◌/◌, ◌%◌, [], ◌∷◌, Bytes, ◌==◌, not, ◌&&◌, leb, if◌then◌else◌, Bool, bit_and,
}
use Prim.Native.Nat.{bit_or}
use asolaria_os.Surface.{letter}

-- The place of a letter in the alphabet, after RFC 4648.
abbrev pub sextet : ℕ → ℕ
sextet c =
    if leb 65 c && leb c 90
    then c - 65
    else if leb 97 c && leb c 122
    then c - 71
    else if leb 48 c && leb c 57
    then c + 4
    else if c == b'+'
    then 62
    else 63

-- A reader of base64 text, after RFC 4648.
abbrev pub decode : Bytes → Bytes
decode (p ∷ q ∷ r ∷ s ∷ rest) =
    let first = sextet p * 4 + sextet q / 16 in
    let second = sextet q % 16 * 16 + sextet r / 4 in
    let third = sextet r % 4 * 64 + sextet s in
    let more = decode rest in
    if r == b'='
    then first ∷ []
    else if s == b'='
    then first ∷ second ∷ []
    else first ∷ second ∷ third ∷ more
decode _ = []

letter_ok : ℕ → Bool
letter_ok v = sextet (letter v) == v && not (letter v == b'=')

bits_ok : ℕ → ℕ → Bool
bits_ok x y =
    bit_or (bit_and x 3 * 16) (y / 16) == x % 4 * 16 + y / 16
    && bit_or (bit_and x 15 * 4) (y / 64) == x % 16 * 4 + y / 64
    && bit_and x 63 == x % 64
