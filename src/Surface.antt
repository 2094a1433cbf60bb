-- ===== src/Surface.antt =====
-- surface/src/main.rs: the functions of the server that work on texts alone.
pub mod Base64
pub mod Identity
use asolaria_os.Prelude.{
  ℕ, zero, suc, ◌+◌, ◌*◌, ◌/◌, ◌%◌, List, [], ◌∷◌, ◌++◌, Bytes, bytes, get_or, starts_with,
  contains, drop, map, is_empty, ◌==◌, ltb, leb, ◌&&◌, ◌||◌, if◌then◌else◌, Option, none, some,
  bit_and,
}
use Prim.Native.Nat.{bit_or}

abbrev pub alphabet : Bytes
alphabet = bytes "ABCDEFGHIJKLMNOPQRSTUVWXYZabcdefghijklmnopqrstuvwxyz0123456789+/"

abbrev pub letter : ℕ → ℕ
letter v = get_or alphabet v 0

abbrev pub letter0 : ℕ → ℕ
letter0 b0 = letter (b0 / 4)

abbrev pub letter1 : ℕ → ℕ → ℕ
letter1 b0 b1 = letter (bit_or (bit_and b0 3 * 16) (b1 / 16))

abbrev pub letter2 : ℕ → ℕ → ℕ
letter2 b1 b2 = letter (bit_or (bit_and b1 15 * 4) (b2 / 64))

abbrev pub letter3 : ℕ → ℕ
letter3 b2 = letter (bit_and b2 63)

-- One round of the loop for each chunk of three bytes; a byte that a last chunk lacks is 0.
unfoldable pub base64 : Bytes → Bytes
base64 [] = []
base64 (b0 ∷ []) = letter0 b0 ∷ letter1 b0 0 ∷ b'=' ∷ b'=' ∷ []
base64 (b0 ∷ b1 ∷ []) = letter0 b0 ∷ letter1 b0 b1 ∷ letter2 b1 0 ∷ b'=' ∷ []
base64 (b0 ∷ b1 ∷ b2 ∷ rest) = letter0 b0 ∷ letter1 b0 b1 ∷ letter2 b1 b2 ∷ letter3 b2 ∷ base64 rest

-- `str::find` for a pattern that is not empty, with the rest of the text from there.
unfoldable pub from_first : Bytes → Bytes → Option Bytes
from_first [] p = none
from_first (c ∷ s) p = if starts_with (c ∷ s) p then some (c ∷ s) else from_first s p

abbrev pub boundary : Bytes
boundary = 13 ∷ 10 ∷ 13 ∷ 10 ∷ []

unfoldable pub http_response_body : Bytes → Bytes
unfolding from_first
http_response_body resp = elim (from_first resp boundary) [ some rest ↦ drop 4 rest | none ↦ resp ]

abbrev pub to_ascii_lowercase : Bytes → Bytes
to_ascii_lowercase s = map (λ b. if leb 65 b && leb b 90 then b + 32 else b) s

unfoldable pub fabric_port_for_context : Bytes → Option Bytes → ℕ
fabric_port_for_context seat host =
    let host_ = to_ascii_lowercase (elim host [ none ↦ [] | some h ↦ h ]) in
    if contains (to_ascii_lowercase seat) (bytes "liris")
      || contains host_ (bytes "ptsqtie")
      || contains host_ (bytes "liris")
    then 4944
    else 4949

-- `split('&')` of a text.
unfoldable pub split_fields : Bytes → List Bytes
split_fields [] = [] ∷ []
split_fields (c ∷ s) =
    let rest = split_fields s in
    if c == b'&'
    then [] ∷ rest
    else elim rest [ [] ↦ (c ∷ []) ∷ [] | field ∷ fields ↦ (c ∷ field) ∷ fields ]

-- `parse::<u64>()` is a function.
module _ (parse_u64 : Bytes → Option ℕ) where
  unfoldable pub first_id : List Bytes → ℕ
  first_id [] = 0
  first_id (kv ∷ rest) =
      if starts_with kv (bytes "id=")
      then elim (parse_u64 (drop 3 kv)) [ some n ↦ n | none ↦ 0 ]
      else first_id rest

  unfoldable pub query_id : Bytes → ℕ
  unfolding first_id split_fields
  query_id query = first_id (split_fields query)

-- `str::trim` and the reading of a file are functions.
module _ (trim : Bytes → Bytes) (read_file : Bytes → Option Bytes) where
  unfoldable pub nonblank : Option Bytes → Bytes → Bytes
  nonblank none otherwise = otherwise
  nonblank (some s) otherwise = if is_empty (trim s) then otherwise else trim s

  unfoldable pub from_file : Option Bytes → Bytes → Bytes → Bytes
  unfolding nonblank
  from_file none file fallback = fallback
  from_file (some home) file fallback =
      if is_empty home
      then fallback
      else nonblank (read_file (home ++ (bytes "/.asolaria/" ++ file))) fallback

  unfoldable pub resolve_ident : Option Bytes → Option Bytes → Bytes → Bytes → Bytes
  unfolding nonblank from_file
  resolve_ident env_value home file fallback = nonblank env_value (from_file home file fallback)
