-- ===== src/Fedenv.antt =====
-- kernel/core/src/envelope/fedenv.rs: the contract of an application envelope in front of the router.
-- A text is the list of its UTF-8 bytes; SHA-256 (the crate sha2) is the parameter `sha256`.
pub mod Fields
pub mod Contract
pub mod Shift
use asolaria_os.Prelude.{
  ℕ, zero, suc, ◌+◌, ◌-◌, ◌*◌, ◌/◌, ◌%◌, List, [], ◌∷◌, ◌++◌, Bytes, bytes, same, starts_with,
  contains, split, hex_digit, length, take, all, any, is_empty, ltb, leb, ◌==◌, not, ◌&&◌, ◌||◌,
  Bool, true, false, if◌then◌else◌, Option, none, some, Result, ok, err, ◌>>◌, guard, u32_mod,
}

abbrev pub cosign_window : Bytes
cosign_window = bytes "QUINTUPLE-DELEGATED-2WEEK-2026-05-22-to-2026-06-05"

abbrev pub cosign_window_v3 : Bytes
cosign_window_v3 = bytes "FOUNDATION-V3-LAW-EXTENDED-4MO"

abbrev pub admin_override : Bytes
admin_override = bytes "ADMIN-OVERRIDE-OP-JESSE"

abbrev pub max_payload_bytes : ℕ
max_payload_bytes = 65536

abbrev pub target_prefixes : List Bytes
target_prefixes =
    bytes "pid:H"
    ∷ bytes "cli:"
    ∷ bytes "citizen:"
    ∷ bytes "antigravity:"
    ∷ bytes "daemon:"
    ∷ bytes "google:"
    ∷ bytes "meta:"
    ∷ []

pub data RejectReason : Type 0 where
  malformed unresolvable_target payload_too_large expired_cosign : RejectReason
  row_hash_mismatch reserved_slot : RejectReason

unfoldable pub as_event_str : RejectReason → Bytes
as_event_str malformed = bytes "EVT-FEDENV-REJECTED-MALFORMED"
as_event_str unresolvable_target = bytes "EVT-FEDENV-REJECTED-UNRESOLVABLE-TARGET"
as_event_str payload_too_large = bytes "EVT-FEDENV-REJECTED-PAYLOAD-TOO-LARGE"
as_event_str expired_cosign = bytes "EVT-FEDENV-REJECTED-EXPIRED-COSIGN"
as_event_str row_hash_mismatch = bytes "EVT-FEDENV-REJECTED-ROW-HASH-MISMATCH"
as_event_str reserved_slot = bytes "EVT-FEDENV-REJECTED-RESERVED-SLOT"

pub data RouteKind : Type 0 where
  pid_routed cli citizen antigravity daemon google meta : RouteKind

pub data Priority : Type 0 where
  apex high normal low : Priority

pub record FedenvView : Type 0 where
  pub caller_pid : Bytes
  pub target : Bytes
  pub verb : Bytes
  pub payload : Bytes
  pub back_address : Bytes
  pub cube_47d : Bytes
  pub glyph_5 : Bytes
  pub cosign_token : Bytes
  pub ttl_seconds : Bytes
  pub antecedents : Bytes
  pub row_hash : Bytes
  pub ts : Option Bytes

abbrev pub required : FedenvView → List Bytes
required env =
    env.caller_pid ∷ env.target ∷ env.verb ∷ env.payload ∷ env.back_address ∷ env.cube_47d
    ∷ env.glyph_5 ∷ env.cosign_token ∷ env.ttl_seconds ∷ env.antecedents ∷ env.row_hash ∷ []

-- One segment of the cube.
abbrev pub octal : Bytes → Bool
octal [] = false
octal (d ∷ []) = leb b'0' d && leb d b'7'
octal (d ∷ c ∷ seg) = false

unfoldable pub cube_segments : ℕ → List Bytes → Bool
cube_segments segments [] = segments == 6
cube_segments segments (seg ∷ segs) =
    let rest = cube_segments (suc segments) segs in (if octal seg then rest else false)

unfoldable pub cube_47d_ok : Bytes → Bool
unfolding cube_segments split
cube_47d_ok s = cube_segments 0 (split s)

-- `chars().count()` of UTF-8 text: the bytes that do not continue a character.
unfoldable pub chars_count : Bytes → ℕ
chars_count [] = 0
chars_count (b ∷ s) = if leb 128 b && ltb b 192 then chars_count s else suc (chars_count s)

-- `parse::<u32>()`: an optional `+`, then one digit or more, with overflow refused.
unfoldable pub parse_digits : ℕ → Bytes → Option ℕ
parse_digits acc [] = some acc
parse_digits acc (b ∷ s) =
    let next = parse_digits (acc * 10 + (b - 48)) s in
    (if leb 48 b && leb b 57 && ltb (acc * 10 + (b - 48)) u32_mod then next else none)

unfoldable pub parse_u32 : Bytes → Option ℕ
unfolding parse_digits
parse_u32 [] = none
parse_u32 (b ∷ []) = if b == b'+' then none else parse_digits 0 (b ∷ [])
parse_u32 (b ∷ c ∷ s) = if b == b'+' then parse_digits 0 (c ∷ s) else parse_digits 0 (b ∷ c ∷ s)

unfoldable pub ttl_ok : Bytes → Bool
unfolding parse_u32
ttl_ok s = elim (parse_u32 s) [ some t ↦ leb 1 t && leb t 86_400 | none ↦ false ]

abbrev pub lower_hex : ℕ → Bool
lower_hex b = leb b'0' b && leb b b'9' || leb b'a' b && leb b b'f'

unfoldable pub is_hex16 : Bytes → Bool
is_hex16 s = length s == 16 && all lower_hex s

-- The loop of `row_hash_matches`, one byte of the digest and two of the text at a time.
unfoldable pub nibbles_match : Bytes → Bytes → Bool
nibbles_match [] expected = true
nibbles_match (b ∷ digest) (hi ∷ lo ∷ expected) =
    let rest = nibbles_match digest expected in
    (if not (hi == hex_digit (b / 16)) || not (lo == hex_digit (b % 16)) then false else rest)
nibbles_match (b ∷ digest) _ = false

unfoldable pub row_hash_matches : Bytes → Bytes → Bool
unfolding nibbles_match
row_hash_matches digest_first8 expected =
    if not (length expected == 16) || ltb (length digest_first8) 8
    then false
    else nibbles_match (take 8 digest_first8) expected

-- What the row hash is taken of.
abbrev pub hashed_row : FedenvView → Bytes → Bytes
hashed_row env ts = bytes "FEDENV|" ++ (env.caller_pid ++ (env.verb ++ (env.payload ++ ts)))

unfoldable pub row_hash_ok : (Bytes → Bytes) → FedenvView → Option Bytes → Bool
unfolding row_hash_matches
row_hash_ok sha256 env none = true
row_hash_ok sha256 env (some ts) =
    row_hash_matches (take 8 (sha256 (hashed_row env ts))) env.row_hash

abbrev pub window_ok : Bytes → Bool
window_ok token =
    contains token cosign_window || contains token cosign_window_v3 || contains token admin_override

unfoldable pub validate : (Bytes → Bytes) → FedenvView → Result RejectReason (Unit {0})
unfolding cube_47d_ok chars_count ttl_ok is_hex16 row_hash_ok
validate sha256 env =
    guard (not (any is_empty (required env))) malformed
    >> guard (any (starts_with env.target) target_prefixes) unresolvable_target
    >> guard (leb (length env.payload) max_payload_bytes) payload_too_large
    >> guard (cube_47d_ok env.cube_47d) malformed
    >> guard (not (ltb (chars_count env.glyph_5) 5)) malformed
    >> guard (ttl_ok env.ttl_seconds) malformed
    >> guard (is_hex16 env.row_hash && is_hex16 env.antecedents) malformed
    >> guard (window_ok env.cosign_token) expired_cosign
    >> guard (row_hash_ok sha256 env env.ts) row_hash_mismatch

unfoldable pub resolve_target : Bytes → Option RouteKind
resolve_target target =
    if starts_with target (bytes "pid:H")
    then some pid_routed
    else if starts_with target (bytes "cli:")
    then some cli
    else if starts_with target (bytes "citizen:")
    then some citizen
    else if starts_with target (bytes "antigravity:")
    then some antigravity
    else if starts_with target (bytes "daemon:")
    then some daemon
    else if starts_with target (bytes "google:")
    then some google
    else if starts_with target (bytes "meta:")
    then some meta
    else none

unfoldable pub priority_of : Bytes → Priority
priority_of priority =
    if same priority (bytes "apex")
    then apex
    else if same priority (bytes "high")
    then high
    else if same priority (bytes "low")
    then low
    else normal
