-- ===== src/Pid.antt =====
-- kernel/core/src/pid/mod.rs: the process identifiers, their parser and the three minters. A text is
-- the list of its bytes; SHA-256 (the crate sha2) is the parameter `sha256`.
pub mod Scan
pub mod Blocks
pub mod Dates
pub mod Reading
pub mod RoundTrip
pub mod Subclass
use asolaria_os.Prelude.{
  split, hex_digit, ℕ, zero, suc, ◌+◌, ◌/◌, ◌%◌, List, [], ◌∷◌, ◌++◌, Bytes, bytes, same,
  starts_with, length, get_or, take, drop, all, any, leb, ◌==◌, not, ◌&&◌, ◌||◌, Bool, true, false,
  if◌then◌else◌, Option, none, some, Result, ok, err, ◌>>=◌, ◌>>◌, guard,
}

abbrev pub known_roles : List Bytes
known_roles =
    bytes "OPERATOR"
    ∷ bytes "OP-JESSE"
    ∷ bytes "OP-RAYSSA"
    ∷ bytes "ACER"
    ∷ bytes "LIRIS"
    ∷ bytes "FALCON"
    ∷ bytes "AETHER"
    ∷ bytes "ASOLARIA-FEDERATION-REMAKE-1024"
    ∷ []

pub data PidErr : Type 0 where
  malformed_format invalid_region invalid_host_code invalid_activity : PidErr
  invalid_wave invalid_process invalid_nonce unknown_role : PidErr

unfoldable pub is_valid_role : Bytes → Bool
is_valid_role r = any (λ k. same k r) known_roles

-- The namespaces grand, host, federation and data.
unfoldable pub is_valid_region : ℕ → Bool
is_valid_region c = c == b'G' || c == b'H' || c == b'F' || c == b'D'

-- `is_ascii_digit` and `is_ascii_hexdigit` of the standard library.
abbrev pub is_ascii_digit : ℕ → Bool
is_ascii_digit b = leb 48 b && leb b 57

abbrev pub is_ascii_hexdigit : ℕ → Bool
is_ascii_hexdigit b = is_ascii_digit b || leb 65 b && leb b 70 || leb 97 b && leb b 102

unfoldable pub is_valid_host_code : Bytes → Bool
is_valid_host_code s = length s == 4 && all is_ascii_hexdigit s

unfoldable pub is_valid_hex_n : Bytes → ℕ → Bool
is_valid_hex_n s n = length s == n && all is_ascii_hexdigit s

pub data PidSubclass : Type 0 where
  regular regular_extended anchor hookwall_cp infrastructure_routing pending : PidSubclass

pub record PidParts : Type 0 where
  pub role : Bytes
  pub region : ℕ
  pub host_code : Bytes
  pub activity : Bytes
  pub wave : Bytes
  pub process_tag : Option Bytes
  pub nonce : Option Bytes

pub record AnchorPidParts : Type 0 where
  pub role : Bytes
  pub date : Bytes

pub data ParsedPid : Type 0 where
  canonical : PidParts → ParsedPid
  dated : AnchorPidParts → ParsedPid

abbrev pub marker : Bytes
marker = bytes "-PID-"

-- `str::rfind`: the index of the last occurrence.
unfoldable pub rfind : Bytes → Bytes → Option ℕ
unfolding starts_with
rfind [] p = if starts_with [] p then some 0 else none
rfind (c ∷ s) p = elim (rfind s p) [
  | some i ↦ some (suc i)
  | none ↦ if starts_with (c ∷ s) p then some 0 else none
]

-- `YYYY-MM-DD`, digits and dashes only; the ranges of the month and the day are not looked at.
unfoldable pub date_ok : Bytes → Bool
date_ok tail =
    length tail == 10
    && get_or tail 4 0 == b'-'
    && get_or tail 7 0 == b'-'
    && all is_ascii_digit (take 4 tail)
    && all is_ascii_digit (take 2 (drop 5 tail))
    && all is_ascii_digit (take 2 (drop 8 tail))

unfoldable pub region_host : Bytes → Result PidErr (ℕ × Bytes)
unfolding is_valid_region is_valid_host_code
region_host [] = err malformed_format
region_host (region ∷ host_code) =
    guard (length host_code == 4) malformed_format
    >> guard (is_valid_region region) invalid_region
    >> guard (is_valid_host_code host_code) invalid_host_code
    >> ok (region, host_code)

-- A block is a letter and `n` hexadecimal digits, which it returns.
unfoldable pub block : ℕ → ℕ → PidErr → Bytes → Result PidErr Bytes
unfolding is_valid_hex_n
block letter n e [] = err e
block letter n e (c ∷ digits) = guard (c == letter && is_valid_hex_n digits n) e >> ok digits

unfoldable pub parse_parts : Bytes → List Bytes → Result PidErr ParsedPid
unfolding region_host block
parse_parts role (first ∷ activity_block ∷ wave_block ∷ []) = region_host first >>= λ place.
    block b'A' 2 invalid_activity activity_block >>= λ activity.
    block b'W' 3 invalid_wave wave_block >>= λ wave. ok (
      canonical record {
        role = role;
        region = place.0;
        host_code = place.1;
        activity = activity;
        wave = wave;
        process_tag = none;
        nonce = none;
      })
parse_parts role (first ∷ activity_block ∷ wave_block ∷ process_block ∷ nonce_block ∷ []) =
    region_host first >>= λ place. block b'A' 2 invalid_activity activity_block >>= λ activity.
    block b'W' 3 invalid_wave wave_block >>= λ wave.
    block b'P' 2 invalid_process process_block >>= λ process_tag.
    block b'N' 5 invalid_nonce nonce_block >>= λ nonce. ok (
      canonical record {
        role = role;
        region = place.0;
        host_code = place.1;
        activity = activity;
        wave = wave;
        process_tag = some process_tag;
        nonce = some nonce;
      })
parse_parts role _ = err malformed_format

unfoldable pub parse_tail : Bytes → Bytes → Result PidErr ParsedPid
unfolding date_ok split parse_parts
parse_tail role tail =
    if date_ok tail
    then ok (dated record { role = role; date = tail })
    else parse_parts role (split tail)

unfoldable pub at_marker : Bytes → Option ℕ → Result PidErr ParsedPid
unfolding parse_tail
at_marker pid none = err malformed_format
at_marker pid (some idx) = parse_tail (take idx pid) (drop (idx + 5) pid)

unfoldable pub parse_pid : Bytes → Result PidErr ParsedPid
unfolding at_marker rfind
parse_pid pid = at_marker pid (rfind pid marker)

abbrev pub role_of : ParsedPid → Bytes
role_of (canonical p) = p.role
role_of (dated p) = p.role

unfoldable pub validate_pid : Bytes → Bool → Result PidErr (Unit {0})
unfolding parse_pid is_valid_role
validate_pid pid strict_role = parse_pid pid >>= λ parsed.
    guard (not strict_role || is_valid_role (role_of parsed)) unknown_role

unfoldable pub classify_parts : ParsedPid → PidSubclass
classify_parts (dated p) = anchor
classify_parts (canonical p) = elim p.process_tag [
  | none ↦ regular
  | some t ↦ elim p.nonce [ none ↦ regular | some n ↦ regular_extended ]
]

unfoldable pub classify_subclass : Bytes → PidSubclass
unfolding parse_pid classify_parts
classify_subclass pid = elim (parse_pid pid) [ ok parsed ↦ classify_parts parsed | err e ↦ pending ]

unfoldable pub same_subclass : PidSubclass → PidSubclass → Bool
same_subclass regular regular = true
same_subclass regular_extended regular_extended = true
same_subclass anchor anchor = true
same_subclass hookwall_cp hookwall_cp = true
same_subclass infrastructure_routing infrastructure_routing = true
same_subclass pending pending = true
same_subclass _ _ = false

unfoldable pub is_in_subclass : Bytes → PidSubclass → Bool
unfolding classify_subclass same_subclass
is_in_subclass pid sub =
    same_subclass (classify_subclass pid) sub && not (same_subclass sub pending)

unfoldable pub validate_subclass : Bytes → Result PidErr PidSubclass
unfolding validate_pid classify_subclass
validate_subclass pid = validate_pid pid false >> ok (classify_subclass pid)

unfoldable pub mint_pid : Bytes → ℕ → Bytes → Bytes → Bytes → Result PidErr Bytes
unfolding is_valid_region is_valid_host_code is_valid_hex_n
mint_pid role region host_code activity wave =
    guard (is_valid_region region) invalid_region
    >> guard (is_valid_host_code host_code) invalid_host_code
    >> guard (is_valid_hex_n activity 2) invalid_activity
    >> guard (is_valid_hex_n wave 3) invalid_wave
    >> ok (
        role
        ++ (marker ++ (region ∷ host_code ++ (bytes "-A" ++ (activity ++ (bytes "-W" ++ wave))))))

unfoldable pub mint_pid_extended :
    Bytes → ℕ → Bytes → Bytes → Bytes → Bytes → Bytes → Result PidErr Bytes
unfolding mint_pid is_valid_hex_n
mint_pid_extended role region host_code activity wave process_tag nonce =
    mint_pid role region host_code activity wave >>= λ s.
    guard (is_valid_hex_n process_tag 2) invalid_process
    >> guard (is_valid_hex_n nonce 5) invalid_nonce
    >> ok (s ++ (bytes "-P" ++ (process_tag ++ (bytes "-N" ++ nonce))))

unfoldable pub mint_anchor_pid : Bytes → Bytes → Result PidErr Bytes
unfolding date_ok
mint_anchor_pid role date_yyyy_mm_dd =
    guard (date_ok date_yyyy_mm_dd) malformed_format >> ok (role ++ (marker ++ date_yyyy_mm_dd))

unfoldable pub hex_byte : ℕ → Bytes
hex_byte b = hex_digit (b / 16) ∷ hex_digit (b % 16) ∷ []

abbrev pub hex_bytes : Bytes → Bytes
unfolding hex_byte
hex_bytes [] = []
hex_bytes (b ∷ out) = hex_byte b ++ hex_bytes out

unfoldable pub pid_fingerprint_sha16 : (Bytes → Bytes) → Bytes → Bytes
pid_fingerprint_sha16 sha256 pid = hex_bytes (take 8 (sha256 pid))
