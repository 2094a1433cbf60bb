-- ===== src/Examples/Contracts.antt =====
-- The application envelope at concrete inputs.
use asolaria_os.Prelude.{
  replicate, ◌≡◌, refl, Bytes, bytes, split, starts_with, contains, some, ok, arith,
}
use asolaria_os.Fedenv.{
  FedenvView, validate, cube_47d_ok, cube_segments, chars_count, ttl_ok, parse_u32, parse_digits,
  is_hex16, row_hash_ok, row_hash_matches, nibbles_match,
}
use asolaria_os.Fedenv.Shift.{shifted, validate-shifted}

-- A digest of 32 bytes.
abbrev sevens : Bytes → Bytes
sevens message = replicate 32 119

abbrev row : FedenvView
row = record {
  caller_pid = bytes "AGT-1";
  target = bytes "cli:engineering";
  verb = bytes "EVT-DISPATCH";
  payload = bytes "hello";
  back_address = bytes "pid:H740C";
  cube_47d = bytes "1-2-3-4-5-6";
  glyph_5 = bytes "ABCDE";
  cosign_token = bytes "ADMIN-OVERRIDE-OP-JESSE";
  ttl_seconds = bytes "60";
  antecedents = bytes "0000000000000000";
  row_hash = bytes "7777777777777777";
  ts = some (bytes "t");
}

row_accepted : validate sevens row ≡ ok tt
unfolding validate cube_47d_ok cube_segments split chars_count ttl_ok parse_u32 parse_digits
    is_hex16 row_hash_ok row_hash_matches nibbles_match starts_with contains
row_accepted = refl

validate-shifted_example : validate sevens (shifted row (bytes "EVT-DIS") (bytes "PATCH")) ≡ ok tt
validate-shifted_example =
    validate-shifted sevens row (bytes "EVT-DIS") (bytes "PATCH") refl refl (omega arith)
      row_accepted
