-- ===== src/Examples/Identifiers.antt =====
-- The process identifiers at concrete inputs.
use asolaria_os.Prelude.{◌≡◌, ◌↔◌, refl, bytes, split, same, starts_with, some, true, ok, err}
use asolaria_os.Pid.{
  ParsedPid, canonical, parse_pid, is_valid_role, validate_pid, unknown_role, rfind, parse_tail,
  at_marker, date_ok, parse_parts, region_host, block, is_valid_region, is_valid_host_code,
  is_valid_hex_n,
}
use asolaria_os.Pid.RoundTrip.{mint, parse_pid_iff}

abbrev acer : ParsedPid
acer = canonical record {
  role = bytes "ACER";
  region = b'H';
  host_code = bytes "740C";
  activity = bytes "07";
  wave = bytes "104";
  process_tag = some (bytes "00");
  nonce = some (bytes "00000");
}

parse_pid_iff_example :
    (parse_pid (bytes "ACER-PID-H740C-A07-W104-P00-N00000") ≡ ok acer)
    ↔ (mint acer ≡ ok (bytes "ACER-PID-H740C-A07-W104-P00-N00000"))
parse_pid_iff_example = parse_pid_iff acer (bytes "ACER-PID-H740C-A07-W104-P00-N00000")

parse_acer : parse_pid (bytes "ACER-PID-H740C-A07-W104-P00-N00000") ≡ ok acer
unfolding parse_pid at_marker rfind starts_with parse_tail date_ok parse_parts split region_host
    block is_valid_region is_valid_host_code is_valid_hex_n
parse_acer = refl

-- A role that is not known passes the parser, and is refused where the role is asked for.
strict_role : validate_pid (bytes "AETHER-CLAUDE-PID-G0049-A00-W001") true ≡ err unknown_role
unfolding validate_pid is_valid_role same parse_pid at_marker rfind starts_with parse_tail date_ok
    parse_parts split region_host block is_valid_region is_valid_host_code is_valid_hex_n
strict_role = refl
