-- ===== src/Pid/Reading.antt =====
-- What the parser of pid/mod.rs returns on a text in one of the three forms.
use asolaria_os.Prelude.{
  split_last, split_part, split, ℕ, suc, ◌+◌, ◌≡◌, ◌≢◌, refl, ap, ◌∙◌, List, [], ◌∷◌, ◌++◌, Bytes,
  length, drop, take-append_length, none, some, true, ok, arith,
}
use asolaria_os.Pid.{
  marker, is_valid_hex_n, invalid_activity, invalid_wave, invalid_process, invalid_nonce, canonical,
  dated, date_ok, parse_parts, parse_tail, at_marker, parse_pid,
}
use asolaria_os.Pid.Scan.{
  Unmarked, Unmarked-skip, Unmarked-skips, Unmarked-dash, Unmarked-process, rfind_last,
}
use asolaria_os.Pid.Blocks.{
  hexdigit-ne, hex_dashless, hex_n_iff, block_iff, region_host_iff, region-ne, Fields, place,
  suffix, hex_n_dashless, host_dashless, append_nil,
}
use asolaria_os.Pid.Scan.{Unmarked-plain}
use asolaria_os.Pid.Dates.{date_ok-digit, date_dashes, date-Unmarked}

drop_marked : (role t : Bytes) → drop (length role + 5) (role ++ (marker ++ t)) ≡ t
drop_marked [] t = refl
drop_marked (x ∷ role) t =
    let n : suc (length role) + 5 ≡ suc (length role + 5) = omega arith in rw n (drop_marked role t)

-- The tail after the last marker is what is parsed.
parse_marked :
    (role : Bytes) (c : ℕ) (s : Bytes)
    → c ≢ b'P'
    → Unmarked (c ∷ s)
    → parse_pid (role ++ (marker ++ c ∷ s)) ≡ parse_tail role (c ∷ s)
unfolding parse_pid at_marker
parse_marked role c s h k =
    ap (at_marker (role ++ (marker ++ c ∷ s))) (rfind_last role c s h k)
    ∙ rw (drop_marked role (c ∷ s), take-append_length role (marker ++ c ∷ s)) refl

place-Unmarked :
    (region : ℕ) (host activity wave rest : Bytes)
    → Fields region host activity wave
    → Unmarked rest
    → Unmarked (place region host activity wave rest)
place-Unmarked region host activity wave rest (r, h, a, w) k =
    Unmarked-skip region _ (region-ne region r).1 (
      Unmarked-skips host _ (host_dashless host h) (
        Unmarked-dash b'A' _ (omega arith) (
          Unmarked-skip b'A' _ (omega arith) (
            Unmarked-skips activity _ (hex_n_dashless activity 2 a) (
              Unmarked-dash b'W' _ (omega arith) (
                Unmarked-skip b'W' _ (omega arith)
                  (Unmarked-skips wave rest (hex_n_dashless wave 3 w) k)))))))

suffix-Unmarked :
    (process_tag nonce : Bytes)
    → is_valid_hex_n process_tag 2 ≡ true
    → is_valid_hex_n nonce 5 ≡ true
    → Unmarked (suffix process_tag nonce)
suffix-Unmarked [] nonce p n = absurd (omega (arith, ((hex_n_iff [] 2).0 p).0))
suffix-Unmarked (c ∷ process_tag) nonce p n =
    let (len, digits) = (hex_n_iff (c ∷ process_tag) 2).0 p in
    Unmarked-process c _ (ground (arith, hexdigit-ne c)) (
      Unmarked-skips (c ∷ process_tag) _ (hex_dashless (c ∷ process_tag) digits) (
        Unmarked-dash b'N' nonce (omega arith) (
          Unmarked-skip b'N' nonce (omega arith)
            (Unmarked-plain nonce (hex_n_dashless nonce 5 n)))))

split-place :
    (region : ℕ) (host activity wave rest : Bytes) (ps : List Bytes)
    → Fields region host activity wave
    → split (b'W' ∷ wave ++ rest) ≡ (b'W' ∷ wave) ∷ ps
    → split (place region host activity wave rest)
      ≡ (region ∷ host) ∷ (b'A' ∷ activity) ∷ (b'W' ∷ wave) ∷ ps
split-place region host activity wave rest ps (r, h, a, w) k =
    split_part (region ∷ host) _ ((region-ne region r).1, host_dashless host h)
    ∙ ap (◌∷◌ (region ∷ host)) (
        split_part (b'A' ∷ activity) _ (omega arith, hex_n_dashless activity 2 a)
        ∙ ap (◌∷◌ (b'A' ∷ activity)) k)

parse_place :
    (role : Bytes) (region : ℕ) (host activity wave rest : Bytes)
    → Fields region host activity wave
    → Unmarked rest
    → parse_pid (role ++ (marker ++ place region host activity wave rest))
      ≡ parse_parts role (split (place region host activity wave rest))
unfolding parse_tail
parse_place role region host activity wave rest f k =
    parse_marked role region _ (region-ne region f.0).0
      (place-Unmarked region host activity wave rest f k)
    ∙ rw
        (date_ok-digit region (host ++ (b'-' ∷ b'A' ∷ activity ++ (b'-' ∷ b'W' ∷ wave ++ rest)))
          (region-ne region f.0).2)
        refl

pub parse-short :
    (role : Bytes) (region : ℕ) (host activity wave : Bytes)
    → Fields region host activity wave
    → parse_pid (role ++ (marker ++ place region host activity wave []))
      ≡ ok (
          canonical record {
            role = role;
            region = region;
            host_code = host;
            activity = activity;
            wave = wave;
            process_tag = none;
            nonce = none;
          })
unfolding parse_parts
parse-short role region host activity wave (r, h, a, w) =
    parse_place role region host activity wave [] (r, h, a, w) (Unmarked-plain [] tt)
    ∙ rw
        (
          split-place region host activity wave [] [] (r, h, a, w)
              (rw (append_nil wave)
                (split_last (b'W' ∷ wave) (omega arith, hex_n_dashless wave 3 w))),
          (region_host_iff (region ∷ host) host region).1 (refl, r, h),
          (block_iff b'A' 2 invalid_activity (b'A' ∷ activity) activity).1 (refl, a),
          (block_iff b'W' 3 invalid_wave (b'W' ∷ wave) wave).1 (refl, w),
        )
        refl

pub parse-extended :
    (role : Bytes) (region : ℕ) (host activity wave process_tag nonce : Bytes)
    → Fields region host activity wave
    → is_valid_hex_n process_tag 2 ≡ true
    → is_valid_hex_n nonce 5 ≡ true
    → parse_pid (role ++ (marker ++ place region host activity wave (suffix process_tag nonce)))
      ≡ ok (
          canonical record {
            role = role;
            region = region;
            host_code = host;
            activity = activity;
            wave = wave;
            process_tag = some process_tag;
            nonce = some nonce;
          })
unfolding parse_parts
parse-extended role region host activity wave process_tag nonce (r, h, a, w) p n =
    parse_place role region host activity wave (suffix process_tag nonce) (r, h, a, w)
      (suffix-Unmarked process_tag nonce p n)
    ∙ rw
        (
          split-place region host activity wave (suffix process_tag nonce)
              ((b'P' ∷ process_tag) ∷ (b'N' ∷ nonce) ∷ []) (r, h, a, w)
              (split_part (b'W' ∷ wave) _ (omega arith, hex_n_dashless wave 3 w)
                ∙ ap (◌∷◌ (b'W' ∷ wave)) (
                    split_part (b'P' ∷ process_tag) _ (omega arith, hex_n_dashless process_tag 2 p)
                    ∙ ap (◌∷◌ (b'P' ∷ process_tag))
                        (split_last (b'N' ∷ nonce) (omega arith, hex_n_dashless nonce 5 n)))),
          (region_host_iff (region ∷ host) host region).1 (refl, r, h),
          (block_iff b'A' 2 invalid_activity (b'A' ∷ activity) activity).1 (refl, a),
          (block_iff b'W' 3 invalid_wave (b'W' ∷ wave) wave).1 (refl, w),
          (block_iff b'P' 2 invalid_process (b'P' ∷ process_tag) process_tag).1 (refl, p),
          (block_iff b'N' 5 invalid_nonce (b'N' ∷ nonce) nonce).1 (refl, n),
        )
        refl

date_first : (c : ℕ) (s : Bytes) → date_ok (c ∷ s) ≡ true → c ≢ b'P'
date_first c s h = let (n, x, y, a, b, d) = date_dashes (c ∷ s) h in ground arith

pub parse-dated :
    (role date : Bytes)
    → date_ok date ≡ true
    → parse_pid (role ++ (marker ++ date)) ≡ ok (dated record { role = role; date = date })
unfolding parse_tail
parse-dated role [] h = absurd (omega (arith, (date_dashes [] h).0))
parse-dated role (c ∷ date) h =
    parse_marked role c date (date_first c date h) (date-Unmarked (c ∷ date) h) ∙ rw h refl
