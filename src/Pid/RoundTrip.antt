-- ===== src/Pid/RoundTrip.antt =====
-- The parser of pid/mod.rs against its three minters.
use asolaria_os.Prelude.{
  join, join-split, split, ℕ, ◌+◌, ◌≡◌, ◌↔◌, refl, ap, ◌∙◌, sym, inl, inr, List, [], ◌∷◌, ◌++◌,
  Bytes, bytes, take, drop, Option, none, some, Option-cases, Bool-cases, true, Result, ok, err,
  arith,
}
use mathlib.Core.List.{append_assoc}
use asolaria_os.Pid.{
  marker, rfind, is_valid_hex_n, PidErr, malformed_format, invalid_activity, invalid_wave,
  invalid_process, invalid_nonce, ParsedPid, canonical, dated, date_ok, region_host, block,
  parse_parts, parse_tail, at_marker, parse_pid, mint_pid, mint_pid_extended, mint_anchor_pid,
}
use asolaria_os.Pid.Scan.{rfind_sound}
use asolaria_os.Pid.Blocks.{
  block_iff, region_host_iff, mint_pid_iff, bind_ok, Fields, place, suffix, append_nil,
}
use asolaria_os.Pid.Reading.{parse-short, parse-extended, parse-dated}

-- Minting the fields that a parse returns.
unfoldable pub mint : ParsedPid → Result PidErr Bytes
unfolding mint_pid mint_pid_extended mint_anchor_pid
mint (dated p) = mint_anchor_pid p.role p.date
mint (canonical p) = elim p.process_tag [
  | none ↦ elim p.nonce [
    | none ↦ mint_pid p.role p.region p.host_code p.activity p.wave
    | some nonce ↦ err malformed_format
  ]
  | some process_tag ↦ elim p.nonce [
    | none ↦ err malformed_format
    | some nonce ↦ mint_pid_extended p.role p.region p.host_code p.activity p.wave process_tag nonce
  ]
]

reassociate :
    (role host activity wave rest : Bytes) (region : ℕ)
    → role
        ++ (marker ++ (region ∷ host ++ (bytes "-A" ++ (activity ++ (bytes "-W" ++ wave)))))
        ++ rest
      ≡ role ++ (marker ++ place region host activity wave rest)
reassociate role host activity wave rest region = simp append_assoc refl

parse-mint_fields :
    (role : Bytes) (region : ℕ) (host activity wave : Bytes) (process_tag nonce : Option Bytes)
    (pid : Bytes)
    → let p = canonical record {
      role = role;
      region = region;
      host_code = host;
      activity = activity;
      wave = wave;
      process_tag = process_tag;
      nonce = nonce;
    } in
      mint p ≡ ok pid → parse_pid pid ≡ ok p
unfolding mint mint_pid_extended
parse-mint_fields role region host activity wave none none pid e =
    let (r, h, a, w, q) = (mint_pid_iff role host activity wave pid region).0 e in
    ap parse_pid (sym q ∙ rw (append_nil wave) refl)
    ∙ parse-short role region host activity wave (r, h, a, w)
parse-mint_fields role region host activity wave none (some nonce) pid e = cc
parse-mint_fields role region host activity wave (some process_tag) none pid e = cc
parse-mint_fields role region host activity wave (some process_tag) (some nonce) pid e =
    let (s, minted, rest) = bind_ok (mint_pid role region host activity wave) _ pid e in
    let (r, h, a, w, q) = (mint_pid_iff role host activity wave s region).0 minted in
    let (p, n, whole) : (is_valid_hex_n process_tag 2 ≡ true)
        × (is_valid_hex_n nonce 5 ≡ true)
        × (s ++ (bytes "-P" ++ (process_tag ++ (bytes "-N" ++ nonce))) ≡ pid) =
      ground (arith, rest) in
    ap parse_pid (
      sym whole
      ∙ ap (λ (u : Bytes). u ++ suffix process_tag nonce) (sym q)
      ∙ reassociate role host activity wave (suffix process_tag nonce) region)
    ∙ parse-extended role region host activity wave process_tag nonce (r, h, a, w) p n

parse-mint : (parsed : ParsedPid) (pid : Bytes) → mint parsed ≡ ok pid → parse_pid pid ≡ ok parsed
unfolding mint mint_anchor_pid
parse-mint (canonical p) pid e =
    parse-mint_fields p.role p.region p.host_code p.activity p.wave p.process_tag p.nonce pid e
parse-mint (dated p) pid e =
    let (d, q) : (date_ok p.date ≡ true) × (p.role ++ (marker ++ p.date) ≡ pid) = ground arith in
    ap parse_pid (sym q) ∙ parse-dated p.role p.date d

mint-place :
    (role : Bytes) (region : ℕ) (host activity wave : Bytes)
    → Fields region host activity wave
    → mint_pid role region host activity wave
      ≡ ok (role ++ (marker ++ join ((region ∷ host) ∷ (b'A' ∷ activity) ∷ (b'W' ∷ wave) ∷ [])))
mint-place role region host activity wave (r, h, a, w) =
    (mint_pid_iff role host activity wave _ region).1 (r, h, a, w, refl)

mint-short :
    (role f x y : Bytes) (region : ℕ) (host activity wave : Bytes) (parsed : ParsedPid)
    → region_host f ≡ ok (region, host)
    → block b'A' 2 invalid_activity x ≡ ok activity
    → block b'W' 3 invalid_wave y ≡ ok wave
    → canonical record {
      role = role;
      region = region;
      host_code = host;
      activity = activity;
      wave = wave;
      process_tag = none;
      nonce = none;
    }
      ≡ parsed
    → mint parsed ≡ ok (role ++ (marker ++ join (f ∷ x ∷ y ∷ [])))
unfolding mint
mint-short role f x y region host activity wave parsed p0 p1 p2 e =
    let (f', r, h) = (region_host_iff f host region).0 p0 in
    let (x', a) = (block_iff b'A' 2 invalid_activity x activity).0 p1 in
    let (y', w) = (block_iff b'W' 3 invalid_wave y wave).0 p2 in
    rw (sym e, f', x', y') (mint-place role region host activity wave (r, h, a, w))

mint-extended :
    (role f x y u v : Bytes) (region : ℕ) (host activity wave process_tag nonce : Bytes)
    (parsed : ParsedPid)
    → region_host f ≡ ok (region, host)
    → block b'A' 2 invalid_activity x ≡ ok activity
    → block b'W' 3 invalid_wave y ≡ ok wave
    → block b'P' 2 invalid_process u ≡ ok process_tag
    → block b'N' 5 invalid_nonce v ≡ ok nonce
    → canonical record {
      role = role;
      region = region;
      host_code = host;
      activity = activity;
      wave = wave;
      process_tag = some process_tag;
      nonce = some nonce;
    }
      ≡ parsed
    → mint parsed ≡ ok (role ++ (marker ++ join (f ∷ x ∷ y ∷ u ∷ v ∷ [])))
unfolding mint mint_pid_extended
mint-extended role f x y u v region host activity wave process_tag nonce parsed p0 p1 p2 p3 p4 e =
    let (f', r, h) = (region_host_iff f host region).0 p0 in
    let (x', a) = (block_iff b'A' 2 invalid_activity x activity).0 p1 in
    let (y', w) = (block_iff b'W' 3 invalid_wave y wave).0 p2 in
    let (u', p) = (block_iff b'P' 2 invalid_process u process_tag).0 p3 in
    let (v', n) = (block_iff b'N' 5 invalid_nonce v nonce).0 p4 in
    rw (sym e, f', x', y', u', v', mint-place role region host activity wave (r, h, a, w), p, n)
      (simp append_assoc refl)

mint-parse_parts :
    (role : Bytes) (parts : List Bytes) (parsed : ParsedPid)
    → parse_parts role parts ≡ ok parsed
    → mint parsed ≡ ok (role ++ (marker ++ join parts))
unfolding parse_parts
mint-parse_parts role [] parsed e = cc
mint-parse_parts role (f ∷ []) parsed e = cc
mint-parse_parts role (f ∷ a ∷ []) parsed e = cc
mint-parse_parts role (f ∷ a ∷ w ∷ []) parsed e =
    let (place_, p0, e) = bind_ok (region_host f) _ parsed e in
    let (activity, p1, e) = bind_ok (block b'A' 2 invalid_activity a) _ parsed e in
    let (wave, p2, e) = bind_ok (block b'W' 3 invalid_wave w) _ parsed e in
    mint-short role f a w place_.0 place_.1 activity wave parsed p0 p1 p2 (cc e)
mint-parse_parts role (f ∷ a ∷ w ∷ p ∷ []) parsed e = cc
mint-parse_parts role (f ∷ a ∷ w ∷ p ∷ n ∷ []) parsed e =
    let (place_, p0, e) = bind_ok (region_host f) _ parsed e in
    let (activity, p1, e) = bind_ok (block b'A' 2 invalid_activity a) _ parsed e in
    let (wave, p2, e) = bind_ok (block b'W' 3 invalid_wave w) _ parsed e in
    let (process_tag, p3, e) = bind_ok (block b'P' 2 invalid_process p) _ parsed e in
    let (nonce, p4, e) = bind_ok (block b'N' 5 invalid_nonce n) _ parsed e in
    mint-extended role f a w p n place_.0 place_.1 activity wave process_tag nonce parsed p0 p1 p2
      p3 p4 (cc e)
mint-parse_parts role (f ∷ a ∷ w ∷ p ∷ n ∷ x ∷ ps) parsed e = cc

mint-parse_tail :
    (role tail : Bytes) (parsed : ParsedPid)
    → parse_tail role tail ≡ ok parsed
    → mint parsed ≡ ok (role ++ (marker ++ tail))
unfolding parse_tail mint mint_anchor_pid
mint-parse_tail role tail parsed e = elim (Bool-cases (date_ok tail)) [
  | inl date ↦
      let e' : dated record { role = role; date = tail } ≡ parsed = cc (rw date at e) in
      rw (sym e', date) refl
  | inr other ↦
      mint-parse_parts role (split tail) parsed (rw other at e)
      ∙ ap (λ (u : Bytes). ok (role ++ (marker ++ u))) (join-split tail)
]

mint-parse : (parsed : ParsedPid) (pid : Bytes) → parse_pid pid ≡ ok parsed → mint parsed ≡ ok pid
unfolding parse_pid at_marker
mint-parse parsed pid e = elim (Option-cases (rfind pid marker)) [
  | inl absent ↦ cc (rw absent at e)
  | inr (idx, found) ↦
      mint-parse_tail (take idx pid) (drop (idx + 5) pid) parsed
        (sym (ap (at_marker pid) found) ∙ e)
      ∙ ap (λ (u : Bytes). ok u) (sym (rfind_sound pid idx found))
]

-- A text is parsed to a result exactly if minting the result's fields gives the text, for every
-- text and every result: the three forms, whatever the role is.
pub parse_pid_iff :
    (parsed : ParsedPid) (pid : Bytes) → (parse_pid pid ≡ ok parsed) ↔ (mint parsed ≡ ok pid)
parse_pid_iff parsed pid = (mint-parse parsed pid, parse-mint parsed pid)
