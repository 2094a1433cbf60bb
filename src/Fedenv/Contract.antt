-- ===== src/Fedenv/Contract.antt =====
-- What the contract of envelope/fedenv.rs admits.
use asolaria_os.Prelude.{
  ℕ, ◌≤◌, ◌≡◌, ◌≢◌, ◌↔◌, refl, map, All, Bytes, is_empty, join, hex_text, length, take, all, any,
  starts_with, none, some, true, false, not, ◌&&◌, leb, ltb, Bool, Result, ok, err, ◌>>◌, guard,
}
use asolaria_os.Fedenv.{
  max_payload_bytes, target_prefixes, malformed, unresolvable_target, payload_too_large,
  expired_cosign, row_hash_mismatch, FedenvView, required, cube_47d_ok, chars_count, parse_u32,
  ttl_ok, lower_hex, is_hex16, hashed_row, row_hash_ok, window_ok, validate, resolve_target,
}
use asolaria_os.Fedenv.Fields.{IsOctal, single}

-- The contract in words of its own: every field there, a target that resolves, a payload of at most
-- 64 KiB, six octal digits, five characters or more, a life of a second to a day, two hashes of 16
-- lower-case hexadecimal digits, a known window, and with a time stamp the hash of the row.
pub record IsAdmissible (sha256 : Bytes → Bytes) (env : FedenvView) : Type 0 where
  pub present : any is_empty (required env) ≡ false
  pub resolvable : resolve_target env.target ≢ none
  pub payload_fits : length env.payload ≤ 65536
  pub cube : (ds : Bytes) × (length ds ≡ 6) × All IsOctal ds × (env.cube_47d ≡ join (map single ds))
  pub glyphs : 5 ≤ chars_count env.glyph_5
  pub life : (t : ℕ) × (parse_u32 env.ttl_seconds ≡ some t) × (1 ≤ t) × (t ≤ 86_400)
  pub row_hash_hex : (length env.row_hash ≡ 16) × (all lower_hex env.row_hash ≡ true)
  pub antecedents_hex : (length env.antecedents ≡ 16) × (all lower_hex env.antecedents ≡ true)
  pub window : window_ok env.cosign_token ≡ true
  pub hashed :
      (ts : Bytes)
      → env.ts ≡ some ts
      → env.row_hash ≡ hex_text (take 8 (sha256 (hashed_row env ts)))

then_iff :
    {E : Type 0} (m : Result E (Unit {0})) (b : Bool) (e : E)
    → ((m >> guard b e) ≡ ok tt) ↔ ((m ≡ ok tt) × (b ≡ true))
then_iff (ok u) true e = (λ h. (refl, refl), λ h. refl)
then_iff (ok u) false e = (λ h. cc, λ (h, k). cc)
then_iff (err r) b e = (λ h. cc, λ (h, k). cc)

guard_iff : {E : Type 0} (b : Bool) (e : E) → (guard b e ≡ ok tt) ↔ (b ≡ true)
guard_iff true e = (λ h. refl, λ h. refl)
guard_iff false e = (λ h. cc, λ h. cc)

-- Nine guards in a row.
nine_iff :
    {E : Type 0} (a b c d f g h i j : Bool) (ea eb ec ed ef eg eh ei ej : E)
    → ((guard a ea
          >> guard b eb
          >> guard c ec
          >> guard d ed
          >> guard f ef
          >> guard g eg
          >> guard h eh
          >> guard i ei
          >> guard j ej)
        ≡ ok tt)
      ↔ ((a ≡ true)
          × (b ≡ true)
          × (c ≡ true)
          × (d ≡ true)
          × (f ≡ true)
          × (g ≡ true)
          × (h ≡ true)
          × (i ≡ true)
          × (j ≡ true))
nine_iff a b c d f g h i j ea eb ec ed ef eg eh ei ej =
    let m1 = guard_iff a ea in
    let m2 = then_iff (guard a ea) b eb in
    let m3 = then_iff (guard a ea >> guard b eb) c ec in
    let m4 = then_iff (guard a ea >> guard b eb >> guard c ec) d ed in
    let m5 = then_iff (guard a ea >> guard b eb >> guard c ec >> guard d ed) f ef in
    let m6 = then_iff (guard a ea >> guard b eb >> guard c ec >> guard d ed >> guard f ef) g eg in
    let m7 =
      then_iff (guard a ea >> guard b eb >> guard c ec >> guard d ed >> guard f ef >> guard g eg) h
        eh in
    let m8 =
      then_iff
        (guard a ea
          >> guard b eb
          >> guard c ec
          >> guard d ed
          >> guard f ef
          >> guard g eg
          >> guard h eh)
        i ei in
    let m9 =
      then_iff
        (guard a ea
          >> guard b eb
          >> guard c ec
          >> guard d ed
          >> guard f ef
          >> guard g eg
          >> guard h eh
          >> guard i ei)
        j ej in
    (
      λ e.
          let (e8, j') = m9.0 e in
          let (e7, i') = m8.0 e8 in
          let (e6, h') = m7.0 e7 in
          let (e5, g') = m6.0 e6 in
          let (e4, f') = m5.0 e5 in
          let (e3, d') = m4.0 e4 in
          let (e2, c') = m3.0 e3 in
          let (e1, b') = m2.0 e2 in (m1.0 e1, b', c', d', f', g', h', i', j'),
      λ (a', b', c', d', f', g', h', i', j'). m9.1 (
        m8.1 (m7.1 (m6.1 (m5.1 (m4.1 (m3.1 (m2.1 (m1.1 a', b'), c'), d'), f'), g'), h'), i'),
        j',
      ),
    )

-- The ten rules hold together exactly if validation succeeds.
abbrev pub Passes : (Bytes → Bytes) → FedenvView → Type 0
Passes sha256 env =
    (not (any is_empty (required env)) ≡ true)
    × (any (starts_with env.target) target_prefixes ≡ true)
    × (leb (length env.payload) max_payload_bytes ≡ true)
    × (cube_47d_ok env.cube_47d ≡ true)
    × (not (ltb (chars_count env.glyph_5) 5) ≡ true)
    × (ttl_ok env.ttl_seconds ≡ true)
    × (is_hex16 env.row_hash && is_hex16 env.antecedents ≡ true)
    × (window_ok env.cosign_token ≡ true)
    × (row_hash_ok sha256 env env.ts ≡ true)

pub validate-Passes :
    (sha256 : Bytes → Bytes) (env : FedenvView) → (validate sha256 env ≡ ok tt) ↔ Passes sha256 env
unfolding validate
validate-Passes sha256 env =
    nine_iff _ _ _ _ _ _ _ _ _ malformed unresolvable_target payload_too_large malformed malformed
      malformed malformed expired_cosign row_hash_mismatch
