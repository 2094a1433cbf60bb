-- ===== src/Fedenv/Fields.antt =====
-- The field checks of envelope/fedenv.rs.
use asolaria_os.Prelude.{
  ℕ, zero, suc, ◌+◌, ◌-◌, ◌*◌, ◌/◌, ◌%◌, ◌^◌, ◌≤◌, ◌<◌, ◌≡◌, ◌≢◌, ◌↔◌, refl, ap, ◌∙◌, sym, inl, inr,
  List, [], ◌∷◌, ◌++◌, map, All, Bytes, join, join-split, split, split_last, split_part, hex_text,
  hex_digit, digits, decimal, length, length-append, length-take, take, all, some, Option-cases,
  Bool-cases, ◌==◌, ==_iff, ==_ne, true, false, not, ◌&&◌, ◌||◌, leb, ltb, if◌then◌else◌, arith,
  u32_mod,
}
use native.Mathlib.Nat.{pow-suc}
use asolaria_os.Fedenv.{
  octal, cube_segments, cube_47d_ok, parse_digits, parse_u32, ttl_ok, lower_hex, is_hex16,
  nibbles_match, row_hash_matches,
}

abbrev pub IsOctal : ℕ → Type 0
IsOctal d = (b'0' ≤ d) × (d ≤ b'7')

abbrev pub single : ℕ → Bytes
single d = d ∷ []

octal_iff : (seg : Bytes) → (octal seg ≡ true) ↔ ((d : ℕ) × (seg ≡ single d) × IsOctal d)
octal_iff [] = (λ h. cc, λ (d, e, o). cc)
octal_iff (d ∷ []) =
    (λ h. (d, refl, (ground arith, ground arith)), λ (c, e, o). let k : d ≡ c = cc in ground arith)
octal_iff (d ∷ c ∷ seg) = (λ h. cc, λ (b, e, o). cc)

cube_segments_sound :
    (n : ℕ) (segs : List Bytes)
    → cube_segments n segs ≡ true
    → (ds : Bytes) × (n + length ds ≡ 6) × All IsOctal ds × (segs ≡ map single ds)
unfolding cube_segments
cube_segments_sound n [] h = ([], ground arith, tt, refl)
cube_segments_sound n (seg ∷ segs) h = elim (Bool-cases (octal seg)) [
  | inr no_ ↦ cc (rw no_ at h)
  | inl yes_ ↦
      let (d, e, o) = (octal_iff seg).0 yes_ in
      let (ds, k, os, es) = cube_segments_sound (suc n) segs (rw yes_ at h) in
      (d ∷ ds, omega (arith, k), (o, os), cc)
]

cube_segments_complete :
    (n : ℕ) (ds : Bytes)
    → n + length ds ≡ 6
    → All IsOctal ds
    → cube_segments n (map single ds) ≡ true
unfolding cube_segments
cube_segments_complete n [] k os = ground arith
cube_segments_complete n (d ∷ ds) k (o, os) =
    rw ((octal_iff (single d)).1 (d, refl, o))
      (cube_segments_complete (suc n) ds (omega (arith, k)) os)

split-digits :
    (ds : Bytes) → 1 ≤ length ds → All IsOctal ds → split (join (map single ds)) ≡ map single ds
split-digits [] n os = absurd (omega arith)
split-digits (d ∷ []) n (o, os) = split_last (single d) (omega (arith, o), tt)
split-digits (d ∷ c ∷ ds) n (o, os) =
    split_part (single d) (join (map single (c ∷ ds))) (omega (arith, o), tt)
    ∙ ap (◌∷◌ (single d)) (split-digits (c ∷ ds) (omega arith) os)

pub cube_47d_ok_lem :
    (s : Bytes)
    → (cube_47d_ok s ≡ true)
      ↔ ((ds : Bytes) × (length ds ≡ 6) × All IsOctal ds × (s ≡ join (map single ds)))
unfolding cube_47d_ok
cube_47d_ok_lem s = (
  λ h.
      let (ds, k, os, e) = cube_segments_sound 0 (split s) h in
      (ds, omega (arith, k), os, sym (join-split s) ∙ ap join e),
  λ (ds, k, os, e).
      rw (e, split-digits ds (omega (arith, k)) os)
        (cube_segments_complete 0 ds (omega (arith, k)) os),
)

nibbles_match_iff :
    (digest expected : Bytes)
    → length expected ≡ 2 * length digest
    → (nibbles_match digest expected ≡ true) ↔ (expected ≡ hex_text digest)
unfolding nibbles_match
nibbles_match_iff [] [] n = (λ h. refl, λ h. refl)
nibbles_match_iff [] (h ∷ s) n = absurd (omega arith)
nibbles_match_iff (b ∷ digest) [] n = absurd (omega arith)
nibbles_match_iff (b ∷ digest) (h ∷ []) n = absurd (omega arith)
nibbles_match_iff (b ∷ digest) (h ∷ l ∷ s) n =
    let (to, from) = nibbles_match_iff digest s (omega arith) in
    elim (Bool-cases (not (h == hex_digit (b / 16)) || not (l == hex_digit (b % 16)))) [
      | inl wrong ↦ rw wrong (λ e. cc, λ e. absurd (ground arith))
      | inr right ↦ rw right (
        λ e. cc (
          to e,
          (==_iff h (hex_digit (b / 16))).0 (ground arith),
          (==_iff l (hex_digit (b % 16))).0 (ground arith),
        ),
        λ e. from (cc),
      )
    ]

pub row_hash_matches_lem :
    (digest expected : Bytes)
    → 8 ≤ length digest
    → length expected ≡ 16
    → (row_hash_matches digest expected ≡ true) ↔ (expected ≡ hex_text (take 8 digest))
unfolding row_hash_matches
row_hash_matches_lem digest expected n k =
    let a : (length expected == 16) ≡ true = (==_iff _ _).1 k in
    let b : ltb (length digest) 8 ≡ false = ground (arith, n) in
    rw (a, b)
      (nibbles_match_iff (take 8 digest) expected (omega (arith, n, k, length-take 8 digest)))

pub is_hex16_lem : (s : Bytes) → (is_hex16 s ≡ true) ↔ ((length s ≡ 16) × (all lower_hex s ≡ true))
unfolding is_hex16
is_hex16_lem s = ground arith

pub ttl_ok_lem :
    (s : Bytes) → (ttl_ok s ≡ true) ↔ ((t : ℕ) × (parse_u32 s ≡ some t) × (1 ≤ t) × (t ≤ 86_400))
unfolding ttl_ok
ttl_ok_lem s = elim (Option-cases (parse_u32 s)) [
  | inl bad ↦ rw bad (λ h. cc, λ (t, e, a, b). cc)
  | inr (t, good) ↦ rw good (
    λ h. (t, refl, ground arith, ground arith),
    λ (u, e, a, b). let k : t ≡ u = cc in ground arith,
  )
]

parse_digits-append :
    (acc d : ℕ) (xs : Bytes) (v : ℕ)
    → parse_digits acc xs ≡ some v
    → d < 10
    → v * 10 + d < u32_mod
    → parse_digits acc (xs ++ (48 + d) ∷ []) ≡ some (v * 10 + d)
unfolding parse_digits
parse_digits-append acc d [] v e k m = ground (arith)
parse_digits-append acc d (x ∷ xs) v e k m =
    elim (Bool-cases (leb 48 x && leb x 57 && ltb (acc * 10 + (x - 48)) u32_mod)) [
      | inl fits ↦ rw fits (parse_digits-append (acc * 10 + (x - 48)) d xs v (rw fits at e) k m)
      | inr no_ ↦ cc (rw no_ at e)
    ]

parse_digits-low : (n : ℕ) → ltb n 10 ≡ true → parse_digits 0 ((48 + n % 10) ∷ []) ≡ some n
unfolding parse_digits
parse_digits-low n small =
    parse_digits-append 0 (n % 10) [] 0 refl (omega arith) (omega arith)
    ∙ ap (λ (x : ℕ). some x) (ground arith)

parse_digits-digits :
    (fuel n : ℕ) → n < 10 ^ suc fuel → n < u32_mod → parse_digits 0 (digits (suc fuel) n) ≡ some n
unfolding digits
parse_digits-digits zero n h k = elim (Bool-cases (ltb n 10)) [
  | inl small ↦ rw small (parse_digits-low n small)
  | inr big ↦ absurd (ground arith)
]
parse_digits-digits (suc fuel) n h k = elim (Bool-cases (ltb n 10)) [
  | inl small ↦ rw small (parse_digits-low n small)
  | inr big ↦
      let e : 10 ^ suc (suc fuel) ≡ 10 ^ suc fuel * 10 = pow-suc 10 (suc fuel) in
      let high = parse_digits-digits fuel (n / 10) (omega arith) (omega arith) in
      rw big (
        parse_digits-append 0 (n % 10) (digits (suc fuel) (n / 10)) (n / 10) high (omega arith)
          (omega arith)
        ∙ ap (λ (x : ℕ). some x) (omega arith))
]

parse_digits-first : (b n : ℕ) (s : Bytes) → parse_digits 0 (b ∷ s) ≡ some n → b ≢ b'+'
unfolding parse_digits
parse_digits-first b n s e k =
    elim (Bool-cases (leb 48 b && leb b 57 && ltb (0 * 10 + (b - 48)) u32_mod)) [
      | inl fits ↦ ground arith
      | inr no_ ↦ cc (rw no_ at e)
    ]

parse_u32-digit :
    (s : Bytes) (n : ℕ) → parse_digits 0 s ≡ some n → 1 ≤ length s → parse_u32 s ≡ some n
unfolding parse_u32
parse_u32-digit [] n e h = absurd (omega arith)
parse_u32-digit (b ∷ []) n e h = rw (==_ne b b'+' (parse_digits-first b n [] e)) e
parse_u32-digit (b ∷ c ∷ s) n e h = rw (==_ne b b'+' (parse_digits-first b n (c ∷ s) e)) e

digits_nonempty : (fuel n : ℕ) → 1 ≤ length (digits (suc fuel) n)
unfolding digits
digits_nonempty fuel n =
    omega
      (arith, length-append (if ltb n 10 then [] else digits fuel (n / 10)) ((48 + n % 10) ∷ []))

-- What a u32 prints as parses to it.
parse_u32-decimal : (n : ℕ) → n < u32_mod → parse_u32 (decimal n) ≡ some n
unfolding decimal
parse_u32-decimal n h =
    parse_u32-digit (digits 20 n) n (parse_digits-digits 19 n (omega arith) h)
      (digits_nonempty 19 n)
