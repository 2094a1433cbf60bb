-- ===== src/Pid/Scan.antt =====
-- What `rfind` and `split` of the parser in pid/mod.rs return.
use asolaria_os.Prelude.{
  ℕ, suc, ◌+◌, ◌≡◌, ◌≢◌, refl, ap, sym, inl, inr, [], ◌∷◌, ◌++◌, All, Bytes, length, take, drop,
  starts_with, starts_with_iff, none, some, Option-cases, Bool-cases, ==_ne, true, arith,
}
use asolaria_os.Pid.{marker, rfind}

-- No occurrence of the marker.
abbrev pub Unmarked : Bytes → Type 0
Unmarked s = rfind s marker ≡ none

pub Unmarked-skip : (c : ℕ) (s : Bytes) → c ≢ b'-' → Unmarked s → Unmarked (c ∷ s)
unfolding rfind starts_with
Unmarked-skip c s h k = rw (k, ==_ne c b'-' h) refl

pub Unmarked-skips : (xs s : Bytes) → All (λ b. b ≢ b'-') xs → Unmarked s → Unmarked (xs ++ s)
Unmarked-skips [] s h k = k
Unmarked-skips (x ∷ xs) s h k = Unmarked-skip x (xs ++ s) h.0 (Unmarked-skips xs s h.1 k)

pub Unmarked-dash : (c : ℕ) (s : Bytes) → c ≢ b'P' → Unmarked (c ∷ s) → Unmarked (b'-' ∷ c ∷ s)
unfolding rfind starts_with
Unmarked-dash c s h k = rw (k, ==_ne c b'P' h) refl

pub Unmarked-process :
    (c : ℕ) (s : Bytes) → c ≢ b'I' → Unmarked (c ∷ s) → Unmarked (b'-' ∷ b'P' ∷ c ∷ s)
unfolding rfind starts_with
Unmarked-process c s h k = rw (k, ==_ne c b'I' h) refl

-- The last marker is the one before a tail without one that does not start with `PID-`.
pub rfind_last :
    (role : Bytes) (c : ℕ) (s : Bytes)
    → c ≢ b'P'
    → Unmarked (c ∷ s)
    → rfind (role ++ (marker ++ c ∷ s)) marker ≡ some (length role)
unfolding rfind starts_with
rfind_last [] c s h k = rw (Unmarked-dash c s h k) refl
rfind_last (x ∷ role) c s h k = rw (rfind_last role c s h k) refl

starts_with-marker : (s : Bytes) → starts_with s marker ≡ true → s ≡ marker ++ drop 5 s
starts_with-marker s h = let (r, e) = (starts_with_iff s marker).0 h in rw e refl

subst_index :
    (s : Bytes) (i j : ℕ)
    → i ≡ j
    → s ≡ take i s ++ (marker ++ drop (i + 5) s)
    → s ≡ take j s ++ (marker ++ drop (j + 5) s)
subst_index s i j e h = rw (sym e) h

-- What is found is a marker at that place.
pub rfind_sound :
    (s : Bytes) (i : ℕ) → rfind s marker ≡ some i → s ≡ take i s ++ (marker ++ drop (i + 5) s)
unfolding rfind
rfind_sound [] i e = cc
rfind_sound (c ∷ s) i e = elim (Option-cases (rfind s marker)) [
  | inr (j, found) ↦
      let k : suc j ≡ i = cc (rw found at e) in
      let n : suc j + 5 ≡ suc (j + 5) = omega arith in
      subst_index (c ∷ s) (suc j) i k (rw n (ap (◌∷◌ c) (rfind_sound s j found)))
  | inl absent ↦ elim (Bool-cases (starts_with (c ∷ s) marker)) [
    | inr no_ ↦ cc (rw (absent, no_) at e)
    | inl here ↦
        let k : 0 ≡ i = cc (rw (absent, here) at e) in
        subst_index (c ∷ s) 0 i k (starts_with-marker (c ∷ s) here)
  ]
]

pub Unmarked-plain : (s : Bytes) → All (λ b. b ≢ b'-') s → Unmarked s
unfolding rfind
Unmarked-plain [] h = refl
Unmarked-plain (x ∷ s) h = Unmarked-skip x s h.0 (Unmarked-plain s h.1)
