-- ===== src/LevelTag/Search.antt =====
-- What the searches of level_tag/mod.rs find.
use asolaria_os.Prelude.{
  leb_iff, and_iff, ℕ, ◌+◌, ◌≤◌, ◌<◌, ◌≡◌, ◌≢◌, ◌↔◌, ◌⊎◌, refl, ap, sym, inl, inr, [], ◌∷◌, ◌++◌,
  map, Bytes, is_empty, length, length-append, all, starts_with, contains, contains_iff, length-map,
  Bool-cases, ◌==◌, true, false, ◌&&◌, leb, ltb, arith,
}
use asolaria_os.LevelTag.{
  ascii_lower, prefix_ci, windows_ci, contains_ci, is_ascii_digit, digit_run, has_digit_run,
}

-- A text in lower case.
abbrev pub lower : Bytes → Bytes
lower s = map ascii_lower s

prefix_ci-starts_with : (s n : Bytes) → prefix_ci s n ≡ starts_with (lower s) n
unfolding prefix_ci starts_with
prefix_ci-starts_with [] [] = refl
prefix_ci-starts_with (c ∷ s) [] = refl
prefix_ci-starts_with [] (x ∷ n) = refl
prefix_ci-starts_with (c ∷ s) (x ∷ n) =
    ap (λ b. ascii_lower c == x && b) (prefix_ci-starts_with s n)

windows_ci-contains : (s n : Bytes) → is_empty n ≡ false → windows_ci s n ≡ contains (lower s) n
unfolding windows_ci contains
windows_ci-contains s [] h = cc
windows_ci-contains [] (x ∷ n) h = refl
windows_ci-contains (c ∷ s) (x ∷ n) h =
    rw (windows_ci-contains s (x ∷ n) refl, prefix_ci-starts_with (c ∷ s) (x ∷ n)) refl

contains-short : (s p : Bytes) → ltb (length s) (length p) ≡ true → contains s p ≡ false
contains-short s p h = elim (Bool-cases (contains s p)) [
  | inr no_ ↦ no_
  | inl yes_ ↦
      let (u, v, e) = (contains_iff s p).0 yes_ in
      let n : length s ≡ length (u ++ (p ++ v)) = ap length e in
      absurd (ground (arith, h, n, length-append u (p ++ v), length-append p v))
]

-- The search without case is a search of the text in lower case.
pub contains_ci_lem : (s n : Bytes) → is_empty n ≡ false → contains_ci s n ≡ contains (lower s) n
unfolding contains_ci
contains_ci_lem s n h = elim (Bool-cases (ltb (length s) (length n))) [
  | inl short ↦
      let m : ltb (length (lower s)) (length n) ≡ true = rw (length-map s ascii_lower) short in
      rw (h, short) (sym (contains-short (lower s) n m))
  | inr long ↦ rw (h, long) (windows_ci-contains s n h)
]

-- A run of at least `m` digits stands in the text.
abbrev pub HasRun : ℕ → Bytes → Type 0
HasRun m s =
    (a : Bytes) × (d : Bytes) × (b : Bytes) × (s ≡ a ++ (d ++ b))
    × (m ≤ length d)
    × (all is_ascii_digit d ≡ true)

-- The text starts with digits that complete a run of which `r` were read.
abbrev Completes : ℕ → ℕ → Bytes → Type 0
Completes r m s =
    (d : Bytes) × (b : Bytes) × (s ≡ d ++ b) × (m ≤ r + length d) × (all is_ascii_digit d ≡ true)

digit_run_sound : (r m : ℕ) (s : Bytes) → digit_run r s m ≡ true → Completes r m s ⊎ HasRun m s
unfolding digit_run
digit_run_sound r m [] h = cc
digit_run_sound r m (b ∷ s) h = elim (Bool-cases (is_ascii_digit b)) [
  | inr other ↦ elim (digit_run_sound 0 m s (rw other at h)) [
    | inl (d, e, q, n, k) ↦ inr (b ∷ [], d, e, ap (◌∷◌ b) q, omega (arith, n), k)
    | inr (a, d, e, q, n, k) ↦ inr (b ∷ a, d, e, ap (◌∷◌ b) q, n, k)
  ]
  | inl digit ↦ elim (Bool-cases (leb m (r + 1))) [
    | inl enough ↦
        inl (
          b ∷ [],
          s,
          refl,
          (let x = (leb_iff m (r + 1)).0 enough in omega (arith, x)),
          rw digit refl,
        )
    | inr few ↦ elim (digit_run_sound (r + 1) m s (rw (digit, few) at h)) [
      | inl (d, e, q, n, k) ↦ inl (b ∷ d, e, ap (◌∷◌ b) q, omega (arith, n), rw digit k)
      | inr (a, d, e, q, n, k) ↦ inr (b ∷ a, d, e, ap (◌∷◌ b) q, n, k)
    ]
  ]
]

not_digit : (b c : ℕ) → is_ascii_digit b ≡ false → b ≡ c → is_ascii_digit c ≢ true
not_digit b c o e h = ground arith

past_digit :
    (r m b : ℕ) (s : Bytes)
    → r + 1 < m
    → Completes r m (b ∷ s) ⊎ HasRun m (b ∷ s)
    → Completes (r + 1) m s ⊎ HasRun m s
past_digit r m b s lt (inl ([], e, q, n, k)) = absurd (omega (arith, lt, n))
past_digit r m b s lt (inl (c ∷ d, e, q, n, k)) =
    inl (d, e, cc, omega (arith, n), ((and_iff (is_ascii_digit c) (all is_ascii_digit d)).0 k).1)
past_digit r m b s lt (inr ([], [], e, q, n, k)) = absurd (omega (arith, lt, n))
past_digit r m b s lt (inr ([], c ∷ d, e, q, n, k)) =
    inl (d, e, cc, omega (arith, n), ((and_iff (is_ascii_digit c) (all is_ascii_digit d)).0 k).1)
past_digit r m b s lt (inr (c ∷ a, d, e, q, n, k)) = inr (a, d, e, cc, n, k)

past_other :
    (r m b : ℕ) (s : Bytes)
    → is_ascii_digit b ≡ false
    → r < m
    → Completes r m (b ∷ s) ⊎ HasRun m (b ∷ s)
    → Completes 0 m s ⊎ HasRun m s
past_other r m b s o lt (inl ([], e, q, n, k)) = absurd (omega (arith, lt, n))
past_other r m b s o lt (inl (c ∷ d, e, q, n, k)) =
    absurd (not_digit b c o (cc) (((and_iff (is_ascii_digit c) (all is_ascii_digit d)).0 k).0))
past_other r m b s o lt (inr ([], [], e, q, n, k)) = absurd (omega (arith, lt, n))
past_other r m b s o lt (inr ([], c ∷ d, e, q, n, k)) =
    absurd (not_digit b c o (cc) (((and_iff (is_ascii_digit c) (all is_ascii_digit d)).0 k).0))
past_other r m b s o lt (inr (c ∷ a, d, e, q, n, k)) = inr (a, d, e, cc, n, k)

digit_run_complete :
    (r m : ℕ) (s : Bytes) → r < m → Completes r m s ⊎ HasRun m s → digit_run r s m ≡ true
unfolding digit_run
digit_run_complete r m [] lt (inl ([], e, q, n, k)) = absurd (omega (arith, lt, n))
digit_run_complete r m [] lt (inl (c ∷ d, e, q, n, k)) = cc
digit_run_complete r m [] lt (inr ([], [], e, q, n, k)) = absurd (omega (arith, lt, n))
digit_run_complete r m [] lt (inr ([], c ∷ d, e, q, n, k)) = cc
digit_run_complete r m [] lt (inr (c ∷ a, d, e, q, n, k)) = cc
digit_run_complete r m (b ∷ s) lt h = elim (Bool-cases (is_ascii_digit b)) [
  | inr other ↦
      rw other (digit_run_complete 0 m s (omega (arith, lt)) (past_other r m b s other lt h))
  | inl digit ↦ elim (Bool-cases (leb m (r + 1))) [
    | inl enough ↦ rw (digit, enough) refl
    | inr few ↦
        let more : r + 1 < m = ground arith in
        rw (digit, few) (digit_run_complete (r + 1) m s more (past_digit r m b s more h))
  ]
]

-- A run of digits is found exactly if the text has one.
pub has_digit_run_lem : (s : Bytes) (m : ℕ) → 1 ≤ m → (has_digit_run s m ≡ true) ↔ HasRun m s
unfolding has_digit_run
has_digit_run_lem s m n = (
  λ h. elim (digit_run_sound 0 m s h) [
    | inl (d, e, q, k, a) ↦ ([], d, e, q, omega (arith, k), a)
    | inr run ↦ run
  ],
  λ run. digit_run_complete 0 m s n (inr run),
)
