-- ===== src/Pid/Dates.antt =====
-- The date of an anchor (pid/mod.rs) holds no marker.
use asolaria_os.Prelude.{
  ℕ, zero, suc, ◌+◌, ◌≤◌, ◌<◌, ◌≡◌, ◌≢◌, refl, ap, ◌∙◌, sym, subst, inl, inr, [], ◌∷◌, ◌++◌, All,
  All-append, Bytes, length, length-drop, length-take, take, drop, get_or, all, Bool-cases, ◌==◌,
  ==_iff, true, false, ◌&&◌, Bool, arith,
}
use asolaria_os.Pid.{is_ascii_digit, date_ok}
use asolaria_os.Pid.Scan.{Unmarked, Unmarked-skips, Unmarked-dash}
use asolaria_os.Pid.Blocks.{append_nil}
use asolaria_os.Pid.Scan.{Unmarked-plain}

pub date_ok-digit : (c : ℕ) (s : Bytes) → is_ascii_digit c ≡ false → date_ok (c ∷ s) ≡ false
unfolding date_ok
date_ok-digit c s h = ground arith

split_at : (i : ℕ) (s : Bytes) → i < length s → s ≡ take i s ++ get_or s i 0 ∷ drop (suc i) s
split_at zero [] h = absurd (omega arith)
split_at zero (c ∷ s) h = refl
split_at (suc i) [] h = absurd (omega arith)
split_at (suc i) (c ∷ s) h = ap (◌∷◌ c) (split_at i s (omega arith))

digits_dashless : (s : Bytes) → all is_ascii_digit s ≡ true → All (λ b. b ≢ b'-') s
digits_dashless [] h = tt
digits_dashless (b ∷ s) h = elim (Bool-cases (is_ascii_digit b)) [
  | inl yes_ ↦ (ground arith, digits_dashless s (rw yes_ at h))
  | inr no_ ↦ cc (rw no_ at h)
]

pub six :
    (a b c d e f : Bool)
    → a && b && c && d && e && f ≡ true
    → (a ≡ true) × (b ≡ true) × (c ≡ true) × (d ≡ true) × (e ≡ true) × (f ≡ true)
six true true true true true f h = (refl, refl, refl, refl, refl, h)
six _ _ _ _ _ _ h = ground arith

pub date_dashes :
    (t : Bytes)
    → date_ok t ≡ true
    → (length t ≡ 10)
      × (get_or t 4 0 ≡ b'-')
      × (get_or t 7 0 ≡ b'-')
      × (all is_ascii_digit (take 4 t) ≡ true)
      × (all is_ascii_digit (take 2 (drop 5 t)) ≡ true)
      × (all is_ascii_digit (take 2 (drop 8 t)) ≡ true)
unfolding date_ok
date_dashes t h =
    let (n, x, y, a, b, c) =
      six (length t == 10) (get_or t 4 0 == b'-') (get_or t 7 0 == b'-')
        (all is_ascii_digit (take 4 t)) (all is_ascii_digit (take 2 (drop 5 t)))
        (all is_ascii_digit (take 2 (drop 8 t))) h in
    (
      (==_iff (length t) 10).0 n,
      (==_iff (get_or t 4 0) b'-').0 x,
      (==_iff (get_or t 7 0) b'-').0 y,
      a,
      b,
      c,
    )

get_or-drop : (n i : ℕ) (s : Bytes) → get_or (drop n s) i 0 ≡ get_or s (n + i) 0
get_or-drop zero i s = let e : zero + i ≡ i = omega arith in rw e refl
get_or-drop (suc n) i [] = refl
get_or-drop (suc n) i (c ∷ s) =
    let e : suc n + i ≡ suc (n + i) = omega arith in rw e (get_or-drop n i s)

drop-drop : (n m : ℕ) (s : Bytes) → drop n (drop m s) ≡ drop (m + n) s
drop-drop n zero s = let e : zero + n ≡ n = omega arith in rw e refl
drop-drop zero (suc m) [] = let e : suc m + zero ≡ suc m = omega arith in rw e refl
drop-drop (suc n) (suc m) [] = let e : suc m + suc n ≡ suc (m + suc n) = omega arith in rw e refl
drop-drop n (suc m) (c ∷ s) =
    let e : suc m + n ≡ suc (m + n) = omega arith in rw e (drop-drop n m s)

take_whole : (n : ℕ) (s : Bytes) → length s ≡ n → take n s ≡ s
take_whole zero [] h = refl
take_whole zero (c ∷ s) h = absurd (omega arith)
take_whole (suc n) [] h = refl
take_whole (suc n) (c ∷ s) h = ap (◌∷◌ c) (take_whole n s (omega arith))

Unmarked-digits :
    (xs s : Bytes)
    → 1 ≤ length xs
    → all is_ascii_digit xs ≡ true
    → Unmarked (xs ++ s)
    → Unmarked (b'-' ∷ xs ++ s)
Unmarked-digits [] s n h k = absurd (omega arith)
Unmarked-digits (x ∷ xs) s n h k = Unmarked-dash x (xs ++ s) (ground arith) k

date_shape :
    (t : Bytes)
    → date_ok t ≡ true
    → t ≡ take 4 t ++ (b'-' ∷ take 2 (drop 5 t) ++ (b'-' ∷ take 2 (drop 8 t) ++ []))
date_shape t h =
    let (n, x, y, a, b, c) = date_dashes t h in
    let first = split_at 4 t (omega (arith, n)) in
    let second = split_at 2 (drop 5 t) (omega (arith, length-drop 5 t, n)) in
    let rest = take_whole 2 (drop 8 t) (omega (arith, length-drop 8 t, n)) in
    let y' : get_or (drop 5 t) 2 0 ≡ b'-' = get_or-drop 5 2 t ∙ y in
    let last : drop 3 (drop 5 t) ≡ take 2 (drop 8 t) ++ [] =
      drop-drop 3 5 t ∙ sym rest ∙ sym (append_nil _) in
    let middle : drop 5 t ≡ take 2 (drop 5 t) ++ (b'-' ∷ take 2 (drop 8 t) ++ []) =
      rw (y', last) at second in
    let whole : t ≡ take 4 t ++ (b'-' ∷ drop 5 t) = rw x at first in
    whole ∙ ap (λ (u : Bytes). take 4 t ++ (b'-' ∷ u)) middle

pub date-Unmarked : (t : Bytes) → date_ok t ≡ true → Unmarked t
date-Unmarked t h =
    let (n, x, y, a, b, c) = date_dashes t h in
    let day =
      Unmarked-digits (take 2 (drop 8 t)) []
        (omega (arith, n, length-take 2 (drop 8 t), length-drop 8 t)) c
        (Unmarked-plain _
          (All-append (λ q. q ≢ b'-') (take 2 (drop 8 t)) [] (digits_dashless _ c) tt)) in
    let month =
      Unmarked-digits (take 2 (drop 5 t)) _
        (omega (arith, n, length-take 2 (drop 5 t), length-drop 5 t)) b
        (Unmarked-skips (take 2 (drop 5 t)) _ (digits_dashless _ b) day) in
    subst (λ u. Unmarked u) (sym (date_shape t h))
      (Unmarked-skips (take 4 t) _ (digits_dashless _ a) month)
