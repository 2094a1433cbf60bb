-- ===== src/Prelude/Decimal.antt =====
-- `{}` of an unsigned integer.
use Prim.Native.Nat.{ℕ, zero, suc, ◌+◌, ◌-◌, ◌*◌, ◌/◌, ◌%◌, ◌^◌, ◌<◌}
use mathlib.Core.Path.{◌≡◌, refl, ap, ◌∙◌, sym}
use mathlib.Core.Logic.{◌≢◌, inl, inr}
use mathlib.Core.List.{[], ◌∷◌, ◌++◌}
use native.Mathlib.Omega.{arith}
use native.Mathlib.Nat.{pow-suc}
use asolaria_os.Prelude.Tests.{ltb, if◌then◌else◌, Bool-cases, ltb→lt}
use asolaria_os.Prelude.Lists.{All, All-append}
use asolaria_os.Prelude.Text.{Bytes}

-- At most `fuel` digits, most significant first.
unfoldable pub digits : ℕ → ℕ → Bytes
digits zero n = []
digits (suc fuel) n =
    let high = digits fuel (n / 10) in (if ltb n 10 then [] else high) ++ (48 + n % 10) ∷ []

-- A u64 has twenty digits at most.
unfoldable pub decimal : ℕ → Bytes
unfolding digits
decimal n = digits 20 n

value : ℕ → Bytes → ℕ
value acc [] = acc
value acc (d ∷ ds) = value (acc * 10 + (d - 48)) ds

value-append :
    (acc : ℕ) (xs : Bytes) (d : ℕ) → value acc (xs ++ d ∷ []) ≡ value acc xs * 10 + (d - 48)
unfolding value
value-append acc [] d = refl
value-append acc (x ∷ xs) d = value-append (acc * 10 + (x - 48)) xs d

-- Reading the digits back gives the number.
value-digits : (fuel n : ℕ) → n < 10 ^ fuel → value 0 (digits fuel n) ≡ n
unfolding digits
value-digits zero n h = unfold value in omega arith
value-digits (suc fuel) n h = elim (Bool-cases (ltb n 10)) [
  | inl small ↦ rw small (unfold value in (let lt : n < 10 = ltb→lt n 10 small in omega arith))
  | inr big ↦
      let e : 10 ^ suc fuel ≡ 10 ^ fuel * 10 = pow-suc 10 fuel in
      rw big (
        value-append 0 (digits fuel (n / 10)) (48 + n % 10)
        ∙ omega (arith, value-digits fuel (n / 10) (omega arith)))
]

digits_plain : (fuel n : ℕ) → All (λ b. b ≢ b'|') (digits fuel n)
unfolding digits
digits_plain zero n = tt
digits_plain (suc fuel) n = elim (Bool-cases (ltb n 10)) [
  | inl small ↦ rw small (omega arith, tt)
  | inr big ↦ rw big (
      All-append (λ b. b ≢ b'|') (digits fuel (n / 10)) _ (digits_plain fuel (n / 10))
        (omega arith, tt))
]

-- Two different u64 print differently.
pub decimal-injective : (m n : ℕ) → m < 10 ^ 20 → n < 10 ^ 20 → decimal m ≡ decimal n → m ≡ n
unfolding decimal
decimal-injective m n h k e = sym (value-digits 20 m h) ∙ ap (value 0) e ∙ value-digits 20 n k

-- No digit is a `|`.
pub decimal_plain : (n : ℕ) → All (λ b. b ≢ b'|') (decimal n)
unfolding decimal
decimal_plain n = digits_plain 20 n
