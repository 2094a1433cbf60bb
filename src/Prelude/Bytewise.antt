-- ===== src/Prelude/Bytewise.antt =====
-- `^` and `|` on bytes: what holds of all pairs of bytes, by evaluation.
use Prim.Native.Nat.{ℕ, zero, suc, ◌<◌, bit_or, bit_xor}
use mathlib.Core.Path.{◌≡◌, refl}
use mathlib.Core.Bool.{Bool, true, false, ◌&&◌}
use native.Mathlib.Omega.{arith}
use asolaria_os.Prelude.Tests.{◌==◌, leb}

unfoldable pub every : ℕ → (ℕ → Bool) → Bool
every zero p = true
every (suc n) p = p n && every n p

pub every_sound : (n : ℕ) (p : ℕ → Bool) (x : ℕ) → every n p ≡ true → x < n → p x ≡ true
unfolding every
every_sound zero p x h lt = absurd (omega arith)
every_sound (suc n) p x h lt = ground (arith, every_sound n p x)

agree : Bool → Bool → Bool
agree true b = b
agree false true = false
agree false false = true

check_pair : ℕ → ℕ → Bool
unfolding agree
check_pair x y =
    (leb (bit_xor x y) 255 && leb (bit_or x y) 255)
    && (agree (bit_xor x y == 0) (x == y) && agree (bit_or x y == 0) (x == 0 && y == 0))

table : every 256 (λ x. every 256 (check_pair x)) ≡ true
unfolding every check_pair
table = refl

pair_ok : (x y : ℕ) → x < 256 → y < 256 → check_pair x y ≡ true
pair_ok x y h k =
    every_sound 256 (check_pair x) y (every_sound 256 (λ z. every 256 (check_pair z)) x table h) k

module _ (x y : ℕ) (h : x < 256) (k : y < 256) where
  pub xor_lt : bit_xor x y < 256
  unfolding check_pair
  xor_lt = ground (arith, pair_ok x y)

  pub or_lt : bit_or x y < 256
  unfolding check_pair
  or_lt = ground (arith, pair_ok x y)

  pub xor-zero : bit_xor x y ≡ 0 → x ≡ y
  unfolding check_pair
  xor-zero e = ground (arith, pair_ok x y)

  pub xor_self : x ≡ y → bit_xor x y ≡ 0
  unfolding check_pair
  xor_self e = ground (arith, pair_ok x y)

  pub or-zero : bit_or x y ≡ 0 → (x ≡ 0) × (y ≡ 0)
  unfolding check_pair
  or-zero e = ground (arith, pair_ok x y)
