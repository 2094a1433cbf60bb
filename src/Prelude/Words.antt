-- ===== src/Prelude/Words.antt =====
-- Machine words: the moduli of u8, u16, u32, u64 (and usize of the 64-bit targets), and
-- `to_le_bytes` / `to_be_bytes`.
use Prim.Native.Nat.{ℕ, zero, suc, ◌*◌, ◌/◌, ◌%◌, ◌^◌, ◌<◌}
use mathlib.Core.Path.{◌≡◌, refl, ap, ◌∙◌, sym}
use mathlib.Core.List.{List, [], ◌∷◌, ◌++◌}
use native.Mathlib.Omega.{arith}
use native.Mathlib.Nat.{pow-suc}
use asolaria_os.Prelude.Lists.{length, length-append, append-injective}

abbrev pub u64_mod : ℕ
u64_mod = 18446744073709551616

abbrev pub u64_max : ℕ
u64_max = 18446744073709551615

abbrev pub u32_mod : ℕ
u32_mod = 4294967296

-- `checked_add`'s and `wrapping_*`'s word is the native number below the modulus.
abbrev pub u64 : ℕ → ℕ
u64 n = n % u64_mod

-- The `n` low bytes of `x`, least significant first.
unfoldable pub le_bytes : ℕ → ℕ → List ℕ
le_bytes zero x = []
le_bytes (suc n) x = x % 256 ∷ le_bytes n (x / 256)

-- Most significant first.
unfoldable pub be_bytes : ℕ → ℕ → List ℕ
be_bytes zero x = []
be_bytes (suc n) x = be_bytes n (x / 256) ++ x % 256 ∷ []

pub length-le_bytes : (n x : ℕ) → length (le_bytes n x) ≡ n
unfolding le_bytes
length-le_bytes zero x = refl
length-le_bytes (suc n) x = ap suc (length-le_bytes n (x / 256))

pub length-be_bytes : (n x : ℕ) → length (be_bytes n x) ≡ n
unfolding be_bytes
length-be_bytes zero x = refl
length-be_bytes (suc n) x =
    omega (arith, length-append (be_bytes n (x / 256)) (x % 256 ∷ []), length-be_bytes n (x / 256))

div_lt_pow : (n x : ℕ) → x < 256 ^ suc n → x / 256 < 256 ^ n
div_lt_pow n x h = let e : 256 ^ suc n ≡ 256 ^ n * 256 = pow-suc 256 n in omega arith

-- A word is determined by its bytes.
pub le_bytes-injective :
    (n x y : ℕ) → x < 256 ^ n → y < 256 ^ n → le_bytes n x ≡ le_bytes n y → x ≡ y
unfolding le_bytes
le_bytes-injective zero x y h k e = omega arith
le_bytes-injective (suc n) x y h k e =
    let low : x % 256 ≡ y % 256 = cc in
    let high : x / 256 ≡ y / 256 =
      le_bytes-injective n (x / 256) (y / 256) (div_lt_pow n x h) (div_lt_pow n y k) (cc) in
    omega arith

pub be_bytes-injective :
    (n x y : ℕ) → x < 256 ^ n → y < 256 ^ n → be_bytes n x ≡ be_bytes n y → x ≡ y
unfolding be_bytes
be_bytes-injective zero x y h k e = omega arith
be_bytes-injective (suc n) x y h k e =
    let parts =
      append-injective (be_bytes n (x / 256)) (x % 256 ∷ []) (be_bytes n (y / 256)) (y % 256 ∷ [])
        (length-be_bytes n (x / 256) ∙ sym (length-be_bytes n (y / 256))) e in
    let high : x / 256 ≡ y / 256 =
      be_bytes-injective n (x / 256) (y / 256) (div_lt_pow n x h) (div_lt_pow n y k) parts.0 in
    let low : x % 256 ≡ y % 256 = cc (parts.1) in omega arith
