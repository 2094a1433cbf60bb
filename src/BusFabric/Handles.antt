-- ===== src/BusFabric/Handles.antt =====
-- Which labels of bus_fabric/mod.rs resolve, and to what.
use asolaria_os.Prelude.{ℕ, ◌/◌, ◌%◌, ◌≤◌, ◌<◌, ◌≡◌, refl, List, [], ◌∷◌, All, length, arith}
use asolaria_os.BusFabric.{glyph_bytes, canonical_glyph_bytes}

abbrev pub IsLabel : List ℕ → Type 0
IsLabel levels = (length levels ≤ 20) × All (λ g. g < 1024) levels

-- Labels with the same canonical bytes are the same, if their glyphs are u16.
canonical_glyph_bytes-injective :
    (xs ys : List ℕ)
    → All (λ g. g < 65536) xs
    → All (λ g. g < 65536) ys
    → canonical_glyph_bytes (record { levels = xs })
      ≡ canonical_glyph_bytes (record { levels = ys })
    → xs ≡ ys
unfolding canonical_glyph_bytes glyph_bytes
canonical_glyph_bytes-injective [] [] a b e = refl
canonical_glyph_bytes-injective [] (y ∷ ys) a b e = cc
canonical_glyph_bytes-injective (x ∷ xs) [] a b e = cc
canonical_glyph_bytes-injective (x ∷ xs) (y ∷ ys) a b e =
    let rest = canonical_glyph_bytes-injective xs ys a.1 b.1 (cc) in
    let high : x / 256 ≡ y / 256 = cc in
    let low : x % 256 ≡ y % 256 = cc in let first : x ≡ y = omega (arith, high, low) in cc
