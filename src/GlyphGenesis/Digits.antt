-- ===== src/GlyphGenesis/Digits.antt =====
-- The glyphs of glyph_genesis/mod.rs are the digits of a number.
use asolaria_os.Prelude.{ℕ, zero, suc, ◌+◌, ◌*◌, ◌/◌, ◌^◌, ◌<◌, ◌≡◌, List, [], ◌∷◌, All, arith}
use asolaria_os.GlyphGenesis.{places}

-- The number whose digits to the base 256 these are, the lowest first.
abbrev pub value : List ℕ → ℕ
value [] = 0
value (place ∷ rest) = place + 256 * value rest

-- A number below 256 to the rounds is the value of its places.
value-places : (n v : ℕ) → v < 256 ^ n → value (places n v) ≡ v
unfolding places
value-places zero v small = omega (arith, small)
value-places (suc n) v small = omega (arith, value-places n (v / 256) (omega (arith, small)))

-- Every place lies in the alphabet.
places-bounded : (n v : ℕ) → All (λ place. place < 256) (places n v)
unfolding places
places-bounded zero v = tt
places-bounded (suc n) v = (omega arith, places-bounded n (v / 256))
