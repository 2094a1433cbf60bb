-- ===== src/GlyphGenesis.antt =====
-- kernel/core/src/glyph_genesis/mod.rs: the eight glyphs of a key.
pub mod Digits
use asolaria_os.Prelude.{
  ℕ, zero, suc, ◌*◌, ◌/◌, ◌%◌, List, [], ◌∷◌, ◌++◌, Bytes, bytes, map, get_or, take, u64,
}
use Prim.Native.Nat.{bit_or}

-- The loop `v = (v << 8) | byte`; the shift drops the bits above the word.
unfoldable pub big_endian : ℕ → Bytes → ℕ
big_endian v [] = v
big_endian v (byte ∷ rest) = big_endian (bit_or (u64 (v * 256)) byte) rest

-- The places in the alphabet that the second loop takes, in as many rounds.
unfoldable pub places : ℕ → ℕ → List ℕ
places zero v = []
places (suc n) v = v % 256 ∷ places n (v / 256)

unfoldable pub spell : List Bytes → List ℕ → Bytes
spell alphabet [] = []
spell alphabet (place ∷ rest) = get_or alphabet place [] ++ spell alphabet rest

pub record SentenceWord : Type 0 where
  pub dim : Bytes
  pub tuple : Bytes
  pub glyph : Bytes

-- SHA-256 is a function.
module _ (sha256 : Bytes → Bytes) where
  unfoldable pub glyph : Bytes → List Bytes → Bytes
  unfolding big_endian places spell
  glyph key alphabet = spell alphabet (places 8 (big_endian 0 (take 8 (sha256 key))))

  unfoldable pub word : List Bytes → Bytes × Bytes → SentenceWord
  word alphabet (d, v) =
      let tuple = d ++ (bytes ":" ++ v) in
      record { dim = d; tuple = tuple; glyph = glyph tuple alphabet }

  unfoldable pub sentence : List (Bytes × Bytes) → List Bytes → List SentenceWord
  unfolding word
  sentence fields alphabet = map (word alphabet) fields
