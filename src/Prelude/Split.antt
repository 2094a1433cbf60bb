-- ===== src/Prelude/Split.antt =====
-- A text cut at its dashes, and the parts joined again.
use Prim.Native.Nat.{ℕ}
use mathlib.Core.Path.{◌≡◌, refl, ap, ◌∙◌, sym}
use mathlib.Core.Logic.{◌≢◌, inl, inr}
use mathlib.Core.List.{List, [], ◌∷◌, ◌++◌}
use asolaria_os.Prelude.Tests.{◌==◌, ==_iff, ==_ne, Bool-cases, if◌then◌else◌}
use asolaria_os.Prelude.Lists.{All}
use asolaria_os.Prelude.Text.{Bytes}

abbrev pub prepend : ℕ → List Bytes → List Bytes
prepend c [] = (c ∷ []) ∷ []
prepend c (p ∷ ps) = (c ∷ p) ∷ ps

-- `split('-')` of a text.
unfoldable pub split : Bytes → List Bytes
split [] = [] ∷ []
split (c ∷ s) = let rest = split s in (if c == b'-' then [] ∷ rest else prepend c rest)

-- A piece without a dash is a part.
pub split_last : (xs : Bytes) → All (λ b. b ≢ b'-') xs → split xs ≡ xs ∷ []
unfolding split
split_last [] h = refl
split_last (x ∷ xs) h = rw (split_last xs h.1, ==_ne x b'-' h.0) refl

pub split_part : (xs s : Bytes) → All (λ b. b ≢ b'-') xs → split (xs ++ b'-' ∷ s) ≡ xs ∷ split s
unfolding split
split_part [] s h = refl
split_part (x ∷ xs) s h = rw (split_part xs s h.1, ==_ne x b'-' h.0) refl

-- The parts with dashes between them.
abbrev pub join : List Bytes → Bytes
join [] = []
join (p ∷ []) = p
join (p ∷ q ∷ ps) = p ++ b'-' ∷ join (q ∷ ps)

join-prepend : (c : ℕ) (ps : List Bytes) → join (prepend c ps) ≡ c ∷ join ps
join-prepend c [] = refl
join-prepend c (p ∷ []) = refl
join-prepend c (p ∷ q ∷ ps) = refl

split-nonempty : (s : Bytes) → (p : Bytes) × (ps : List Bytes) × (split s ≡ p ∷ ps)
unfolding split
split-nonempty [] = ([], [], refl)
split-nonempty (c ∷ s) =
    let (p, ps, e) = split-nonempty s in
    elim (Bool-cases (c == b'-')) [
      | inl dash ↦ rw dash ([], split s, refl)
      | inr other ↦ rw (other, e) (c ∷ p, ps, refl)
    ]

-- Joining the parts gives the text back.
pub join-split : (s : Bytes) → join (split s) ≡ s
unfolding split
join-split [] = refl
join-split (c ∷ s) = elim (Bool-cases (c == b'-')) [
  | inl dash ↦
      let (p, ps, e) = split-nonempty s in
      let k : c ≡ b'-' = (==_iff c b'-').0 dash in
      let j : join (p ∷ ps) ≡ s = rw (sym e) (join-split s) in rw (dash, e) (cc (j, k))
  | inr other ↦ rw other (join-prepend c (split s) ∙ ap (◌∷◌ c) (join-split s))
]
