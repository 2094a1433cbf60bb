-- ===== src/Prelude/Text.antt =====
-- A `&str` or a byte slice as the list of its bytes. The program's own texts are ASCII.
use Prim.Native.Char.{code}
use Prim.Native.Nat.{ℕ}
use Prim.Native.String.{String}
use mathlib.Core.Path.{◌≡◌, refl, ap}
use mathlib.Core.Logic.{◌↔◌, ◌≢◌, inl, inr}
use mathlib.Core.Bool.{Bool, true, false, ◌&&◌, ◌||◌}
use mathlib.Core.List.{List, [], ◌∷◌, ◌++◌}
use native.Mathlib.Omega.{arith}
use asolaria_os.Prelude.Tests.{◌==◌, Bool-cases}
use asolaria_os.Prelude.Lists.{All}

abbrev pub Bytes : Type 0
Bytes = List ℕ

-- The bytes of an ASCII literal.
abbrev pub bytes : String → Bytes
bytes String.[] = []
bytes (String.◌∷◌ c s) = code c ∷ bytes s

-- `==` on slices.
unfoldable pub same : Bytes → Bytes → Bool
same [] [] = true
same [] (b ∷ bs) = false
same (a ∷ as_) [] = false
same (a ∷ as_) (b ∷ bs) = a == b && same as_ bs

pub same_iff : (a b : Bytes) → (same a b ≡ true) ↔ (a ≡ b)
unfolding same
same_iff [] [] = (λ _. refl, λ _. refl)
same_iff [] (b ∷ bs) = (λ h. cc, λ h. cc)
same_iff (a ∷ as_) [] = (λ h. cc, λ h. cc)
same_iff (a ∷ as_) (b ∷ bs) = (ground (arith, same_iff as_ bs), ground (arith, same_iff as_ bs))

pub same_refl : (a : Bytes) → same a a ≡ true
same_refl a = (same_iff a a).1 refl

unfoldable pub starts_with : Bytes → Bytes → Bool
starts_with s [] = true
starts_with [] (p ∷ ps) = false
starts_with (c ∷ s) (p ∷ ps) = c == p && starts_with s ps

-- `str::contains` for a text pattern.
unfoldable pub contains : Bytes → Bytes → Bool
unfolding starts_with
contains [] p = starts_with [] p
contains (c ∷ s) p = starts_with (c ∷ s) p || contains s p

starts_with-append : (p r : Bytes) → starts_with (p ++ r) p ≡ true
unfolding starts_with
starts_with-append [] [] = refl
starts_with-append [] (x ∷ r) = refl
starts_with-append (c ∷ p) r = ground (arith, starts_with-append p r)

starts_with_sound : (s p : Bytes) → starts_with s p ≡ true → (r : Bytes) × (s ≡ p ++ r)
unfolding starts_with
starts_with_sound s [] h = (s, refl)
starts_with_sound [] (p ∷ ps) h = cc
starts_with_sound (c ∷ s) (p ∷ ps) h =
    let (r, e) = starts_with_sound s ps (ground arith) in (r, ground (arith, e))

-- A prefix is what it is.
pub starts_with_iff : (s p : Bytes) → (starts_with s p ≡ true) ↔ ((r : Bytes) × (s ≡ p ++ r))
starts_with_iff s p = (starts_with_sound s p, λ (r, e). rw e (starts_with-append p r))

contains_sound :
    (s p : Bytes) → contains s p ≡ true → (u : Bytes) × (v : Bytes) × (s ≡ u ++ (p ++ v))
unfolding contains
contains_sound [] p h = let (v, e) = starts_with_sound [] p h in ([], v, e)
contains_sound (c ∷ s) p h = elim (Bool-cases (starts_with (c ∷ s) p)) [
  | inl here ↦ let (v, e) = starts_with_sound (c ∷ s) p here in ([], v, e)
  | inr later ↦ let (u, v, e) = contains_sound s p (rw later at h) in (c ∷ u, v, ap (◌∷◌ c) e)
]

contains_complete : (u p v : Bytes) → contains (u ++ (p ++ v)) p ≡ true
unfolding contains
contains_complete [] [] [] = refl
contains_complete [] [] (c ∷ v) = refl
contains_complete [] (x ∷ p) v = rw (starts_with-append (x ∷ p) v) refl
contains_complete (c ∷ u) p v = ground (arith, contains_complete u p v)

-- A text holds another exactly if that stands somewhere in it.
pub contains_iff :
    (s p : Bytes) → (contains s p ≡ true) ↔ ((u : Bytes) × (v : Bytes) × (s ≡ u ++ (p ++ v)))
contains_iff s p = (contains_sound s p, λ (u, v, e). rw e (contains_complete u p v))

-- The parts before and after a separator that does not occur in the first part.
pub split_unique :
    (c : ℕ) (xs ys us vs : Bytes)
    → All (λ b. b ≢ c) xs
    → All (λ b. b ≢ c) us
    → xs ++ c ∷ ys ≡ us ++ c ∷ vs
    → (xs ≡ us) × (ys ≡ vs)
split_unique c [] ys [] vs h k e = (refl, cc)
split_unique c [] ys (u ∷ us) vs h k e = absurd (k.0 (cc))
split_unique c (x ∷ xs) ys [] vs h k e = absurd (h.0 (cc))
split_unique c (x ∷ xs) ys (u ∷ us) vs h k e =
    let rest = split_unique c xs ys us vs h.1 k.1 (cc) in (cc (rest.0), rest.1)
