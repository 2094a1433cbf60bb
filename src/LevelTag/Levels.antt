-- ===== src/LevelTag/Levels.antt =====
-- The levels that level_tag/mod.rs assigns.
use asolaria_os.Prelude.{
  ℕ, ◌≡◌, ◌↔◌, ◌⊎◌, refl, ap, ◌∙◌, sym, inl, inr, List, [], ◌∷◌, ◌++◌, All, Bytes, is_empty, all,
  any, contains_iff, and_iff, not_iff, Bool-cases, true, false, not, ◌||◌, Bool, arith,
}
use mathlib.Core.List.{append_assoc}
use asolaria_os.LevelTag.{
  level_public, level_federation, level_owner_private, pii_path_fragments, pii_content_fragments,
  public_canon_fragments, ascii_lower, contains_ci, has_digit_run, is_pii, is_public_canon,
  assign_level,
}
use asolaria_os.LevelTag.Search.{lower, contains_ci_lem, HasRun, has_digit_run_lem}

-- Some fragment of the list stands in the text, whatever the case of its letters.
abbrev pub HasFragment : List Bytes → Bytes → Type 0
HasFragment [] s = ⊥
HasFragment (f ∷ fs) s = ((u : Bytes) × (v : Bytes) × (lower s ≡ u ++ (f ++ v))) ⊎ HasFragment fs s

abbrev NoneEmpty : List Bytes → Type 0
NoneEmpty fs = All (λ f. is_empty f ≡ false) fs

any_fragment_iff :
    (fs : List Bytes) (s : Bytes)
    → NoneEmpty fs
    → (any (contains_ci s) fs ≡ true) ↔ HasFragment fs s
any_fragment_iff [] s h = (λ e. cc, λ e. absurd e)
any_fragment_iff (f ∷ fs) s h =
    let (to, from) = any_fragment_iff fs s h.1 in
    let (find, hold) = contains_iff (lower s) f in
    let e = contains_ci_lem s f h.0 in
    (
      λ k. elim (Bool-cases (contains_ci s f)) [
        | inl here ↦ inl (find (sym e ∙ here))
        | inr no_ ↦ inr (to (rw no_ at k))
      ],
      λ k. elim k [
        | inl here ↦ let y : contains_ci s f ≡ true = e ∙ hold here in rw y refl
        | inr later ↦ let y = from later in ground (arith, y)
      ],
    )

-- The path or the content carries what the public must not see.
abbrev pub IsPrivate : Bytes → Bytes → Type 0
IsPrivate path content =
    HasFragment pii_path_fragments path
    ⊎ (HasRun 14 content ⊎ HasFragment pii_content_fragments content)

all_iff : (fs : List Bytes) → all (λ f. not (is_empty f)) fs ≡ true → NoneEmpty fs
all_iff [] h = tt
all_iff (f ∷ fs) h =
    let (x, y) = (and_iff (not (is_empty f)) (all (λ g. not (is_empty g)) fs)).0 h in
    ((not_iff (is_empty f)).0 x, all_iff fs y)

path_fragments_full : NoneEmpty pii_path_fragments
path_fragments_full = all_iff pii_path_fragments refl

content_fragments_full : NoneEmpty pii_content_fragments
content_fragments_full = all_iff pii_content_fragments refl

public_fragments_full : NoneEmpty public_canon_fragments
public_fragments_full = all_iff public_canon_fragments refl

or3 : (a b c : Bool) → (a || b || c ≡ true) ↔ ((a ≡ true) ⊎ ((b ≡ true) ⊎ (c ≡ true)))
or3 true b c = (λ h. inl refl, λ h. refl)
or3 false true c = (λ h. inr (inl refl), λ h. refl)
or3 false false true = (λ h. inr (inr refl), λ h. refl)
or3 false false false =
    (λ h. cc, λ h. elim h [ inl x ↦ cc | inr y ↦ elim y [ inl x ↦ cc | inr x ↦ cc ] ])

is_pii_iff : (path content : Bytes) → (is_pii path content ≡ true) ↔ IsPrivate path content
unfolding is_pii
is_pii_iff path content =
    let (a, a') = any_fragment_iff pii_path_fragments path path_fragments_full in
    let (b, b') = has_digit_run_lem content 14 (omega arith) in
    let (c, c') = any_fragment_iff pii_content_fragments content content_fragments_full in
    let (s, j) =
      or3 (any (contains_ci path) pii_path_fragments) (has_digit_run content 14)
        (any (contains_ci content) pii_content_fragments) in
    (
      λ h. elim (s h) [
        | inl x ↦ inl (a x)
        | inr y ↦ elim y [ inl x ↦ inr (inl (b x)) | inr x ↦ inr (inr (c x)) ]
      ],
      λ h. j (elim h [
        | inl x ↦ inl (a' x)
        | inr y ↦ elim y [ inl x ↦ inr (inl (b' x)) | inr x ↦ inr (inr (c' x)) ]
      ]),
    )

IsPrivate-iff :
    (path content : Bytes)
    → (assign_level path content ≡ level_owner_private) ↔ IsPrivate path content
unfolding assign_level
IsPrivate-iff path content =
    let (to, from) = is_pii_iff path content in
    (
      λ h. elim (Bool-cases (is_pii path content)) [
        | inl yes_ ↦ to yes_
        | inr no_ ↦ absurd (ground arith)
      ],
      λ v. let y = from v in rw y refl,
    )

-- A row is private exactly if its path or its content carries personal or secret material, and it is
-- public exactly if it carries none and its path names a published document; every other row stays
-- inside the federation. Letters match in either case, and the material is a listed fragment of the
-- path or of the content, or 14 digits in a row in the content.
pub assign_level_lem :
    (path content : Bytes)
    → ((assign_level path content ≡ level_owner_private) ↔ IsPrivate path content)
      × ((assign_level path content ≡ level_public)
          ↔ ((IsPrivate path content → ⊥) × HasFragment public_canon_fragments path))
      × ((assign_level path content ≡ level_federation)
          ↔ ((IsPrivate path content → ⊥) × (HasFragment public_canon_fragments path → ⊥)))
unfolding assign_level is_public_canon
assign_level_lem path content =
    let (to, from) = is_pii_iff path content in
    let (seen, shown) = any_fragment_iff public_canon_fragments path public_fragments_full in
    elim (Bool-cases (is_pii path content)) [
      | inl pii ↦ (
        IsPrivate-iff path content,
        rw pii (λ h. absurd (omega (arith, h)), λ (h, k). absurd (h (to pii))),
        rw pii (λ h. absurd (omega (arith, h)), λ (h, k). absurd (h (to pii))),
      )
      | inr clean ↦
          let not_private : IsPrivate path content → ⊥ = λ v. let y = from v in cc in
          elim (Bool-cases (any (contains_ci path) public_canon_fragments)) [
            | inl canon ↦ (
              IsPrivate-iff path content,
              rw (clean, canon) (λ h. (not_private, seen canon), λ h. refl),
              rw (clean, canon) (λ h. absurd (omega (arith, h)), λ (h, k). absurd (k (seen canon))),
            )
            | inr other ↦
                let not_canon : HasFragment public_canon_fragments path → ⊥ =
                  λ v. let y = shown v in cc in
                (
                  IsPrivate-iff path content,
                  rw (clean, other)
                      (λ h. absurd (omega (arith, h)), λ (h, k). absurd (not_canon k)),
                  rw (clean, other) (λ h. (not_private, not_canon), λ h. refl),
                )
          ]
    ]

lower-append : (s t : Bytes) → lower (s ++ t) ≡ lower s ++ lower t
lower-append [] t = refl
lower-append (c ∷ s) t = ap (◌∷◌ (ascii_lower c)) (lower-append s t)

-- What stands in a text stands in every text around it.
module _ (a s b : Bytes) where
  around :
      (f u v : Bytes)
      → lower s ≡ u ++ (f ++ v)
      → lower (a ++ (s ++ b)) ≡ lower a ++ u ++ (f ++ (v ++ lower b))
  around f u v e = lower-append a (s ++ b) ∙ rw (lower-append s b, e) (simp append_assoc refl)

  HasFragment-around : (fs : List Bytes) → HasFragment fs s → HasFragment fs (a ++ (s ++ b))
  HasFragment-around [] h = h
  HasFragment-around (f ∷ fs) (inl (u, v, e)) = inl (lower a ++ u, v ++ lower b, around f u v e)
  HasFragment-around (f ∷ fs) (inr h) = inr (HasFragment-around fs h)

  HasRun-around : (m : ℕ) → HasRun m s → HasRun m (a ++ (s ++ b))
  HasRun-around m (x, d, y, e, n, k) = (a ++ x, d, y ++ b, rw e (simp append_assoc refl), n, k)

-- No text around it makes a private row less private: longer paths and contents that hold a private
-- row's are private.
pub assign_level-around :
    (path content a b c d : Bytes)
    → assign_level path content ≡ level_owner_private
    → assign_level (a ++ (path ++ b)) (c ++ (content ++ d)) ≡ level_owner_private
assign_level-around path content a b c d h =
    (IsPrivate-iff (a ++ (path ++ b)) (c ++ (content ++ d))).1
      (elim ((IsPrivate-iff path content).0 h) [
        | inl x ↦ inl (HasFragment-around a path b pii_path_fragments x)
        | inr y ↦ elim y [
          | inl x ↦ inr (inl (HasRun-around c content d 14 x))
          | inr x ↦ inr (inr (HasFragment-around c content d pii_content_fragments x))
        ]
      ])
