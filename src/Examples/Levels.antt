-- ===== src/Examples/Levels.antt =====
-- The levels of rows at concrete inputs.
use asolaria_os.Prelude.{◌≡◌, ◌↔◌, refl, ◌++◌, bytes}
use asolaria_os.LevelTag.{
  level_public, level_federation, level_owner_private, public_canon_fragments, assign_level, is_pii,
  is_public_canon, contains_ci, windows_ci, prefix_ci, ascii_lower, has_digit_run, digit_run,
}
use asolaria_os.LevelTag.Levels.{IsPrivate, HasFragment, assign_level_lem, assign_level-around}

assign_level_lem_example :
    ((assign_level (bytes "docs/README.md") (bytes "maps") ≡ level_owner_private)
      ↔ IsPrivate (bytes "docs/README.md") (bytes "maps"))
    × ((assign_level (bytes "docs/README.md") (bytes "maps") ≡ level_public) ↔ (
        (IsPrivate (bytes "docs/README.md") (bytes "maps") → ⊥)
        × HasFragment public_canon_fragments (bytes "docs/README.md")))
    × ((assign_level (bytes "docs/README.md") (bytes "maps") ≡ level_federation) ↔ (
        (IsPrivate (bytes "docs/README.md") (bytes "maps") → ⊥)
        × (HasFragment public_canon_fragments (bytes "docs/README.md") → ⊥)))
assign_level_lem_example = assign_level_lem (bytes "docs/README.md") (bytes "maps")

readme_is_public : assign_level (bytes "docs/README.md") (bytes "maps") ≡ level_public
unfolding assign_level is_pii is_public_canon contains_ci windows_ci prefix_ci ascii_lower
    has_digit_run digit_run
readme_is_public = refl

assign_level-around_example :
    assign_level
      (bytes "x/" ++ (bytes "Legal" ++ bytes "/readme"))
      (bytes "" ++ (bytes "a" ++ bytes "b"))
    ≡ level_owner_private
unfolding assign_level is_pii contains_ci windows_ci prefix_ci ascii_lower has_digit_run digit_run
assign_level-around_example =
    assign_level-around (bytes "Legal") (bytes "a") (bytes "x/") (bytes "/readme") (bytes "")
      (bytes "b") refl
