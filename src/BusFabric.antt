-- ===== src/BusFabric.antt =====
-- kernel/core/src/bus_fabric/mod.rs: port labels and the handles they resolve to.
pub mod Handles
use asolaria_os.Prelude.{
  ℕ, ◌+◌, ◌*◌, ◌/◌, ◌%◌, List, [], ◌∷◌, ◌++◌, Bytes, length, any, is_empty, ltb, leb, ◌==◌, not,
  ◌&&◌, Bool, if◌then◌else◌, Result, ok, err, u64, bit_xor,
}

abbrev pub behcs1024_alphabet_size : ℕ
behcs1024_alphabet_size = 1024

abbrev pub prefix_tree_max_depth : ℕ
prefix_tree_max_depth = 20

pub data BusFabricErr : Type 0 where
  label_too_deep glyph_out_of_range branch_empty unimplemented_fabric : BusFabricErr

pub record PortLabel : Type 0 where
  pub levels : List ℕ

abbrev pub out_of_range : ℕ → Bool
out_of_range g = leb behcs1024_alphabet_size g

unfoldable pub from_levels : List ℕ → Result BusFabricErr PortLabel
from_levels levels =
    if ltb prefix_tree_max_depth (length levels)
    then err label_too_deep
    else if any out_of_range levels
    then err glyph_out_of_range
    else ok record { levels = levels }

-- Two bytes for each level, the high one first.
unfoldable pub glyph_bytes : List ℕ → Bytes
glyph_bytes [] = []
glyph_bytes (g ∷ levels) = g / 256 ∷ g % 256 ∷ glyph_bytes levels

unfoldable pub canonical_glyph_bytes : PortLabel → Bytes
unfolding glyph_bytes
canonical_glyph_bytes label = glyph_bytes label.levels

unfoldable pub fnv_from : ℕ → Bytes → ℕ
fnv_from h [] = h
fnv_from h (b ∷ bs) = fnv_from (u64 (bit_xor h b * 1099511628211)) bs

unfoldable pub fnv1a_64 : Bytes → ℕ
unfolding fnv_from
fnv1a_64 bs = fnv_from 14695981039346656037 bs

abbrev pub reserved_handle_zero : ℕ
reserved_handle_zero = 0

unfoldable pub resolve_label : PortLabel → Result BusFabricErr ℕ
resolve_label label =
    let bs = canonical_glyph_bytes label in
    let h = fnv1a_64 bs in
    if ltb prefix_tree_max_depth (length label.levels)
    then err label_too_deep
    else if any out_of_range label.levels
    then err glyph_out_of_range
    else ok (if h == reserved_handle_zero && not (is_empty bs) then 9223372036854775808 else h)

unfoldable pub prefix_tree_walk : PortLabel → Result BusFabricErr ℕ
unfolding resolve_label
prefix_tree_walk label = resolve_label label

unfoldable pub label_for_handle : ℕ → Result BusFabricErr PortLabel
label_for_handle handle = err branch_empty
