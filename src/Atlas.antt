-- ===== src/Atlas.antt =====
-- kernel/core/src/atlas/mod.rs: the bands of the 1024 codepoints.
pub mod Bands
use asolaria_os.Prelude.{ℕ, ◌%◌, ltb, leb, Bool, if◌then◌else◌, Option, none, some}

abbrev pub behcs_1024_cp_count : ℕ
behcs_1024_cp_count = 1024

abbrev pub behcs_256_cp_count : ℕ
behcs_256_cp_count = 256

unfoldable pub is_valid_cp : ℕ → Bool
is_valid_cp cp = ltb cp behcs_1024_cp_count

unfoldable pub subset_embedding_cp : ℕ → Option ℕ
subset_embedding_cp cp =
    if leb behcs_1024_cp_count cp then none else some (cp % behcs_256_cp_count % 256)

pub data AtlasDomain : Type 0 where
  legacy_subset_256 sovereignty_band sequencing language_glyph : AtlasDomain
  hilbert_cube build_proof federation emergent_residual : AtlasDomain

pub data AtlasSupervisor : Type 0 where
  cube_cubed_sealer gaia helm vector rook forge falcon_supervisor live_free : AtlasSupervisor

pub data AtlasLane : Type 0 where
  memory skeletal muscular nervous circulatory : AtlasLane

unfoldable pub domain_for_cp : ℕ → Option AtlasDomain
domain_for_cp cp =
    if leb cp 255
    then some legacy_subset_256
    else if leb cp 383
    then some sovereignty_band
    else if leb cp 479
    then some sequencing
    else if leb cp 575
    then some language_glyph
    else if leb cp 703
    then some hilbert_cube
    else if leb cp 799
    then some build_proof
    else if leb cp 895
    then some federation
    else if leb cp 1023
    then some emergent_residual
    else none

unfoldable pub supervisor_for_cp : ℕ → Option AtlasSupervisor
supervisor_for_cp cp =
    if leb cp 255
    then some cube_cubed_sealer
    else if leb cp 383
    then some gaia
    else if leb cp 479
    then some helm
    else if leb cp 575
    then some vector
    else if leb cp 703
    then some rook
    else if leb cp 799
    then some forge
    else if leb cp 895
    then some falcon_supervisor
    else if leb cp 1023
    then some live_free
    else none

unfoldable pub lane_for_cp : ℕ → Option AtlasLane
lane_for_cp cp =
    if leb cp 255
    then some memory
    else if leb cp 383
    then some skeletal
    else if leb cp 479
    then some muscular
    else if leb cp 575
    then some nervous
    else if leb cp 703
    then some circulatory
    else if leb cp 799
    then some muscular
    else if leb cp 895
    then some nervous
    else if leb cp 1023
    then some memory
    else none
