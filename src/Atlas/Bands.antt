-- ===== src/Atlas/Bands.antt =====
-- The three tables of atlas/mod.rs agree.
use asolaria_os.Prelude.{ℕ, ◌%◌, ◌≡◌, Option, none, some, true, false, arith}
use asolaria_os.Atlas.{
  is_valid_cp, subset_embedding_cp, AtlasDomain, legacy_subset_256, sovereignty_band, sequencing,
  language_glyph, hilbert_cube, build_proof, federation, emergent_residual, AtlasSupervisor,
  cube_cubed_sealer, gaia, helm, vector, rook, forge, falcon_supervisor, live_free, AtlasLane,
  memory, skeletal, muscular, nervous, circulatory, domain_for_cp, supervisor_for_cp, lane_for_cp,
}

-- The supervisor of a domain and its lane, as the table of the documentation has them.
abbrev pub supervisor_of : AtlasDomain → AtlasSupervisor
supervisor_of legacy_subset_256 = cube_cubed_sealer
supervisor_of sovereignty_band = gaia
supervisor_of sequencing = helm
supervisor_of language_glyph = vector
supervisor_of hilbert_cube = rook
supervisor_of build_proof = forge
supervisor_of federation = falcon_supervisor
supervisor_of emergent_residual = live_free

abbrev pub lane_of : AtlasDomain → AtlasLane
lane_of legacy_subset_256 = memory
lane_of sovereignty_band = skeletal
lane_of sequencing = muscular
lane_of language_glyph = nervous
lane_of hilbert_cube = circulatory
lane_of build_proof = muscular
lane_of federation = nervous
lane_of emergent_residual = memory

abbrev Agrees : ℕ → Option AtlasDomain → Type 0
Agrees cp none =
    (is_valid_cp cp ≡ false)
    × (supervisor_for_cp cp ≡ none)
    × (lane_for_cp cp ≡ none)
    × (subset_embedding_cp cp ≡ none)
Agrees cp (some d) =
    (is_valid_cp cp ≡ true)
    × (supervisor_for_cp cp ≡ some (supervisor_of d))
    × (lane_for_cp cp ≡ some (lane_of d))
    × (subset_embedding_cp cp ≡ some (cp % 256))

-- A valid codepoint has a domain, that domain's supervisor and lane, and a place in the legacy subset;
-- any other has none of them.
tables_agree : (cp : ℕ) → Agrees cp (domain_for_cp cp)
unfolding domain_for_cp supervisor_for_cp lane_for_cp is_valid_cp subset_embedding_cp
tables_agree cp = ground arith
