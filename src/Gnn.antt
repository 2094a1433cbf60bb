-- ===== src/Gnn.antt =====
-- kernel/core/src/gnn/mod.rs: the handle of the inference lane, which has no model yet, and the
-- ranking it falls back on. A `u32` wraps in the release profile.
pub mod Ranking
use asolaria_os.Prelude.{
  ℕ, zero, suc, ◌+◌, ◌-◌, ◌*◌, ◌%◌, List, [], ◌∷◌, Bytes, Bool, true, false, if◌then◌else◌, Option,
  none, some, Result, ok, err, u32_mod,
}

pub data GnnErr : Type 0 where
  model_not_loaded input_shape_invalid latency_budget_exceeded : GnnErr
  model_swap_unauthorized unimplemented_lane : GnnErr

pub data RoutingDecision : Type 0 where
  local triad_broadcast quad_broadcast : RoutingDecision
  unicast_acer unicast_liris unicast_falcon unicast_aether : RoutingDecision

pub record RankedItem : Type 0 where
  pub item_id : Bytes
  pub score_micro : ℕ

pub data AggregatedVerdict : Type 0 where
  proceed_strong proceed_weak hold_verdict block_verdict investigate : AggregatedVerdict

-- `1_000_000 - (i as u32) * 1_000`.
unfoldable pub fallback_score : ℕ → ℕ
fallback_score i = (1_000_000 + (u32_mod - i % u32_mod * 1_000 % u32_mod)) % u32_mod

-- The first `n` items, numbered from `i`.
unfoldable pub ranked_from : ℕ → ℕ → List Bytes → List RankedItem
unfolding fallback_score
ranked_from i zero items = []
ranked_from i (suc n) [] = []
ranked_from i (suc n) (id ∷ items) =
    record { item_id = id; score_micro = fallback_score i } ∷ ranked_from (i + 1) n items

unfoldable pub top_n_deterministic_fallback : List Bytes → ℕ → List RankedItem
unfolding ranked_from
top_n_deterministic_fallback items n = ranked_from 0 n items

pub record GnnInference : Type 0 where
  pub model_loaded : Bool
  pub model_sha16 : Option Bytes

abbrev pub gnn_new : GnnInference
gnn_new = record { model_loaded = false; model_sha16 = none }

abbrev pub is_ready : GnnInference → Bool
is_ready g = g.model_loaded

unfoldable pub load_onnx_model :
    Bytes → Bytes → GnnInference → Result GnnErr (Unit {0}) × GnnInference
load_onnx_model model_bytes expected_sha16 g = (err unimplemented_lane, g)

unfoldable pub predict_route : GnnInference → Bytes → Result GnnErr RoutingDecision
predict_route g envelope_bytes = if g.model_loaded then err unimplemented_lane else ok local

unfoldable pub rank_top_n : GnnInference → List Bytes → ℕ → Result GnnErr (List RankedItem)
unfolding top_n_deterministic_fallback
rank_top_n g items n =
    if g.model_loaded then err unimplemented_lane else ok (top_n_deterministic_fallback items n)

unfoldable pub aggregate_verdict : GnnInference → ℕ → ℕ → Result GnnErr AggregatedVerdict
aggregate_verdict g votes_in_favor total_votes =
    if g.model_loaded then err unimplemented_lane else ok hold_verdict
