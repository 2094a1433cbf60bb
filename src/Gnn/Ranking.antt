-- ===== src/Gnn/Ranking.antt =====
-- The order of the fallback ranking of gnn/mod.rs.
use asolaria_os.Prelude.{
  ℕ, zero, suc, ◌+◌, ◌*◌, ◌≤◌, ◌<◌, ◌≡◌, refl, ap, List, [], ◌∷◌, map, All, Bytes, take, arith,
}
use asolaria_os.Gnn.{RankedItem, fallback_score, ranked_from, top_n_deterministic_fallback}

score_lem : (i : ℕ) → i ≤ 1000 → fallback_score i + i * 1000 ≡ 1000000
unfolding fallback_score
score_lem i h = omega (arith, h)

-- The scores fall from each item to the next.
abbrev pub Descends : List RankedItem → Type 0
Descends [] = Unit
Descends (r ∷ rs) = All (λ q. q.score_micro < r.score_micro) rs × Descends rs

ranked_below :
    (i j n : ℕ) (items : List Bytes)
    → i < j
    → j + n ≤ 1001
    → All (λ q. q.score_micro < fallback_score i) (ranked_from j n items)
unfolding ranked_from
ranked_below i j zero items h k = tt
ranked_below i j (suc n) [] h k = tt
ranked_below i j (suc n) (id ∷ items) h k = (
  omega (arith, score_lem i (omega (arith, h, k)), score_lem j (omega (arith, k)), h),
  ranked_below i (j + 1) n items (omega (arith, h)) (omega (arith, k)),
)

ranked-Descends : (i n : ℕ) (items : List Bytes) → i + n ≤ 1001 → Descends (ranked_from i n items)
unfolding ranked_from
ranked-Descends i zero items k = tt
ranked-Descends i (suc n) [] k = tt
ranked-Descends i (suc n) (id ∷ items) k = (
  ranked_below i (i + 1) n items (omega arith) (omega (arith, k)),
  ranked-Descends (i + 1) n items (omega (arith, k)),
)

ids :
    (i n : ℕ) (items : List Bytes)
    → map (λ (r : RankedItem). r.item_id) (ranked_from i n items) ≡ take n items
unfolding ranked_from
ids i zero items = refl
ids i (suc n) [] = refl
ids i (suc n) (id ∷ items) = ap (◌∷◌ id) (ids (i + 1) n items)

-- The fallback ranks the first `n` items in their order, with falling scores as long as `n` is at most
-- 1001.
top_n-Descends :
    (items : List Bytes) (n : ℕ)
    → (map (λ (r : RankedItem). r.item_id) (top_n_deterministic_fallback items n) ≡ take n items)
      × (n ≤ 1001 → Descends (top_n_deterministic_fallback items n))
unfolding top_n_deterministic_fallback
top_n-Descends items n = (ids 0 n items, λ h. ranked-Descends 0 n items (omega (arith, h)))

-- Each item from number 1001 on, up to 4,294,967, has a score above that of the first: the subtraction
-- wraps.
pub fallback_score_wraps : (i : ℕ) → 1001 ≤ i → i ≤ 4_294_967 → fallback_score 0 < fallback_score i
unfolding fallback_score
fallback_score_wraps i h k = omega (arith, h, k)
