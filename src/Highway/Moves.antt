-- ===== src/Highway/Moves.antt =====
-- Which moves transit/mod.rs lets through, and with which identifiers.
use asolaria_os.Prelude.{
  ltb_iff, ℕ, zero, suc, ◌+◌, ◌≤◌, ◌<◌, ◌≡◌, ◌≢◌, ◌↔◌, ◌⊎◌, refl, ap, sym, subst, inl, inr, List,
  [], ◌∷◌, length, Bool-cases, true, ltb, Result, ok, err, arith, u64, u64_mod,
}
use asolaria_os.Access.{AccessTier, sovereignty, tier_eq}
use asolaria_os.TierGate.{deny, check}
use asolaria_os.Highway.{
  TransitRequest, TransitErr, oversized_payload, tier_mismatch, max_transit_envelope_bytes,
  check_transit, admitted, quintuple_auth_covers, execute,
}

tier_eq_iff : (a b : AccessTier) → (tier_eq a b ≡ true) ↔ (a ≡ b)
unfolding tier_eq
tier_eq_iff a b = ground arith

execute_cases :
    (req : TransitRequest) (next_id : ℕ)
    → (((execute req next_id) ≡ (ok next_id, u64 (next_id + 1)))
        × (req.from_tier ≢ req.to_tier)
        × (req.envelope_size ≤ max_transit_envelope_bytes))
      ⊎ ((e : TransitErr) × (execute req next_id ≡ (err e, next_id))
          × ((req.from_tier ≢ req.to_tier) × (req.envelope_size ≤ max_transit_envelope_bytes) → ⊥))
unfolding execute check_transit admitted quintuple_auth_covers
execute_cases req next_id = elim (Bool-cases (ltb max_transit_envelope_bytes req.envelope_size)) [
  | inl big ↦ inr (oversized_payload, rw big refl, λ (d, n). ground (arith, big, n))
  | inr fits ↦
      let n : req.envelope_size ≤ max_transit_envelope_bytes = (ltb_iff _ _).0 fits in
      elim (Bool-cases (tier_eq req.from_tier req.to_tier)) [
        | inl same_ ↦
            inr (tier_mismatch, rw (fits, same_) refl, λ (d, m). d ((tier_eq_iff _ _).0 same_))
        | inr other ↦ inl (rw (fits, other) refl, (λ e. let y = (tier_eq_iff _ _).1 e in cc), n)
      ]
]

-- A move is let through exactly if the tiers differ and the envelope has at most 64 KiB; it gets the
-- next identifier, and a refused move leaves the identifiers alone.
execute_iff :
    (req : TransitRequest) (next_id : ℕ)
    → (((req.from_tier ≢ req.to_tier) × (req.envelope_size ≤ 65536))
        ↔ (execute req next_id ≡ (ok next_id, u64 (next_id + 1))))
      × ((e : TransitErr) → (execute req next_id).0 ≡ err e → (execute req next_id).1 ≡ next_id)
execute_iff req next_id = elim (execute_cases req next_id) [
  | inl (x, d, n) ↦ ((λ h. x, λ h. (d, n)), λ e h. cc)
  | inr (e, x, no_) ↦ ((λ h. absurd (no_ h), λ h. cc), λ r h. cc)
]

abbrev pub given : Result TransitErr ℕ → List ℕ → List ℕ
given (ok id) ids = id ∷ ids
given (err e) ids = ids

-- Moves one after the other: the identifiers given out, and the next one.
unfoldable pub issued : List TransitRequest → ℕ → List ℕ
issued [] next_id = []
issued (req ∷ reqs) next_id = given (execute req next_id).0 (issued reqs (execute req next_id).1)

-- `n`, `n + 1`, ..., `k` numbers.
abbrev pub upward : ℕ → ℕ → List ℕ
upward n zero = []
upward n (suc k) = n ∷ upward (n + 1) k

again :
    {r : Result TransitErr ℕ} {later : ℕ} (req : TransitRequest) (reqs : List TransitRequest)
    (next_id : ℕ)
    → execute req next_id ≡ (r, later)
    → given r (issued reqs later) ≡ upward next_id (length (given r (issued reqs later)))
    → issued (req ∷ reqs) next_id ≡ upward next_id (length (issued (req ∷ reqs) next_id))
unfolding issued
again req reqs next_id x h =
    let e = ap (λ (p : Result TransitErr ℕ × ℕ). given p.0 (issued reqs p.1)) x in
    subst (λ (ids : List ℕ). ids ≡ upward next_id (length ids)) (sym e) h

-- Below 2^64 the identifiers given out are consecutive, whatever moves are refused in between: no two
-- moves share one.
pub issued-upward :
    (reqs : List TransitRequest) (next_id : ℕ)
    → next_id + length reqs < u64_mod
    → issued reqs next_id ≡ upward next_id (length (issued reqs next_id))
unfolding issued
issued-upward [] next_id small = refl
issued-upward (req ∷ reqs) next_id small = elim (execute_cases req next_id) [
  | inl (x, d, n) ↦
      let e : u64 (next_id + 1) ≡ next_id + 1 = omega (arith, small) in
      again req reqs next_id x
        (rw e (ap (◌∷◌ next_id) (issued-upward reqs (next_id + 1) (omega (arith, small)))))
  | inr (r, x, no_) ↦ again req reqs next_id x (issued-upward reqs next_id (omega (arith, small)))
]

-- The executor lets a small envelope from any other tier into the sovereignty tier, which the gate
-- between callers and tiers denies to every such caller.
pub execute_into_sovereignty :
    (from : AccessTier) (size next_id : ℕ)
    → from ≢ sovereignty
    → size ≤ 65536
    → (execute (record { from_tier = from; to_tier = sovereignty; envelope_size = size }) next_id
        ≡ (ok next_id, u64 (next_id + 1)))
      × (check from sovereignty ≡ deny)
unfolding check tier_eq
execute_into_sovereignty from size next_id d n = (
  (execute_iff (record { from_tier = from; to_tier = sovereignty; envelope_size = size })
        next_id).0.0
      (d, n),
  ground arith,
)
