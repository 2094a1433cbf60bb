-- ===== src/Cycle/Halts.antt =====
-- The verbs that halt a peer in cycle_orch/mod.rs.
use asolaria_os.Prelude.{
  ◌≡◌, refl, ap, ◌↔◌, inl, inr, [], ◌∷◌, ◌++◌, Bytes, bytes, same, same_iff, starts_with, true,
  ◌||◌, Bool-cases,
}
use asolaria_os.Cycle.{ends_with, is_op_halt_verb}

ends_with-last : (p : Bytes) → ends_with p p ≡ true
unfolding ends_with
ends_with-last [] = (same_iff [] []).1 refl
ends_with-last (c ∷ s) = rw ((same_iff (c ∷ s) (c ∷ s)).1 refl) refl

ends_with-append : (u p : Bytes) → ends_with (u ++ p) p ≡ true
unfolding ends_with
ends_with-append [] p = ends_with-last p
ends_with-append (c ∷ u) p = elim (Bool-cases (same (c ∷ u ++ p) p)) [
  | inl here ↦ rw here refl
  | inr later ↦ rw (later, ends_with-append u p) refl
]

ends_with_sound : (s p : Bytes) → ends_with s p ≡ true → (u : Bytes) × (s ≡ u ++ p)
unfolding ends_with
ends_with_sound [] p h = ([], (same_iff [] p).0 h)
ends_with_sound (c ∷ s) p h = elim (Bool-cases (same (c ∷ s) p)) [
  | inl here ↦ ([], (same_iff (c ∷ s) p).0 here)
  | inr later ↦
      let rest : ends_with s p ≡ true = rw later at h in
      let (u, e) = ends_with_sound s p rest in (c ∷ u, ap (◌∷◌ c) e)
]

-- A text ends with another exactly if it is the other after some text.
ends_with_iff : (s p : Bytes) → (ends_with s p ≡ true) ↔ ((u : Bytes) × (s ≡ u ++ p))
ends_with_iff s p = (ends_with_sound s p, λ (u, e). rw e (ends_with-append u p))

halts_framed :
    (verb : Bytes)
    → starts_with verb (bytes "EVT-") ≡ true
    → ends_with verb (bytes "-HALT-EMIT") ≡ true
    → is_op_halt_verb verb ≡ true
unfolding is_op_halt_verb
halts_framed verb front back =
    elim (Bool-cases (same verb (bytes "OP-HALT") || same verb (bytes "EVT-HALT"))) [
      | inl listed ↦ rw listed refl
      | inr other ↦ rw (other, front, back) refl
    ]

-- A peer's own halt event is one that halts.
halts : (peer : Bytes) → is_op_halt_verb (bytes "EVT-" ++ (peer ++ bytes "-HALT-EMIT")) ≡ true
unfolding starts_with
halts peer = halts_framed _ refl (ends_with-append (bytes "EVT-" ++ peer) (bytes "-HALT-EMIT"))

-- So is the event without the name of a peer.
halts_nameless : is_op_halt_verb (bytes "EVT-HALT-EMIT") ≡ true
unfolding is_op_halt_verb starts_with ends_with same
halts_nameless = refl
