-- ===== src/Room/Novelty.antt =====
-- The novelty gate (reflection_room/mod.rs): it stops an echo after a run of observations of low
-- novelty. A u8 run counter saturates at 255.
use asolaria_os.Prelude.{
  ℕ, suc, ◌+◌, ◌-◌, ◌≤◌, ◌<◌, ◌≡◌, ◌↔◌, refl, ap, ◌∙◌, inl, inr, List, [], ◌∷◌, ◌++◌, Bool, true,
  false, Bool-cases, arith, min, ltb, leb, leb→le, ◌==◌, if◌then◌else◌, Result, ok, err,
}

pub data NoveltyDecision : Type 0 where
  continue : ℕ → NoveltyDecision
  low_novelty : ℕ → ℕ → NoveltyDecision
  saturated : ℕ → ℕ → NoveltyDecision

pub data NoveltyError : Type 0 where
  epsilon_out_of_range zero_saturation_limit similarity_out_of_range : NoveltyError

pub record NoveltyGate : Type 0 where
  pub epsilon_bps : ℕ
  pub saturation_limit : ℕ
  pub low_novelty_run : ℕ

unfoldable pub gate_new : ℕ → ℕ → Result NoveltyError NoveltyGate
gate_new epsilon_bps saturation_limit =
    if ltb 10_000 epsilon_bps
    then err epsilon_out_of_range
    else if saturation_limit == 0
    then err zero_saturation_limit
    else ok (record {
      epsilon_bps = epsilon_bps;
      saturation_limit = saturation_limit;
      low_novelty_run = 0;
    })

unfoldable pub observe_similarity :
    ℕ → NoveltyGate → Result NoveltyError NoveltyDecision × NoveltyGate
observe_similarity similarity_bps gate =
    if ltb 10_000 similarity_bps
    then (err similarity_out_of_range, gate)
    else if ltb (10_000 - similarity_bps) gate.epsilon_bps
    then (let run = min 255 (gate.low_novelty_run + 1) in
        (
          if leb gate.saturation_limit run
              then ok (saturated (10_000 - similarity_bps) run)
              else ok (low_novelty (10_000 - similarity_bps) run),
          record gate { low_novelty_run = run },
        ))
    else (ok (continue (10_000 - similarity_bps)), record gate { low_novelty_run = 0 })

-- The gate after a sequence of observations, the oldest first.
observe_all : List ℕ → NoveltyGate → NoveltyGate
observe_all [] gate = gate
observe_all (s ∷ ss) gate = observe_all ss ((observe_similarity s gate).1)

-- How many of the observations, counted back from the newest, were of low novelty without a
-- break; one out of range counts as not made. `run` is the count before the first of them.
abbrev pub streak : ℕ → ℕ → List ℕ → ℕ
streak epsilon run [] = run
streak epsilon run (s ∷ ss) =
    streak epsilon (if ltb 10_000 s then run else if ltb (10_000 - s) epsilon then suc run else 0)
      ss

observe-next :
    (s : ℕ) (gate : NoveltyGate)
    → (observe_similarity s gate).1 ≡ (
        if ltb 10_000 s
        then gate
        else if ltb (10_000 - s) gate.epsilon_bps
        then record gate { low_novelty_run = min 255 (gate.low_novelty_run + 1) }
        else record gate { low_novelty_run = 0 })
unfolding observe_similarity
observe-next s gate = ground arith

observe_all-run :
    (ss : List ℕ) (gate : NoveltyGate) (run : ℕ)
    → gate.low_novelty_run ≡ min 255 run
    → ((observe_all ss gate).low_novelty_run ≡ min 255 (streak gate.epsilon_bps run ss))
      × ((observe_all ss gate).epsilon_bps ≡ gate.epsilon_bps)
      × ((observe_all ss gate).saturation_limit ≡ gate.saturation_limit)
unfolding observe_all
observe_all-run [] gate run h = (h, refl, refl)
observe_all-run (s ∷ ss) gate run h = elim (Bool-cases (ltb 10_000 s)) [
  | inl out ↦
      let next : (observe_similarity s gate).1 ≡ gate = ground (arith, observe-next s gate) in
      rw (observe_all, next, out) (observe_all-run ss gate run h)
  | inr within ↦ elim (Bool-cases (ltb (10_000 - s) gate.epsilon_bps)) [
    | inl low ↦
        let next : (observe_similarity s gate).1
            ≡ record gate { low_novelty_run = min 255 (gate.low_novelty_run + 1) } =
          ground (arith, observe-next s gate) in
        rw (observe_all, next, within, low)
          (observe_all-run ss (record gate { low_novelty_run = min 255 (gate.low_novelty_run + 1) })
            (suc run) (omega (arith, h)))
    | inr fresh ↦
        let next : (observe_similarity s gate).1 ≡ record gate { low_novelty_run = 0 } =
          ground (arith, observe-next s gate) in
        rw (observe_all, next, within, fresh)
          (observe_all-run ss (record gate { low_novelty_run = 0 }) 0 (omega arith))
  ]
]

is_saturated : Result NoveltyError NoveltyDecision → Bool
is_saturated (ok (saturated n r)) = true
is_saturated _ = false

streak-append :
    (epsilon run s : ℕ) (ss : List ℕ)
    → s ≤ 10_000
    → streak epsilon run (ss ++ s ∷ [])
      ≡ (if ltb (10_000 - s) epsilon then suc (streak epsilon run ss) else 0)
streak-append epsilon run s [] range = let r : ltb 10_000 s ≡ false = ground arith in rw r refl
streak-append epsilon run s (x ∷ ss) range =
    streak-append epsilon
      (if ltb 10_000 x then run else if ltb (10_000 - x) epsilon then suc run else 0) s ss range

-- A gate that was just made reports saturation, at an observation in range after any others,
-- exactly if the unbroken streak of low-novelty observations has reached its limit, a u8.
saturated_iff :
    (epsilon limit : ℕ) (gate : NoveltyGate) (before : List ℕ) (s : ℕ)
    → gate_new epsilon limit ≡ ok gate
    → limit < 256
    → s ≤ 10_000
    → (is_saturated ((observe_similarity s (observe_all before gate)).0) ≡ true)
      ↔ (limit ≤ streak epsilon 0 (before ++ s ∷ []))
unfolding gate_new observe_similarity is_saturated
saturated_iff epsilon limit gate before s made small range =
    let limit_pos : 0 < limit = ground arith in
    let fields : (gate.epsilon_bps ≡ epsilon)
        × (gate.saturation_limit ≡ limit)
        × (gate.low_novelty_run ≡ 0) =
      (ground arith, ground arith, ground arith) in
    let (run, e, l) = observe_all-run before gate 0 (omega (arith, fields)) in
    let within : ltb 10_000 s ≡ false = ground arith in
    let eps : (observe_all before gate).epsilon_bps ≡ epsilon = e ∙ fields.0 in
    let lim : (observe_all before gate).saturation_limit ≡ limit = l ∙ fields.1 in
    let run' : (observe_all before gate).low_novelty_run ≡ min 255 (streak epsilon 0 before) =
      run ∙ ap (λ (d : ℕ). min 255 (streak d 0 before)) fields.0 in
    elim (Bool-cases (ltb (10_000 - s) epsilon)) [
      | inl low ↦
          rw (streak-append epsilon 0 s before range, within, eps, low, lim, run')
            (elim (Bool-cases (leb limit (min 255 (min 255 (streak epsilon 0 before) + 1)))) [
              | inl reached ↦ rw reached (λ h. omega (arith, leb→le _ _ reached), λ h. refl)
              | inr below ↦ rw below (λ h. cc, λ h. absurd (ground arith))
            ])
      | inr fresh ↦
          rw (streak-append epsilon 0 s before range, within, eps, fresh)
            (λ h. cc, λ h. absurd (omega arith))
    ]
