-- ===== src/Envelope/Race/Steps.antt =====
-- What each atomic access leaves behind (envelope/mod.rs).
use asolaria_os.Prelude.{
  ℕ, suc, ◌-◌, ◌≤◌, ◌<◌, ◌≡◌, refl, sym, ap, ◌∙◌, inl, inr, List, [], ◌∷◌, ◌++◌, Bytes, Option,
  none, some, arith, length, length-set, length-append, get_or, get_elem?, ltb, leb, Bool-cases,
}
use mathlib.Core.List.{append-nil}
use asolaria_os.Envelope.{Slot, SlotState, empty, writing, full, reading, envelope_slot_bytes}
use asolaria_os.Envelope.Race.{
  Thread, sender, storing, len_stored, route_stored, depth_stored, sent, refused, receiver, claimed,
  restoring, copying, len_cleared, depth_cleared, received, denied, Shared, with_slot, next_try,
  claim_empty, claim_full, store_next, thread_step,
}
use asolaria_os.Envelope.Race.Claims.{
  Outcome, writes, reads, Holds, Local, in_flight, Mode, get-lt, get-none, take_all, take-set,
  take_snoc,
}

module _ (s : Shared) (w r : ℕ) (capacity : length s.slot.cells ≡ envelope_slot_bytes)
    (fifo : s.published ≡ s.delivered ++ in_flight s.slot.state s.message)
    (mode : Mode s.slot.state s w r) where
  -- A thread inside a claim is alone there.
  writing_state : 1 ≤ w → (s.slot.state ≡ writing) × (w ≡ 1) × (r ≡ 0)
  writing_state h = ground arith

  reading_state : 1 ≤ r → (s.slot.state ≡ reading) × (w ≡ 0) × (r ≡ 1)
  reading_state h = ground arith

  same-Mode : (w' r' : ℕ) → w' ≡ w → r' ≡ r → Mode s.slot.state s w' r'
  same-Mode w' r' e f = rw (e, f) mode

  still :
      (t t' : Thread)
      → writes t' ≡ writes t
      → reads t' ≡ reads t
      → Local s t'
      → Outcome t s w r t' s
  still t t' e f l = record {
    capacity = capacity;
    fifo = fifo;
    local = l;
    mode = λ w' r' g h. same-Mode w' r' (omega arith) (omega arith);
    focus = inl refl;
  }

  -- A writer or a reader goes on, inside its claim.
  writing_on :
      (t t' : Thread) (slot' : Slot)
      → (writes t ≡ 1) × (reads t ≡ 0) × (writes t' ≡ 1) × (reads t' ≡ 0)
      → 1 ≤ w
      → slot'.state ≡ s.slot.state
      → length slot'.cells ≡ envelope_slot_bytes
      → Local (with_slot s slot') t'
      → Outcome t s w r t' (with_slot s slot')
  writing_on t t' slot' own h e c l =
      let (st, w1, r0) = writing_state h in
      record {
        capacity = c;
        fifo = rw e fifo;
        local = l;
        mode = λ w' r' g k. rw (e ∙ st) (omega arith, omega arith);
        focus = inr (omega arith);
      }

  reading_on :
      (t t' : Thread) (slot' : Slot)
      → (writes t ≡ 0) × (reads t ≡ 1) × (writes t' ≡ 0) × (reads t' ≡ 1)
      → 1 ≤ r
      → slot'.state ≡ s.slot.state
      → length slot'.cells ≡ envelope_slot_bytes
      → Local (with_slot s slot') t'
      → Outcome t s w r t' (with_slot s slot')
  reading_on t t' slot' own h e c l =
      let (st, w0, r1) = reading_state h in
      record {
        capacity = c;
        fifo = rw e fifo;
        local = l;
        mode = λ w' r' g k. rw (e ∙ st) (omega arith, omega arith);
        focus = inr (omega arith);
      }

  claim_empty-Outcome :
      (st : SlotState) (route : ℕ) (env : Bytes)
      → s.slot.state ≡ st
      → length env ≤ envelope_slot_bytes
      → let (t', s') = claim_empty st route env s in Outcome (sender route env) s w r t' s'
  unfolding claim_empty
  claim_empty-Outcome empty route env e fits =
      let m : (w ≡ 0) × (r ≡ 0) = ground arith in
      record {
        capacity = capacity;
        fifo = let none_yet : in_flight s.slot.state s.message ≡ [] = rw e in rw (← none_yet) fifo;
        local = (fits, omega arith, refl);
        mode = λ w' r' g h. (omega arith, omega arith);
        focus = inr (omega arith);
      }
  claim_empty-Outcome writing route env e fits = still (sender route env) refused refl refl tt
  claim_empty-Outcome full route env e fits = still (sender route env) refused refl refl tt
  claim_empty-Outcome reading route env e fits = still (sender route env) refused refl refl tt

  sender-Outcome :
      (route : ℕ) (env : Bytes)
      → let (t', s') = thread_step (sender route env) s in Outcome (sender route env) s w r t' s'
  unfolding thread_step
  sender-Outcome route env = elim (Bool-cases (ltb envelope_slot_bytes (length env))) [
    | inl big ↦ rw big (still (sender route env) refused refl refl tt)
    | inr small ↦ rw small (claim_empty-Outcome s.slot.state route env refl (ground arith))
  ]

  next_try-Outcome : (cap budget : ℕ) → Outcome (receiver cap budget) s w r (next_try cap budget) s
  unfolding next_try
  next_try-Outcome cap budget = elim (Bool-cases (leb budget 1)) [
    | inl over ↦ rw over (still (receiver cap budget) denied refl refl tt)
    | inr more ↦ rw more (still (receiver cap budget) (receiver cap (budget - 1)) refl refl tt)
  ]

  claim_full-Outcome :
      (st : SlotState) (cap budget : ℕ)
      → s.slot.state ≡ st
      → let (t', s') = claim_full st cap budget s in Outcome (receiver cap budget) s w r t' s'
  unfolding claim_full
  claim_full-Outcome full cap budget e =
      let m : (w ≡ 0)
          × (r ≡ 0)
          × (length s.message ≤ envelope_slot_bytes)
          × Holds s.message s.slot =
        ground arith in
      record {
        capacity = capacity;
        fifo =
            let one : in_flight s.slot.state s.message ≡ s.message ∷ [] = rw e in rw (← one) fifo;
        local = (m.2, m.3);
        mode = λ w' r' g h. (omega arith, omega arith);
        focus = inr (omega arith);
      }
  claim_full-Outcome empty cap budget e = next_try-Outcome cap budget
  claim_full-Outcome writing cap budget e = next_try-Outcome cap budget
  claim_full-Outcome reading cap budget e = next_try-Outcome cap budget

  store_next-Outcome :
      (o : Option ℕ) (route : ℕ) (env : Bytes) (i : ℕ)
      → get_elem? env i ≡ o
      → 1 ≤ w
      → Local s (storing route env i)
      → let (t', s') = store_next o route env i s in Outcome (storing route env i) s w r t' s'
  unfolding store_next
  store_next-Outcome (some b) route env i e h (fits, i_le, same) =
      writing_on (storing route env i) (storing route env (suc i)) _ (refl, refl, refl, refl) h refl
        (length-set s.slot.cells i b ∙ capacity)
        (
          fits,
          get-lt env i b e,
          take-set i b s.slot.cells env same e (omega (arith, get-lt env i b e, capacity)),
        )
  store_next-Outcome none route env i e h (fits, i_le, same) =
      let i_eq : i ≡ length env = omega (arith, get-none env i e) in
      writing_on (storing route env i) (len_stored route env) _ (refl, refl, refl, refl) h refl
        capacity (fits, (refl, rw (← i_eq) (same ∙ take_all i env (omega arith))))

  copying-Outcome :
      (n : ℕ) (got : Bytes)
      → 1 ≤ r
      → Local s (copying n got)
      → let (t', s') = thread_step (copying n got) s in Outcome (copying n got) s w r t' s'
  unfolding thread_step
  copying-Outcome n got h (fits, n_eq, le, holds, same) = elim (Bool-cases (ltb (length got) n)) [
    | inl more ↦
        let next : ℕ = get_or s.slot.cells (length got) 0 in
        let grown : length (got ++ next ∷ []) ≡ suc (length got) =
          omega (arith, length-append got (next ∷ [])) in
        let lt : length got < length s.slot.cells = ground (arith, capacity) in
        rw more (
          still (copying n got) (copying n (got ++ next ∷ [])) refl refl (
            fits,
            n_eq,
            ground (arith, grown),
            holds,
            rw grown
                (ap (λ (g : Bytes). g ++ next ∷ []) same ∙ take_snoc (length got) s.slot.cells lt),
          ))
    | inr all_read ↦
        let len_eq : length got ≡ s.slot.len = ground (arith, holds.0) in
        rw all_read (
          reading_on (copying n got) (len_cleared got) _ (refl, refl, refl, refl) h refl capacity
            (same ∙ rw len_eq holds.1))
  ]

  pub step-Outcome :
      (t : Thread)
      → Local s t
      → writes t ≤ w
      → reads t ≤ r
      → let (t', s') = thread_step t s in Outcome t s w r t' s'
  unfolding thread_step
  step-Outcome (sender route env) l a b = sender-Outcome route env
  step-Outcome (storing route env i) l a b =
      store_next-Outcome (get_elem? env i) route env i refl a l
  step-Outcome (len_stored route env) l a b =
      writing_on (len_stored route env) (route_stored env) _ (refl, refl, refl, refl) a refl
        capacity l
  step-Outcome (route_stored env) l a b =
      writing_on (route_stored env) (depth_stored env) _ (refl, refl, refl, refl) a refl capacity l
  step-Outcome (depth_stored env) (fits, holds) a b =
      let (st, w1, r0) = writing_state a in
      record {
        capacity = capacity;
        fifo =
            let none_yet : in_flight s.slot.state s.message ≡ [] = rw st in
            let all_out : s.published ≡ s.delivered =
              fifo ∙ ap (◌++◌ s.delivered) none_yet ∙ append-nil s.delivered in
            ap (λ (p : List Bytes). p ++ env ∷ []) all_out;
        local = tt;
        mode = λ w' r' g h. (omega arith, omega arith, fits, holds);
        focus = inr (omega arith);
      }
  step-Outcome (sent env) l a b = still (sent env) (sent env) refl refl tt
  step-Outcome refused l a b = still refused refused refl refl tt
  step-Outcome (receiver cap budget) l a b = claim_full-Outcome s.slot.state cap budget refl
  step-Outcome (claimed cap) (fits, holds) a b = elim (Bool-cases (ltb cap s.slot.len)) [
    | inl short ↦ rw short (still (claimed cap) restoring refl refl (fits, holds))
    | inr long ↦ rw long (
        still (claimed cap) (copying s.slot.len []) refl refl
          (fits, holds.0, omega arith, holds, refl))
  ]
  step-Outcome restoring (fits, holds) a b =
      let (st, w0, r1) = reading_state b in
      record {
        capacity = capacity;
        fifo =
            let one : in_flight s.slot.state s.message ≡ s.message ∷ [] = rw st in rw (← one) fifo;
        local = tt;
        mode = λ w' r' g h. (omega arith, omega arith, fits, holds);
        focus = inr (omega arith);
      }
  step-Outcome (copying n got) l a b = copying-Outcome n got b l
  step-Outcome (len_cleared got) l a b =
      reading_on (len_cleared got) (depth_cleared got) _ (refl, refl, refl, refl) b refl capacity l
  step-Outcome (depth_cleared got) l a b =
      let (st, w0, r1) = reading_state b in
      record {
        capacity = capacity;
        fifo =
            let one : in_flight s.slot.state s.message ≡ got ∷ [] = rw (st, l) in
            (fifo ∙ ap (◌++◌ s.delivered) one) ∙ sym (append-nil _);
        local = tt;
        mode = λ w' r' g h. (omega arith, omega arith);
        focus = inr (omega arith);
      }
  step-Outcome (received got) l a b = still (received got) (received got) refl refl tt
  step-Outcome denied l a b = still denied denied refl refl tt
