-- ===== src/Envelope/Race/Fifo.antt =====
-- The slot is a queue under every interleaving (envelope/mod.rs).
use asolaria_os.Prelude.{ℕ, ◌≡◌, refl, inl, inr, List, [], ◌∷◌, arith, get_elem?, Option-cases}
use asolaria_os.Envelope.Race.{
  thread_step, World, world_step, run, Call, send, receive, begin_all, boot,
}
use asolaria_os.Envelope.Race.Claims.{
  IsQueue, writers, readers, All-idle, own_le, others_idle, count-set, All-get, All-set,
}
use asolaria_os.Envelope.Race.Steps.{step-Outcome}

world_step-IsQueue : (w : World) (i : ℕ) → IsQueue w → IsQueue (world_step w i)
unfolding world_step
world_step-IsQueue w i v = elim (Option-cases (get_elem? w.threads i)) [
  | inl e ↦ rw (e, world_step) v
  | inr (t, e) ↦
      let le = own_le w.threads i t e in
      let o =
        step-Outcome w.shared (writers w.threads) (readers w.threads) v.capacity v.fifo v.mode t
          (All-get w.shared w.threads i t v.local e) le.0 le.1 in
      let count = count-set w.threads i t (thread_step t w.shared).0 e in
      rw (e, world_step)
        (record {
          capacity = o.capacity;
          mode = o.mode _ _ count.0 count.1;
          local = elim o.focus [
            | inl same ↦ rw same (All-set w.shared w.threads i _ v.local (rw same at o.local))
            | inr only ↦ others_idle (thread_step t w.shared).1 w.threads i t _ e only o.local
          ];
          fifo = o.fifo;
        })
]

run-IsQueue : (w : World) (schedule : List ℕ) → IsQueue w → IsQueue (run w schedule)
unfolding run
run-IsQueue w [] v = v
run-IsQueue w (i ∷ schedule) v = run-IsQueue (world_step w i) schedule (world_step-IsQueue w i v)

begin_idle : (calls : List Call) → (writers (begin_all calls) ≡ 0) × (readers (begin_all calls) ≡ 0)
begin_idle [] = (refl, refl)
begin_idle (send route env ∷ calls) = omega (arith, begin_idle calls)
begin_idle (receive cap budget ∷ calls) = omega (arith, begin_idle calls)

boot-IsQueue : (calls : List Call) → IsQueue (boot calls)
unfolding boot
boot-IsQueue calls = record {
  capacity = refl;
  mode = begin_idle calls;
  local = All-idle (boot calls).shared (begin_all calls) (omega (arith, begin_idle calls));
  fifo = refl;
}

-- However the accesses of any number of calls interleave, one thread at most is inside a claim,
-- and the messages delivered are those published, each once, whole and in order, but for one that
-- may be in flight.
pub run-boot-IsQueue : (calls : List Call) (schedule : List ℕ) → IsQueue (run (boot calls) schedule)
run-boot-IsQueue calls schedule = run-IsQueue (boot calls) schedule (boot-IsQueue calls)
