-- ===== src/Examples/Kernels.antt =====
-- The system calls and the peer state machine at concrete inputs.
use asolaria_os.Prelude.{
  ℕ, ◌≡◌, refl, List, [], ◌∷◌, ◌++◌, Bytes, bytes, drop, replicate, none, some, arith, ok,
}
use asolaria_os.Access.{proceed}
use asolaria_os.Envelope.{initial}
use asolaria_os.Envelope.Mailbox.{alone, view}
use asolaria_os.Syscall.{sys_envelope_send, sys_envelope_recv}
use asolaria_os.Syscall.Dispatch.{
  Call, fork, time, mmap, envelope_send, post_hook, serve_all, booted,
}
use asolaria_os.Syscall.Invariant.{IsSound, booted-IsSound, serve_all-IsSound}
use asolaria_os.Syscall.Loopback.{send-recv}
use asolaria_os.Cycle.{probing, alive, kicked, PeerStateMachine, machine_new}
use asolaria_os.Cycle.Trail.{Event, move, kick, reply, apply_all, IsTrail, apply_all-IsTrail}

abbrev letter : Bytes
letter = replicate 40 9

abbrev calls : List Call
calls =
    fork ∷ time ∷ mmap 5000 3 ∷ envelope_send letter 0 ∷ fork ∷ post_hook (1 ∷ 2 ∷ []) proceed ∷ []

serve_all-IsSound_example : IsSound (serve_all calls booted)
serve_all-IsSound_example = serve_all-IsSound calls

abbrev between : List Call
between = fork ∷ time ∷ mmap 5000 3 ∷ []

send-recv_example :
    let (sent, k1) = sys_envelope_send letter 0 booted in
    let (got, buf', k2) = sys_envelope_recv alone (replicate 64 0) 7 (serve_all between k1) in
    (sent ≡ ok tt)
    × (got ≡ ok 40)
    × (buf' ≡ letter ++ drop 40 (replicate 64 0))
    × (view k2.slot ≡ none)
unfolding initial
send-recv_example =
    send-recv letter (replicate 64 0) 0 7 between booted booted-IsSound refl (omega arith)
      (omega arith) (omega arith) refl

abbrev events : List (Event × ℕ)
events = (move probing [], 1) ∷ (move alive [], 2) ∷ (kick 10, 3) ∷ (reply, 4) ∷ []

apply_all-IsTrail_example : IsTrail (apply_all events (machine_new (bytes "acer")))
apply_all-IsTrail_example = apply_all-IsTrail events (bytes "acer")

abbrev late : PeerStateMachine
late = record {
  peer_id = bytes "acer";
  state = kicked;
  history = [];
  last_transition_ns = 3;
  kick_deadline_ns = some 13;
  strikes = 0;
}
