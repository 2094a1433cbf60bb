-- ===== src/Examples/Bus.antt =====
-- The envelope slot at concrete inputs.
use asolaria_os.Prelude.{ℕ, ◌≡◌, List, [], ◌∷◌, Bytes, replicate, Option, Result}
use asolaria_os.Envelope.{
  EnvelopeErr, Slot, initial, dispatch_enqueue_bytes, dispatch_dequeue_bytes,
}
use asolaria_os.Envelope.Mailbox.{
  IsQuiet, initial-IsQuiet, view, put, collect, alone, enqueue-put, dequeue-collect,
}
use asolaria_os.Envelope.Race.{Call, send, receive, run, boot}
use asolaria_os.Envelope.Race.Claims.{IsQueue}
use asolaria_os.Envelope.Race.Fifo.{run-boot-IsQueue}

abbrev letter : Bytes
letter = 104 ∷ 101 ∷ 121 ∷ []

-- Two senders and a receiver, interleaved.
abbrev calls : List Call
calls = send 0 letter ∷ send 1 (7 ∷ []) ∷ receive 16 3 ∷ []

abbrev schedule : List ℕ
schedule = 0 ∷ 1 ∷ 2 ∷ 0 ∷ 0 ∷ 2 ∷ 0 ∷ 0 ∷ 0 ∷ 0 ∷ 0 ∷ 2 ∷ 2 ∷ 2 ∷ 2 ∷ 2 ∷ 2 ∷ 2 ∷ 2 ∷ 2 ∷ []

run-boot-IsQueue_example : IsQueue (run (boot calls) schedule)
run-boot-IsQueue_example = run-boot-IsQueue calls schedule

enqueue-put_example :
    let (r, slot') = dispatch_enqueue_bytes letter 4 initial in
    IsQuiet slot'
    × (◌≡◌ {A = Result EnvelopeErr (Unit {0}) × Option (Bytes × ℕ)}
        (r, view slot')
        (put letter 4 (view initial)))
enqueue-put_example = enqueue-put letter 4 initial initial-IsQuiet

abbrev posted : Slot
posted = (dispatch_enqueue_bytes letter 4 initial).1

dequeue-collect_example :
    let (r, buf', slot') = dispatch_dequeue_bytes alone (replicate 8 0) 5 posted in
    IsQuiet slot'
    × (◌≡◌ {A = Result EnvelopeErr ℕ × Bytes × Option (Bytes × ℕ)}
        (r, buf', view slot')
        (collect (replicate 8 0) (view posted)))
dequeue-collect_example =
    dequeue-collect (replicate 8 0) 5 posted ((enqueue-put letter 4 initial initial-IsQuiet).0)
