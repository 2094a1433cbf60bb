-- ===== src/Examples/FullWindow.antt =====
-- A room filled with 2000 events, one for each idempotency key, and its sealing.
use asolaria_os.Prelude.{
  ℕ, zero, suc, ◌+◌, ◌*◌, ◌/◌, ◌≤◌, ◌≡◌, ◌≢◌, refl, ap, ◌∙◌, [], ◌∷◌, ◌++◌, length, length-append,
  be_bytes-injective, true, false, none, arith, u64_max, ◌==◌, ok,
}
use asolaria_os.Room.{RoomWriter}
use asolaria_os.Room.Writer.{event_of, push_event, find_key, seal_gulp, seal_of, is_zero_sha}
use asolaria_os.Room.Ledger.{IsLedger, push_event-IsLedger, push_event-parts, seal_gulp-IsLedger}
use asolaria_os.Room.Idempotency.{find_key-other}
use asolaria_os.Examples.Rooms.{digest, id, key, draft, room, room-IsLedger}

fill : ℕ → RoomWriter
fill zero = room
fill (suc n) = (push_event (event_of digest (fill n) (draft (key n))) (fill n)).1

record Filled (n : ℕ) : Type 0 where
  ledger : IsLedger (fill n)
  next : (fill n).next_sequence ≡ n + 1
  total : (fill n).total_events ≡ n
  gulps : (fill n).total_gulps ≡ 0
  held : length ((fill n).recent) ≡ n
  fresh : (m : ℕ) → n ≤ m → m ≤ 2000 → find_key (key m) ((fill n).recent) ≡ none

key_ne : (m n : ℕ) → m ≤ 2000 → n ≤ 2000 → m ≢ n → key m ≢ key n
key_ne m n h k ne e =
    ne (omega (arith, be_bytes-injective 32 (m + 1) (n + 1) (omega arith) (omega arith) e))

fill-Filled : (n : ℕ) → n ≤ 2000 → Filled n
unfolding fill event_of find_key
fill-Filled zero h = record {
  ledger = room-IsLedger;
  next = refl;
  total = refl;
  gulps = refl;
  held = refl;
  fresh = λ m a b. none_yet m;
}
  where
    none_yet : (m : ℕ) → find_key (key m) [] ≡ none
    none_yet m = refl
fill-Filled (suc n) h =
    let f = fill-Filled n (omega arith) in
    let e = event_of digest (fill n) (draft (key n)) in
    let parts = push_event-parts e (fill n) (omega (arith, f.next)) (omega (arith, f.total)) in
    let rows : (fill (suc n)).recent ≡ (fill n).recent ++ e ∷ [] = ap (λ p. p.1.recent) parts in
    record {
      ledger =
          push_event-IsLedger e (fill n) f.ledger (f.fresh n (omega arith) (omega arith))
            (omega (arith, f.held)) refl refl (omega (arith, f.next));
      next = ap (λ p. p.1.next_sequence) parts ∙ omega (arith, f.next);
      total = ap (λ p. p.1.total_events) parts ∙ omega (arith, f.total);
      gulps = ap (λ p. p.1.total_gulps) parts ∙ f.gulps;
      held = ap length rows ∙ omega (arith, f.held, length-append ((fill n).recent) (e ∷ []));
      fresh = λ m a b.
          ap (find_key (key m)) rows
          ∙ find_key-other ((fill n).recent) e (key m) (f.fresh m (omega arith) b)
              (key_ne n m (omega arith) b (omega arith));
    }

seals :
    (w : RoomWriter)
    → length w.recent ≡ 2000
    → w.total_gulps ≡ 0
    → seal_gulp digest id w
      ≡ (ok (seal_of digest id w), record w { recent = []; total_gulps = w.total_gulps + 1 })
unfolding seal_gulp is_zero_sha
seals w n g =
    let whole : (length w.recent == 2000) ≡ true = ground arith in
    let room_left : (w.total_gulps == u64_max) ≡ false = ground arith in rw (whole, room_left) refl

abbrev whole_room : RoomWriter
whole_room = fill 2000

abbrev next_room : RoomWriter
next_room = record whole_room { recent = []; total_gulps = whole_room.total_gulps + 1 }

whole_room-Filled : Filled 2000
whole_room-Filled = fill-Filled 2000 (omega arith)

seal_gulp-IsLedger_example :
    let seal = seal_of digest id whole_room in
    IsLedger next_room
    × (length whole_room.recent ≡ 2000)
    × (next_room.recent ≡ [])
    × (next_room.head_sha256 ≡ whole_room.head_sha256)
    × (seal.cumulative_events ≡ 2000 * seal.gulp_index)
    × (seal.checkpoint_index ≡ seal.cumulative_events / 10000)
    × (seal.super_gulp_index ≡ seal.cumulative_events / 50000)
seal_gulp-IsLedger_example =
    seal_gulp-IsLedger digest id whole_room next_room (seal_of digest id whole_room)
      whole_room-Filled.ledger (seals whole_room whole_room-Filled.held whole_room-Filled.gulps)
