-- ===== src/Examples/Rooms.antt =====
-- The reflection room at concrete inputs: one room, one draft for each idempotency key, and the room
-- filled with the first `n` of them.
use asolaria_os.Prelude.{
  ℕ, ◌+◌, ◌≡◌, ◌⊎◌, refl, List, [], ◌∷◌, length, ◌++◌, Bytes, replicate, be_bytes, arith, same, ok,
  err,
}
use asolaria_os.Room.{
  CommittedEvent, EventDraft, RoomWriter, task_in, measured, federation, no_pii, committed,
  duplicate, stale_prepared_event, active_window_full, genesis_sha256, requires_parent,
}
use asolaria_os.Room.Writer.{
  room_new, event_sha256, seal_gulp, prepare, event_of, validate_draft, commit, commit_new,
  push_event, find_key, is_zero_sha,
}
use asolaria_os.Room.Ledger.{IsLedger, room_new-IsLedger, commit-IsLedger}
use asolaria_os.Room.Idempotency.{commit-commit_race, commit-prepare, commit_crosses_rooms}
use asolaria_os.Room.Retry.{RoomCall, committing, sealing, run_room, commit-run_room_same_key}
use asolaria_os.Room.Encoding.{IsSized, event_fields-injective}
use asolaria_os.Room.Novelty.{NoveltyGate}

abbrev pub digest : Bytes → Bytes
digest message = replicate 32 7

abbrev pub id : Bytes
id = replicate 32 1

abbrev pub handle : Bytes
handle = replicate 8 2

abbrev pub key : ℕ → Bytes
key n = be_bytes 32 (n + 1)

abbrev pub draft : Bytes → EventDraft
draft idempotency_key = record {
  kind = task_in;
  source_handle8 = handle;
  source_pid_sha256 = id;
  target_handle8 = handle;
  target_pid_sha256 = id;
  verb_sha256 = id;
  timestamp_ns = 99;
  parent_sha256 = genesis_sha256;
  body = record { offset = 0; length = 12; sha256 = id };
  selector_dims = 60;
  selector_tuple_sha256 = id;
  authority = measured;
  access_level = federation;
  pii_state = no_pii;
  owner_pid_sha256 = genesis_sha256;
  idempotency_key = idempotency_key;
}

abbrev pub room : RoomWriter
room = record {
  room_handle8 = handle;
  room_id_sha256 = id;
  next_sequence = 1;
  head_sha256 = genesis_sha256;
  recent = [];
  total_events = 0;
  total_gulps = 0;
}

abbrev event : Bytes → CommittedEvent
event k = event_of digest room (draft k)

abbrev after : Bytes → RoomWriter
after k = record room {
  recent = event k ∷ [];
  head_sha256 = replicate 32 7;
  next_sequence = 2;
  total_events = 1;
}

pub room-IsLedger : IsLedger room
unfolding room_new is_zero_sha
room-IsLedger = room_new-IsLedger handle id room refl

prepared : prepare digest (draft id) room ≡ ok (event id)
unfolding prepare validate_draft is_zero_sha requires_parent event_of
prepared = refl

prepared_other : prepare digest (draft handle) room ≡ ok (event handle)
unfolding prepare validate_draft is_zero_sha requires_parent event_of
prepared_other = refl

done : commit (event id) room ≡ (ok (committed (event id)), after id)
unfolding commit commit_new push_event find_key event_of same event_sha256
done = refl

commit-IsLedger_example :
    IsLedger ((commit (event id) room).1)
    × (((commit (event id) room ≡ (ok (committed (event id)), (commit (event id) room).1))
          × ((commit (event id) room).1.recent ≡ room.recent ++ event id ∷ [])
          × ((commit (event id) room).1.total_events ≡ room.total_events + 1))
        ⊎ ((commit (event id) room).1 ≡ room))
commit-IsLedger_example =
    commit-IsLedger digest (draft id) room room (event id) room-IsLedger prepared

-- A later event is committed and a seal is refused before the retry comes.
abbrev calls : List RoomCall
calls = committing (event_of digest (after id) (draft handle)) ∷ sealing id ∷ []

two_events : length (run_room digest calls (after id)).recent ≡ 2
unfolding run_room seal_gulp commit commit_new push_event find_key event_of same event_sha256
two_events = refl

commit-run_room_same_key_example :
    commit (event id) (run_room digest calls (after id))
    ≡ (ok (duplicate (event id)), run_room digest calls (after id))
unfolding run_room seal_gulp commit commit_new push_event find_key event_of same event_sha256
commit-run_room_same_key_example =
    commit-run_room_same_key digest (event id) (event id) calls room (after id) done refl refl

commit-commit_race_example :
    (commit (event handle) (after id) ≡ (err stale_prepared_event, after id))
    ⊎ (commit (event handle) (after id) ≡ (err active_window_full, after id))
unfolding find_key
commit-commit_race_example =
    commit-commit_race digest (draft id) (draft handle) (event id) (event handle) room (after id)
      prepared prepared_other (λ e. cc) refl done

commit-prepare_example :
    ((event id).draft ≡ draft id)
    × ((w' : RoomWriter) × (commit (event id) room ≡ (ok (committed (event id)), w'))
        × (w'.recent ≡ room.recent ++ event id ∷ [])
        × (w'.head_sha256 ≡ (event id).full_sha256)
        × (w'.next_sequence ≡ room.next_sequence + 1))
unfolding find_key
commit-prepare_example =
    commit-prepare digest (draft id) (event id) room room-IsLedger refl prepared

abbrev other_id : Bytes
other_id = replicate 32 9

abbrev other : RoomWriter
other = record room { room_id_sha256 = other_id }

commit_crosses_rooms_example :
    (other' : RoomWriter) × (commit (event id) other ≡ (ok (committed (event id)), other'))
    × (other'.recent ≡ event id ∷ [])
    × (other'.room_id_sha256 ≡ other_id)
    × ((event id).room_id_sha256 ≡ id)
unfolding room_new is_zero_sha
commit_crosses_rooms_example =
    commit_crosses_rooms digest (draft id) (event id) handle id handle other_id room other refl refl
      prepared

sized : IsSized (draft id)
sized = record {
  source_handle8 = refl;
  source_pid_sha256 = refl;
  target_handle8 = refl;
  target_pid_sha256 = refl;
  verb_sha256 = refl;
  timestamp_ns = omega arith;
  parent_sha256 = refl;
  offset = omega arith;
  body_length = omega arith;
  body_sha256 = refl;
  selector_dims = omega arith;
  selector_tuple_sha256 = refl;
  owner_pid_sha256 = refl;
  idempotency_key = refl;
}

event_fields-injective_example :
    (id ≡ id)
    × (handle ≡ handle)
    × (◌≡◌ {A = ℕ} 1 1)
    × (genesis_sha256 ≡ genesis_sha256)
    × (draft id ≡ draft id)
event_fields-injective_example =
    event_fields-injective id handle genesis_sha256 id handle genesis_sha256 1 1 (draft id)
      (draft id) refl refl refl refl refl refl (omega arith) (omega arith) sized sized refl

abbrev gate : NoveltyGate
gate = record { epsilon_bps = 500; saturation_limit = 2; low_novelty_run = 0 }
