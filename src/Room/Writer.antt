-- ===== src/Room/Writer.antt =====
-- The operations of `RoomWriter` (reflection_room/mod.rs). An operation on `&mut self` returns its
-- result and the writer. SHA-256 (the sha2 crate) is the parameter `sha256`.
use asolaria_os.Prelude.{
  ℕ, ◌+◌, ◌*◌, ◌/◌, ◌%◌, Bytes, bytes, same, length, all, any, be_bytes, u64_max, leb, ◌==◌, not,
  ◌&&◌, ◌||◌, if◌then◌else◌, Bool, true, false, Option, none, some, List, [], ◌∷◌, ◌++◌, Result, ok,
  err, ◌>>◌, guard,
}
use asolaria_os.Room.{
  RecallAccessLevel, owner_private, PiiState, no_pii, EventDraft, CommittedEvent, RoomHead,
  CommitOutcome, committed, duplicate, GulpTier, gulp2k, checkpoint10k, super_gulp50k, GulpSeal,
  RoomError, room_identity_missing, body_missing, body_hash_missing, idempotency_key_missing,
  selector_tuple_missing, selector_dims_too_small, pii_requires_owner_private,
  owner_identity_missing, parent_missing, parent_not_committed, active_window_full,
  stale_prepared_event, sequence_overflow, gulp_not_ready, distilled_product_missing, RoomWriter,
  active_envelope_window, gulps_per_checkpoint, checkpoints_per_super_gulp, min_selector_dims,
  genesis_sha256, requires_parent, kind_byte, authority_byte, access_byte, pii_byte, tier_byte,
}

unfoldable pub is_zero_sha : Bytes → Bool
is_zero_sha value = all (λ byte. byte == 0) value

unfoldable pub room_new : Bytes → Bytes → Result RoomError RoomWriter
unfolding is_zero_sha
room_new room_handle8 room_id_sha256 =
    if is_zero_sha room_id_sha256
    then err room_identity_missing
    else ok (record {
      room_handle8 = room_handle8;
      room_id_sha256 = room_id_sha256;
      next_sequence = 1;
      head_sha256 = genesis_sha256;
      recent = [];
      total_events = 0;
      total_gulps = 0;
    })

unfoldable pub read_committed_head : RoomWriter → RoomHead
read_committed_head w = record {
  room_handle8 = w.room_handle8;
  room_id_sha256 = w.room_id_sha256;
  next_sequence = w.next_sequence;
  head_sha256 = w.head_sha256;
  active_events = length w.recent;
  total_events = w.total_events;
  total_gulps = w.total_gulps;
  total_checkpoints = w.total_gulps / gulps_per_checkpoint;
  total_super_gulps = w.total_gulps / (gulps_per_checkpoint * checkpoints_per_super_gulp);
}

abbrev pub is_owner_private : RecallAccessLevel → Bool
is_owner_private owner_private = true
is_owner_private _ = false

abbrev pub is_no_pii : PiiState → Bool
is_no_pii no_pii = true
is_no_pii _ = false

unfoldable pub parent_known : RoomWriter → EventDraft → Bool
parent_known writer draft =
    same draft.parent_sha256 writer.head_sha256
    || any (λ event. same event.full_sha256 draft.parent_sha256) writer.recent

unfoldable pub validate_draft : RoomWriter → EventDraft → Result RoomError (Unit {0})
validate_draft writer draft = do
  guard (not (draft.body.length == 0)) body_missing
  guard (not (is_zero_sha draft.body.sha256)) body_hash_missing
  guard (not (is_zero_sha draft.idempotency_key)) idempotency_key_missing
  guard (not (is_zero_sha draft.selector_tuple_sha256)) selector_tuple_missing
  guard (leb min_selector_dims draft.selector_dims) (selector_dims_too_small draft.selector_dims)
  guard (is_owner_private draft.access_level || is_no_pii draft.pii_state)
      pii_requires_owner_private
  guard (not (is_owner_private draft.access_level && is_zero_sha draft.owner_pid_sha256))
      owner_identity_missing
  guard (not (requires_parent draft.kind && is_zero_sha draft.parent_sha256)) parent_missing
  guard (not (requires_parent draft.kind) || parent_known writer draft) parent_not_committed

-- What `event_sha256` feeds to the hasher, update by update.
unfoldable pub event_fields : Bytes → Bytes → ℕ → Bytes → EventDraft → List Bytes
event_fields room_id_sha256 room_handle8 sequence previous_sha256 draft =
    bytes "ASOLARIA-REFLECTION-ROOM-EVENT-V1"
    ∷ room_id_sha256
    ∷ room_handle8
    ∷ be_bytes 8 sequence
    ∷ previous_sha256
    ∷ (kind_byte draft.kind ∷ [])
    ∷ draft.source_handle8
    ∷ draft.source_pid_sha256
    ∷ draft.target_handle8
    ∷ draft.target_pid_sha256
    ∷ draft.verb_sha256
    ∷ be_bytes 8 draft.timestamp_ns
    ∷ draft.parent_sha256
    ∷ be_bytes 8 draft.body.offset
    ∷ be_bytes 4 draft.body.length
    ∷ draft.body.sha256
    ∷ be_bytes 2 draft.selector_dims
    ∷ draft.selector_tuple_sha256
    ∷ (authority_byte draft.authority ∷ [])
    ∷ (access_byte draft.access_level ∷ [])
    ∷ (pii_byte draft.pii_state ∷ [])
    ∷ draft.owner_pid_sha256
    ∷ draft.idempotency_key
    ∷ []

unfoldable pub concat : List Bytes → Bytes
concat [] = []
concat (f ∷ fs) = f ++ concat fs

-- `recent.iter().find(...)` on the idempotency key.
unfoldable pub find_key : Bytes → List CommittedEvent → Option CommittedEvent
find_key key [] = none
find_key key (event ∷ events) =
    if same event.draft.idempotency_key key then some event else find_key key events

module _ (sha256 : Bytes → Bytes) where
  unfoldable pub event_sha256 : Bytes → Bytes → ℕ → Bytes → EventDraft → Bytes
  unfolding concat
  event_sha256 room_id_sha256 room_handle8 sequence previous_sha256 draft =
      sha256 (concat (event_fields room_id_sha256 room_handle8 sequence previous_sha256 draft))

  unfoldable pub gulp_seal_sha256 : Bytes → Bytes → ℕ → ℕ → GulpTier → Bytes → Bytes
  gulp_seal_sha256 room_id_sha256 head_sha256 total_events gulp_index tier product = sha256 (
      concat (
        bytes "ASOLARIA-REFLECTION-ROOM-GULP-SEAL-V1"
        ∷ room_id_sha256
        ∷ head_sha256
        ∷ be_bytes 8 total_events
        ∷ be_bytes 8 gulp_index
        ∷ (tier_byte tier ∷ [])
        ∷ product
        ∷ []))

  -- The event that `prepare` builds once the draft is admitted.
  unfoldable pub event_of : RoomWriter → EventDraft → CommittedEvent
  event_of w draft = record {
    sequence = w.next_sequence;
    room_handle8 = w.room_handle8;
    room_id_sha256 = w.room_id_sha256;
    previous_sha256 = w.head_sha256;
    full_sha256 = event_sha256 w.room_id_sha256 w.room_handle8 w.next_sequence w.head_sha256 draft;
    draft = draft;
  }

  unfoldable pub prepare : EventDraft → RoomWriter → Result RoomError CommittedEvent
  prepare draft w = do
    validate_draft w draft
    let seen = any (λ event. same event.draft.idempotency_key draft.idempotency_key) w.recent
    guard (not (leb active_envelope_window (length w.recent) && not seen)) active_window_full
    guard (not (w.next_sequence == u64_max)) sequence_overflow
    ok (event_of w draft)

  abbrev pub seal_tier : ℕ → GulpTier
  seal_tier gulp_index =
      if gulp_index % (gulps_per_checkpoint * checkpoints_per_super_gulp) == 0
      then super_gulp50k
      else if gulp_index % gulps_per_checkpoint == 0
      then checkpoint10k
      else gulp2k

  unfoldable pub seal_of : Bytes → RoomWriter → GulpSeal
  seal_of product w =
      let gulp_index = w.total_gulps + 1 in
      record {
        tier = seal_tier gulp_index;
        sealed_events = active_envelope_window;
        cumulative_events = w.total_events;
        gulp_index = gulp_index;
        checkpoint_index = gulp_index / gulps_per_checkpoint;
        super_gulp_index = gulp_index / (gulps_per_checkpoint * checkpoints_per_super_gulp);
        room_head_sha256 = w.head_sha256;
        distilled_product_sha256 = product;
        seal_sha256 =
            gulp_seal_sha256 w.room_id_sha256 w.head_sha256 w.total_events gulp_index
              (seal_tier gulp_index) product;
      }

  unfoldable pub seal_gulp : Bytes → RoomWriter → Result RoomError GulpSeal × RoomWriter
  seal_gulp product w =
      if not (length w.recent == active_envelope_window)
      then (err (gulp_not_ready (length w.recent)), w)
      else if is_zero_sha product
      then (err distilled_product_missing, w)
      else if w.total_gulps == u64_max
      then (err sequence_overflow, w)
      else (ok (seal_of product w), record w { recent = []; total_gulps = w.total_gulps + 1 })

-- The end of `commit`: the event is pushed and the head moved before the counters are checked.
unfoldable pub push_event :
    CommittedEvent → RoomWriter → Result RoomError CommitOutcome × RoomWriter
push_event event w =
    let pushed = record w { recent = w.recent ++ event ∷ []; head_sha256 = event.full_sha256 } in
    if w.next_sequence == u64_max
    then (err sequence_overflow, pushed)
    else if w.total_events == u64_max
    then (err sequence_overflow, record pushed { next_sequence = w.next_sequence + 1 })
    else (
      ok (committed event),
      record pushed { next_sequence = w.next_sequence + 1; total_events = w.total_events + 1 },
    )

unfoldable pub commit_new :
    CommittedEvent → RoomWriter → Result RoomError CommitOutcome × RoomWriter
commit_new event w =
    if leb active_envelope_window (length w.recent)
    then (err active_window_full, w)
    else if not (event.sequence == w.next_sequence)
        || not (same event.previous_sha256 w.head_sha256)
    then (err stale_prepared_event, w)
    else push_event event w

abbrev commit_found :
    CommittedEvent
    → RoomWriter
    → Option CommittedEvent
    → Result RoomError CommitOutcome × RoomWriter
commit_found event w (some existing) = (ok (duplicate existing), w)
commit_found event w none = commit_new event w

unfoldable pub commit : CommittedEvent → RoomWriter → Result RoomError CommitOutcome × RoomWriter
unfolding find_key
commit event w = commit_found event w (find_key event.draft.idempotency_key w.recent)
