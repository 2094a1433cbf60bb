-- ===== src/Room.antt =====
-- kernel/core/src/reflection_room/mod.rs: the event-sourced reflection room. This file holds the
-- data; the writer's operations are in Room/Writer.antt, the novelty gate in Room/Novelty.antt.
pub mod Writer
pub mod Ledger
pub mod Idempotency
pub mod Admission
pub mod Encoding
pub mod Retry
pub mod Novelty
use asolaria_os.Prelude.{ℕ, ◌*◌, Bytes, replicate, Bool, true, false, List}

abbrev pub active_envelope_window : ℕ
active_envelope_window = 2000

abbrev pub gulps_per_checkpoint : ℕ
gulps_per_checkpoint = 5

abbrev pub checkpoints_per_super_gulp : ℕ
checkpoints_per_super_gulp = 5

abbrev pub min_selector_dims : ℕ
min_selector_dims = 60

abbrev pub genesis_sha256 : Bytes
genesis_sha256 = replicate 32 0

pub data RoomEventKind : Type 0 where
  task_in work_note tool_result translated_note self_reflection peer_review supervisor_control
        final_result :
      RoomEventKind

unfoldable pub requires_parent : RoomEventKind → Bool
requires_parent translated_note = true
requires_parent self_reflection = true
requires_parent peer_review = true
requires_parent final_result = true
requires_parent _ = false

-- `kind as u8`
unfoldable pub kind_byte : RoomEventKind → ℕ
kind_byte task_in = 1
kind_byte work_note = 2
kind_byte tool_result = 3
kind_byte translated_note = 4
kind_byte self_reflection = 5
kind_byte peer_review = 6
kind_byte supervisor_control = 7
kind_byte final_result = 8

pub data AuthorityState : Type 0 where
  unverified measured canon held : AuthorityState

unfoldable pub authority_byte : AuthorityState → ℕ
authority_byte unverified = 0
authority_byte measured = 1
authority_byte canon = 2
authority_byte held = 3

pub data RecallAccessLevel : Type 0 where
  public federation owner_private : RecallAccessLevel

unfoldable pub access_byte : RecallAccessLevel → ℕ
access_byte public = 0
access_byte federation = 5
access_byte owner_private = 9

pub data PiiState : Type 0 where
  no_pii keyed_consented unknown : PiiState

unfoldable pub pii_byte : PiiState → ℕ
pii_byte no_pii = 0
pii_byte keyed_consented = 1
pii_byte unknown = 2

pub record BodyRef : Type 0 where
  pub offset : ℕ
  pub length : ℕ
  pub sha256 : Bytes

pub record EventDraft : Type 0 where
  pub kind : RoomEventKind
  pub source_handle8 : Bytes
  pub source_pid_sha256 : Bytes
  pub target_handle8 : Bytes
  pub target_pid_sha256 : Bytes
  pub verb_sha256 : Bytes
  pub timestamp_ns : ℕ
  pub parent_sha256 : Bytes
  pub body : BodyRef
  pub selector_dims : ℕ
  pub selector_tuple_sha256 : Bytes
  pub authority : AuthorityState
  pub access_level : RecallAccessLevel
  pub pii_state : PiiState
  pub owner_pid_sha256 : Bytes
  pub idempotency_key : Bytes

-- A `PreparedEvent` is a wrapper of this record.
pub record CommittedEvent : Type 0 where
  pub sequence : ℕ
  pub room_handle8 : Bytes
  pub room_id_sha256 : Bytes
  pub previous_sha256 : Bytes
  pub full_sha256 : Bytes
  pub draft : EventDraft

pub record RoomHead : Type 0 where
  pub room_handle8 : Bytes
  pub room_id_sha256 : Bytes
  pub next_sequence : ℕ
  pub head_sha256 : Bytes
  pub active_events : ℕ
  pub total_events : ℕ
  pub total_gulps : ℕ
  pub total_checkpoints : ℕ
  pub total_super_gulps : ℕ

pub data CommitOutcome : Type 0 where
  committed : CommittedEvent → CommitOutcome
  duplicate : CommittedEvent → CommitOutcome

pub data GulpTier : Type 0 where
  gulp2k checkpoint10k super_gulp50k : GulpTier

unfoldable pub tier_byte : GulpTier → ℕ
tier_byte gulp2k = 1
tier_byte checkpoint10k = 2
tier_byte super_gulp50k = 3

pub record GulpSeal : Type 0 where
  pub tier : GulpTier
  pub sealed_events : ℕ
  pub cumulative_events : ℕ
  pub gulp_index : ℕ
  pub checkpoint_index : ℕ
  pub super_gulp_index : ℕ
  pub room_head_sha256 : Bytes
  pub distilled_product_sha256 : Bytes
  pub seal_sha256 : Bytes

pub data RoomError : Type 0 where
  room_identity_missing body_missing body_hash_missing idempotency_key_missing : RoomError
  selector_tuple_missing : RoomError
  selector_dims_too_small : ℕ → RoomError
  pii_requires_owner_private owner_identity_missing parent_missing parent_not_committed : RoomError
  active_window_full stale_prepared_event sequence_overflow : RoomError
  gulp_not_ready : ℕ → RoomError
  distilled_product_missing : RoomError

pub record RoomWriter : Type 0 where
  pub room_handle8 : Bytes
  pub room_id_sha256 : Bytes
  pub next_sequence : ℕ
  pub head_sha256 : Bytes
  pub recent : List CommittedEvent
  pub total_events : ℕ
  pub total_gulps : ℕ
