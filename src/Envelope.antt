-- ===== src/Envelope.antt =====
-- kernel/core/src/envelope/mod.rs: the single-slot byte queue. The static atomics are the record
-- `Slot`; an operation returns its result and the new slot.
pub mod Mailbox
pub mod Race
use asolaria_os.Prelude.{
  ℕ, zero, suc, ◌+◌, ◌-◌, ◌*◌, ◌/◌, min, List, [], ◌∷◌, ◌++◌, Bytes, length, set, take, drop,
  replicate, get_or, ltb, leb, ◌==◌, if◌then◌else◌, Bool, true, false, Result, ok, err,
}

pub data EnvelopeErr : Type 0 where
  queue_full queue_empty payload_oversize signature_invalid route_unknown unimplemented :
      EnvelopeErr

abbrev pub envelope_queue_capacity : ℕ
envelope_queue_capacity = 16384

abbrev pub envelope_gc_trigger_pct : ℕ
envelope_gc_trigger_pct = 75

abbrev pub envelope_slot_bytes : ℕ
envelope_slot_bytes = 1024

abbrev pub min_envelope_bytes : ℕ
min_envelope_bytes = 32

-- The values of `SLOT_STATE`.
pub data SlotState : Type 0 where
  empty writing full reading : SlotState

pub record Slot : Type 0 where
  pub state : SlotState
  pub len : ℕ
  pub route : ℕ
  pub cells : Bytes
  pub depth : ℕ

unfoldable pub initial : Slot
initial = record {
  state = empty;
  len = 0;
  route = 0;
  cells = replicate envelope_slot_bytes 0;
  depth = 0;
}

abbrev is_empty_state : SlotState → Bool
is_empty_state empty = true
is_empty_state _ = false

abbrev is_full_state : SlotState → Bool
is_full_state full = true
is_full_state _ = false

-- `for (i, b) in env.iter().enumerate() { SLOT_BYTES[i].store(*b) }`
pub publish : ℕ → Bytes → Bytes → Bytes
publish i [] cells = cells
publish i (b ∷ env) cells = publish (suc i) env (set cells i b)

-- `for i in 0..n { buf[i] = SLOT_BYTES[i].load() }`, from index `i` with `n` rounds left.
pub fetch : ℕ → ℕ → Bytes → Bytes → Bytes
fetch zero i cells buf = buf
fetch (suc n) i cells buf = fetch n (suc i) cells (set buf i (get_or cells i 0))

unfoldable pub dispatch_enqueue_bytes : Bytes → ℕ → Slot → Result EnvelopeErr (Unit {0}) × Slot
dispatch_enqueue_bytes env route_hint slot =
    if ltb envelope_slot_bytes (length env)
    then (err payload_oversize, slot)
    else if is_empty_state slot.state
    then (
      ok tt,
      record {
        state = full;
        len = length env;
        route = route_hint;
        cells = publish 0 env slot.cells;
        depth = 1;
      },
    )
    else (err queue_full, slot)

-- The branch after the slot is claimed: the result, the buffer and the slot.
unfoldable pub consume : Bytes → Slot → Result EnvelopeErr ℕ × Bytes × Slot
consume buf slot = if ltb (length buf) slot.len then (err payload_oversize, buf, slot) else (
  ok slot.len,
  fetch slot.len 0 slot.cells buf,
  record slot { state = empty; len = 0; depth = 0 },
)

-- The poll loop with `budget` tries left; `others` is what the rest of the system does to the slot
-- before a new try.
unfoldable pub poll : (Slot → Slot) → ℕ → Bytes → Slot → Result EnvelopeErr ℕ × Bytes × Slot
poll others zero buf slot = (err queue_empty, buf, slot)
poll others (suc zero) buf slot = elim (is_full_state slot.state) [
  | true ↦ consume buf slot
  | false ↦ (err queue_empty, buf, slot)
]
poll others (suc (suc budget)) buf slot = elim (is_full_state slot.state) [
  | true ↦ consume buf slot
  | false ↦ poll others (suc budget) buf (others slot)
]

unfoldable pub spin_budget : ℕ → ℕ
spin_budget max_wait_ns = if max_wait_ns == 0 then 1 else min max_wait_ns 1_000_000

unfoldable pub dispatch_dequeue_bytes :
    (Slot → Slot) → Bytes → ℕ → Slot → Result EnvelopeErr ℕ × Bytes × Slot
dispatch_dequeue_bytes others buf max_wait_ns slot = poll others (spin_budget max_wait_ns) buf slot

unfoldable pub queue_depth : Slot → ℕ
queue_depth slot = slot.depth

unfoldable pub should_trigger_gc : Slot → Bool
unfolding queue_depth
should_trigger_gc slot =
    let threshold = envelope_queue_capacity * envelope_gc_trigger_pct / 100 in
    leb threshold (queue_depth slot)
