-- ===== src/Envelope/Race.antt =====
-- Any number of senders and receivers on the slot of envelope/mod.rs: every atomic access of
-- `dispatch_enqueue_bytes` and `dispatch_dequeue_bytes` is one step, a schedule says which thread
-- makes the next one. The Release store of `SLOT_STATE` and the Acquire of the claims make the
-- relaxed stores between them visible, so the accesses are taken one after the other.
pub mod Claims
pub mod Steps
pub mod Fifo
use asolaria_os.Prelude.{
  ℕ, zero, suc, ◌+◌, ◌-◌, List, [], ◌∷◌, ◌++◌, Bytes, Option, none, some, length, set, get_or,
  get_elem?, ltb, leb, if◌then◌else◌,
}
use asolaria_os.Envelope.{
  Slot, SlotState, empty, writing, full, reading, initial, envelope_slot_bytes,
}

-- Where a call stands. A sender carries its route hint and its envelope, a receiver the length of
-- its buffer, its budget of tries, and the bytes copied so far.
pub data Thread : Type 0 where
  sender : ℕ → Bytes → Thread
  storing : ℕ → Bytes → ℕ → Thread
  len_stored : ℕ → Bytes → Thread
  route_stored : Bytes → Thread
  depth_stored : Bytes → Thread
  sent : Bytes → Thread
  refused : Thread
  receiver : ℕ → ℕ → Thread
  claimed : ℕ → Thread
  restoring : Thread
  copying : ℕ → Bytes → Thread
  len_cleared : Bytes → Thread
  depth_cleared : Bytes → Thread
  received : Bytes → Thread
  denied : Thread

-- The slot, with a record of what was published and delivered, in order, and of the last message
-- published; no step depends on the record.
pub record Shared : Type 0 where
  pub slot : Slot
  pub published : List Bytes
  pub delivered : List Bytes
  pub message : Bytes

abbrev pub with_slot : Shared → Slot → Shared
with_slot s slot = record s { slot = slot }

-- `tries += 1; if tries >= spin_budget { return Err(QueueEmpty) }`
unfoldable pub next_try : ℕ → ℕ → Thread
next_try cap budget = if leb budget 1 then denied else receiver cap (budget - 1)

claim_empty : SlotState → ℕ → Bytes → Shared → Thread × Shared
claim_empty empty route env s =
    (storing route env 0, with_slot s (record (s.slot) { state = writing }))
claim_empty _ route env s = (refused, s)

claim_full : SlotState → ℕ → ℕ → Shared → Thread × Shared
claim_full full cap budget s = (claimed cap, with_slot s (record (s.slot) { state = reading }))
claim_full _ cap budget s = (next_try cap budget, s)

store_next : Option ℕ → ℕ → Bytes → ℕ → Shared → Thread × Shared
store_next (some b) route env i s =
    (storing route env (suc i), with_slot s (record (s.slot) { cells = set s.slot.cells i b }))
store_next none route env i s =
    (len_stored route env, with_slot s (record (s.slot) { len = length env }))

pub thread_step : Thread → Shared → Thread × Shared
unfolding claim_empty claim_full store_next
thread_step (sender route env) s =
    if ltb envelope_slot_bytes (length env)
    then (refused, s)
    else claim_empty s.slot.state route env s
thread_step (storing route env i) s = store_next (get_elem? env i) route env i s
thread_step (len_stored route env) s =
    (route_stored env, with_slot s (record (s.slot) { route = route }))
thread_step (route_stored env) s = (depth_stored env, with_slot s (record (s.slot) { depth = 1 }))
thread_step (depth_stored env) s = (
  sent env,
  record s {
    slot = record (s.slot) { state = full };
    published = s.published ++ env ∷ [];
    message = env;
  },
)
thread_step (sent env) s = (sent env, s)
thread_step refused s = (refused, s)
thread_step (receiver cap budget) s = claim_full s.slot.state cap budget s
thread_step (claimed cap) s =
    if ltb cap s.slot.len then (restoring, s) else (copying s.slot.len [], s)
thread_step restoring s = (denied, with_slot s (record (s.slot) { state = full }))
thread_step (copying n got) s =
    if ltb (length got) n
    then (copying n (got ++ get_or s.slot.cells (length got) 0 ∷ []), s)
    else (len_cleared got, with_slot s (record (s.slot) { len = 0 }))
thread_step (len_cleared got) s = (depth_cleared got, with_slot s (record (s.slot) { depth = 0 }))
thread_step (depth_cleared got) s = (
  received got,
  record s { slot = record (s.slot) { state = empty }; delivered = s.delivered ++ got ∷ [] },
)
thread_step (received got) s = (received got, s)
thread_step denied s = (denied, s)

pub record World : Type 0 where
  pub threads : List Thread
  pub shared : Shared

unfoldable pub world_step : World → ℕ → World
unfolding thread_step
world_step w i = elim (get_elem? w.threads i) [
  | none ↦ w
  | some t ↦
      let (t', shared') = thread_step t w.shared in
      record { threads = set w.threads i t'; shared = shared' }
]

unfoldable pub run : World → List ℕ → World
unfolding world_step
run w [] = w
run w (i ∷ schedule) = run (world_step w i) schedule

-- Callers that have not begun.
pub data Call : Type 0 where
  send : ℕ → Bytes → Call
  receive : ℕ → ℕ → Call

abbrev pub begin : Call → Thread
begin (send route env) = sender route env
begin (receive cap budget) = receiver cap budget

abbrev pub begin_all : List Call → List Thread
begin_all [] = []
begin_all (c ∷ calls) = begin c ∷ begin_all calls

unfoldable pub boot : List Call → World
unfolding initial
boot calls = record {
  threads = begin_all calls;
  shared = record { slot = initial; published = []; delivered = []; message = [] };
}
