-- ===== src/Envelope/Race/Claims.antt =====
-- Who is inside a claim of the slot, and what such a thread relies on (envelope/mod.rs).
use asolaria_os.Prelude.{
  ℕ, zero, suc, ◌+◌, ◌≤◌, ◌<◌, ◌≡◌, refl, ap, ◌⊎◌, List, [], ◌∷◌, ◌++◌, Bytes, none, some, arith,
  length, set, take, get_or, get_elem?, All,
}
use asolaria_os.Envelope.{Slot, SlotState, empty, writing, full, reading, envelope_slot_bytes}
use asolaria_os.Envelope.Race.{
  Thread, sender, storing, len_stored, route_stored, depth_stored, sent, refused, receiver, claimed,
  restoring, copying, len_cleared, depth_cleared, received, denied, Shared, World,
}

-- The threads inside a claim, by side.
abbrev pub writes : Thread → ℕ
writes (storing route env i) = 1
writes (len_stored route env) = 1
writes (route_stored env) = 1
writes (depth_stored env) = 1
writes _ = 0

abbrev pub reads : Thread → ℕ
reads (claimed cap) = 1
reads restoring = 1
reads (copying n got) = 1
reads (len_cleared got) = 1
reads (depth_cleared got) = 1
reads _ = 0

abbrev pub writers : List Thread → ℕ
writers [] = 0
writers (t ∷ ts) = writes t + writers ts

abbrev pub readers : List Thread → ℕ
readers [] = 0
readers (t ∷ ts) = reads t + readers ts

-- The slot's length and cells are those of `env`.
abbrev pub Holds : Bytes → Slot → Type 0
Holds env slot = (slot.len ≡ length env) × (take slot.len slot.cells ≡ env)

-- What a thread inside a claim may rely on.
abbrev pub Local : Shared → Thread → Type 0
Local s (storing route env i) =
    (length env ≤ envelope_slot_bytes) × (i ≤ length env) × (take i s.slot.cells ≡ take i env)
Local s (len_stored route env) = (length env ≤ envelope_slot_bytes) × Holds env s.slot
Local s (route_stored env) = (length env ≤ envelope_slot_bytes) × Holds env s.slot
Local s (depth_stored env) = (length env ≤ envelope_slot_bytes) × Holds env s.slot
Local s (claimed cap) = (length s.message ≤ envelope_slot_bytes) × Holds s.message s.slot
Local s restoring = (length s.message ≤ envelope_slot_bytes) × Holds s.message s.slot
Local s (copying n got) =
    (length s.message ≤ envelope_slot_bytes)
    × (n ≡ length s.message)
    × (length got ≤ n)
    × Holds s.message s.slot
    × (got ≡ take (length got) s.slot.cells)
Local s (len_cleared got) = got ≡ s.message
Local s (depth_cleared got) = got ≡ s.message
Local s (sender route env) = Unit
Local s (sent env) = Unit
Local s refused = Unit
Local s (receiver cap budget) = Unit
Local s (received got) = Unit
Local s denied = Unit

-- The published message that is not yet delivered.
abbrev pub in_flight : SlotState → Bytes → List Bytes
in_flight empty message = []
in_flight writing message = []
in_flight full message = message ∷ []
in_flight reading message = message ∷ []

abbrev pub Mode : SlotState → Shared → ℕ → ℕ → Type 0
Mode empty s w r = (w ≡ 0) × (r ≡ 0)
Mode writing s w r = (w ≡ 1) × (r ≡ 0)
Mode full s w r =
    (w ≡ 0) × (r ≡ 0) × (length s.message ≤ envelope_slot_bytes) × Holds s.message s.slot
Mode reading s w r = (w ≡ 0) × (r ≡ 1)

-- One thread at most is inside a claim, the slot's state says on which side, and what was
-- published is what was delivered, in the same order, and the message in flight.
pub record IsQueue (w : World) : Type 0 where
  pub capacity : length w.shared.slot.cells ≡ envelope_slot_bytes
  pub mode : Mode w.shared.slot.state w.shared (writers w.threads) (readers w.threads)
  pub local : All (Local w.shared) w.threads
  pub fifo :
      w.shared.published ≡ w.shared.delivered ++ in_flight w.shared.slot.state w.shared.message

idle-Local : (s : Shared) (t : Thread) → writes t + reads t ≡ 0 → Local s t
idle-Local s (storing route env i) h = absurd (omega arith)
idle-Local s (len_stored route env) h = absurd (omega arith)
idle-Local s (route_stored env) h = absurd (omega arith)
idle-Local s (depth_stored env) h = absurd (omega arith)
idle-Local s (claimed cap) h = absurd (omega arith)
idle-Local s restoring h = absurd (omega arith)
idle-Local s (copying n got) h = absurd (omega arith)
idle-Local s (len_cleared got) h = absurd (omega arith)
idle-Local s (depth_cleared got) h = absurd (omega arith)
idle-Local s (sender route env) h = tt
idle-Local s (sent env) h = tt
idle-Local s refused h = tt
idle-Local s (receiver cap budget) h = tt
idle-Local s (received got) h = tt
idle-Local s denied h = tt

pub All-idle : (s : Shared) (ts : List Thread) → writers ts + readers ts ≡ 0 → All (Local s) ts
All-idle s [] h = tt
All-idle s (t ∷ ts) h = (idle-Local s t (omega arith), All-idle s ts (omega arith))

pub own_le :
    (ts : List Thread) (i : ℕ) (t : Thread)
    → get_elem? ts i ≡ some t
    → (writes t ≤ writers ts) × (reads t ≤ readers ts)
own_le [] i t e = cc
own_le (u ∷ ts) zero t e = let e' : u ≡ t = cc in omega (arith, ap writes e', ap reads e')
own_le (u ∷ ts) (suc i) t e = omega (arith, own_le ts i t e)

-- If only thread `i` is inside a claim, the others rely on nothing.
pub others_idle :
    (s : Shared) (ts : List Thread) (i : ℕ) (t t' : Thread)
    → get_elem? ts i ≡ some t
    → writers ts + readers ts ≡ writes t + reads t
    → Local s t'
    → All (Local s) (set ts i t')
others_idle s [] i t t' e h l = cc
others_idle s (u ∷ ts) zero t t' e h l =
    let e' : u ≡ t = cc in (l, All-idle s ts (omega (arith, ap writes e', ap reads e')))
others_idle s (u ∷ ts) (suc i) t t' e h l =
    let le = own_le ts i t e in
    (idle-Local s u (omega (arith, le)), others_idle s ts i t t' e (omega (arith, le)) l)

pub count-set :
    (ts : List Thread) (i : ℕ) (t t' : Thread)
    → get_elem? ts i ≡ some t
    → (writers (set ts i t') + writes t ≡ writers ts + writes t')
      × (readers (set ts i t') + reads t ≡ readers ts + reads t')
count-set [] i t t' e = cc
count-set (u ∷ ts) zero t t' e = let e' : u ≡ t = cc in omega (arith, ap writes e', ap reads e')
count-set (u ∷ ts) (suc i) t t' e = omega (arith, count-set ts i t t' e)

-- What one access by `t` must leave behind, with `w` writers and `r` readers before it.
pub record Outcome (t : Thread) (s : Shared) (w r : ℕ) (t' : Thread) (s' : Shared) : Type 0 where
  pub capacity : length s'.slot.cells ≡ envelope_slot_bytes
  pub fifo : s'.published ≡ s'.delivered ++ in_flight s'.slot.state s'.message
  pub local : Local s' t'
  pub mode :
      (w' r' : ℕ)
      → w' + writes t ≡ w + writes t'
      → r' + reads t ≡ r + reads t'
      → Mode s'.slot.state s' w' r'
  pub focus : (s' ≡ s) ⊎ (w + r ≡ writes t + reads t)

pub All-get :
    (s : Shared) (ts : List Thread) (i : ℕ) (t : Thread)
    → All (Local s) ts
    → get_elem? ts i ≡ some t
    → Local s t
All-get s [] i t h e = cc
All-get s (u ∷ ts) zero t h e = let e' : u ≡ t = cc in rw (← e') h.0
All-get s (u ∷ ts) (suc i) t h e = All-get s ts i t h.1 e

pub All-set :
    (s : Shared) (ts : List Thread) (i : ℕ) (t : Thread)
    → All (Local s) ts
    → Local s t
    → All (Local s) (set ts i t)
All-set s [] i t h l = tt
All-set s (u ∷ ts) zero t h l = (l, h.1)
All-set s (u ∷ ts) (suc i) t h l = (h.0, All-set s ts i t h.1 l)

pub get-lt : (env : Bytes) (i b : ℕ) → get_elem? env i ≡ some b → i < length env
get-lt [] i b e = cc
get-lt (x ∷ env) zero b e = omega arith
get-lt (x ∷ env) (suc i) b e = omega (arith, get-lt env i b e)

pub get-none : (env : Bytes) (i : ℕ) → get_elem? env i ≡ none → length env ≤ i
get-none [] i e = omega arith
get-none (x ∷ env) zero e = cc
get-none (x ∷ env) (suc i) e = omega (arith, get-none env i e)

pub take_all : (n : ℕ) (xs : Bytes) → length xs ≤ n → take n xs ≡ xs
take_all zero [] h = refl
take_all zero (x ∷ xs) h = absurd (omega arith)
take_all (suc n) [] h = refl
take_all (suc n) (x ∷ xs) h = ap (◌∷◌ x) (take_all n xs (omega arith))

-- Storing the next byte extends the stored prefix of the envelope.
pub take-set :
    (i b : ℕ) (cells env : Bytes)
    → take i cells ≡ take i env
    → get_elem? env i ≡ some b
    → i < length cells
    → take (suc i) (set cells i b) ≡ take (suc i) env
take-set i b [] env same e h = elim h [ ]
take-set i b (c ∷ cells) [] same e h = cc
take-set zero b (c ∷ cells) (x ∷ env) same e h = cc
take-set (suc i) b (c ∷ cells) (x ∷ env) same e h =
    let tails : take i cells ≡ take i env = cc in
    let heads : c ≡ x = cc in cc (heads, take-set i b cells env tails e (omega arith))

-- Reading the next cell extends the prefix copied.
pub take_snoc :
    (i : ℕ) (cells : Bytes)
    → i < length cells
    → take i cells ++ get_or cells i 0 ∷ [] ≡ take (suc i) cells
take_snoc i [] h = elim h [ ]
take_snoc zero (c ∷ cells) h = refl
take_snoc (suc i) (c ∷ cells) h = ap (◌∷◌ c) (take_snoc i cells (omega arith))
