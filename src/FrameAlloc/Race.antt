-- ===== src/FrameAlloc/Race.antt =====
-- `alloc_pages` called from any number of threads (frame_alloc/mod.rs): the load and each
-- `compare_exchange` is one atomic step, and a schedule says which thread makes the next one.
use asolaria_os.Prelude.{
  ℕ, zero, suc, ◌+◌, ◌*◌, ◌/◌, ◌%◌, u64_mod, ◌≤◌, ◌≡◌, refl, ◌⊎◌, List, [], ◌∷◌, Option, none, some,
  arith, All, set, get_elem?, ltb, ◌==◌, if◌then◌else◌, Result, ok, err, map, Bool, true, false,
}
use asolaria_os.FrameAlloc.{
  FrameErr, invalid_len, pool_exhausted, virtual_base_start, virtual_base_end, page_bytes,
  bytes_needed, saturating_add,
}
use asolaria_os.FrameAlloc.Bounds.{IsWatermark}

-- A call for `len` bytes that has not yet begun, one inside the loop with its local `current`, and
-- one that has returned.
pub data Thread : Type 0 where
  start : ℕ → Thread
  trying : ℕ → ℕ → Thread
  done : ℕ → Result FrameErr ℕ → Thread

-- One atomic access of `NEXT_VIRTUAL_BASE`.
pub thread_step : Thread → ℕ → Thread × ℕ
thread_step (start len) next =
    if len == 0 then (done len (err invalid_len), next) else (trying len next, next)
thread_step (trying len current) next =
    let new_next = saturating_add current (bytes_needed len) in
    if ltb virtual_base_end new_next
    then (done len (err pool_exhausted), next)
    else if next == current
    then (done len (ok current), new_next)
    else (trying len next, next)
thread_step (done len r) next = (done len r, next)

pub record World : Type 0 where
  pub threads : List Thread
  pub next : ℕ

pub world_step : World → ℕ → World
world_step w i = elim (get_elem? w.threads i) [
  | none ↦ w
  | some t ↦
      let (t', next') = thread_step t w.next in
      record { threads = set w.threads i t'; next = next' }
]

unfoldable pub run : World → List ℕ → World
unfolding world_step
run w [] = w
run w (i ∷ schedule) = run (world_step w i) schedule

-- The length of the fewest whole pages that hold `len` bytes.
abbrev pub whole_pages : ℕ → ℕ
whole_pages len = (len + 4095) / 4096 * 4096

-- The block that a returned call owns: its start, and the whole pages of the bytes asked for.
abbrev pub region : Thread → Option (ℕ × ℕ)
region (done len (ok base)) = some (base, whole_pages len)
region (done len (err e)) = none
region (start len) = none
region (trying len current) = none

abbrev pub Apart : Option (ℕ × ℕ) → Option (ℕ × ℕ) → Type 0
Apart none r = Unit
Apart (some (a, m)) none = Unit
Apart (some (a, m)) (some (b, n)) = (a + m ≤ b) ⊎ (b + n ≤ a)

-- No two calls own overlapping blocks.
abbrev pub Disjoint : List Thread → Type 0
Disjoint [] = Unit
Disjoint (t ∷ ts) = All (λ u. Apart (region t) (region u)) ts × Disjoint ts

-- A length that rounds up to whole pages without passing 2^64.
abbrev pub IsLength : ℕ → Type 0
IsLength len = len + page_bytes ≤ u64_mod

-- A block starts on a page of the pool and lies below the watermark.
abbrev pub IsSound : ℕ → Thread → Type 0
IsSound next (done len (ok base)) =
    (virtual_base_start ≤ base) × (base % page_bytes ≡ 0) × (base + whole_pages len ≤ next)
IsSound next (done len (err e)) = Unit
IsSound next (start len) = IsLength len
IsSound next (trying len current) = IsLength len

abbrev size : Option (ℕ × ℕ) → ℕ
size none = 0
size (some (base, bytes)) = bytes

-- The bytes that returned calls own.
abbrev pub total : List Thread → ℕ
total [] = 0
total (t ∷ ts) = size (region t) + total ts

pub record IsSafe (w : World) : Type 0 where
  pub watermark : IsWatermark w.next
  pub sound : All (IsSound w.next) w.threads
  pub disjoint : Disjoint w.threads
  pub exact : virtual_base_start + total w.threads ≡ w.next

-- All calls about to begin, on a fresh pool.
abbrev pub boot : List ℕ → World
boot lens = record { threads = map start lens; next = virtual_base_start }

abbrev pub is_done : Thread → Bool
is_done (done bytes r) = true
is_done _ = false

get_elem?-set_self :
    (ts : List Thread) (i : ℕ) (t u : Thread)
    → get_elem? ts i ≡ some t
    → get_elem? (set ts i u) i ≡ some u
get_elem?-set_self [] i t u e = cc
get_elem?-set_self (x ∷ ts) zero t u e = refl
get_elem?-set_self (x ∷ ts) (suc i) t u e = get_elem?-set_self ts i t u e

world_step-get :
    (w : World) (i : ℕ) (t : Thread)
    → get_elem? w.threads i ≡ some t
    → ((world_step w i).next ≡ (thread_step t w.next).1)
      × (get_elem? (world_step w i).threads i ≡ some (thread_step t w.next).0)
unfolding world_step
world_step-get w i t e =
    (rw (e, world_step), rw (e, world_step) (get_elem?-set_self w.threads i t _ e))

-- With nobody in between the load and the `compare_exchange`, the call returns.
thread_steps_done :
    (t : Thread) (next : ℕ)
    → let (t1, n1) = thread_step t next in
      let (t2, n2) = thread_step t1 n1 in is_done (thread_step t2 n2).0 ≡ true
unfolding thread_step
thread_steps_done t next = ground arith

-- From any state at all, three accesses by one thread with none of another's between them are
-- enough for its call to return.
pub returns_alone :
    (w : World) (i : ℕ) (t : Thread)
    → get_elem? w.threads i ≡ some t
    → (t' : Thread) × (get_elem? (run w (i ∷ i ∷ i ∷ [])).threads i ≡ some t') × (is_done t' ≡ true)
unfolding run
returns_alone w i t e =
    let (n1, e1) = world_step-get w i t e in
    let (n2, e2) = world_step-get (world_step w i) i _ e1 in
    let (n3, e3) = world_step-get (world_step (world_step w i) i) i _ e2 in
    (_, e3, rw (n2, n1) (thread_steps_done t w.next))
