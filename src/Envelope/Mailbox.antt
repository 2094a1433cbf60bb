-- ===== src/Envelope/Mailbox.antt =====
-- The slot of envelope/mod.rs as a mailbox for one message.
use asolaria_os.Prelude.{
  ℕ, zero, suc, ◌≤◌, ◌<◌, ◌≡◌, refl, ap, ◌∙◌, ◌⊎◌, inl, inr, [], ◌∷◌, ◌++◌, Option, none, some,
  arith, Bytes, length, length-set, length-take, set, take, drop, ltb, false, Bool-cases, Result,
  ok, err, if◌then◌else◌,
}
use asolaria_os.Envelope.{
  EnvelopeErr, queue_full, queue_empty, payload_oversize, envelope_slot_bytes, SlotState, empty,
  writing, full, reading, Slot, initial, publish, fetch, dispatch_enqueue_bytes, consume, poll,
  spin_budget, dispatch_dequeue_bytes,
}

-- Between two operations: no thread is inside one, and the counters agree with the state.
pub record IsQuiet (slot : Slot) : Type 0 where
  pub capacity : length slot.cells ≡ envelope_slot_bytes
  pub fits : slot.len ≤ envelope_slot_bytes
  pub still : ((slot.state ≡ empty) × (slot.depth ≡ 0)) ⊎ ((slot.state ≡ full) × (slot.depth ≡ 1))

-- The message in the slot, with its route hint.
abbrev pub held : SlotState → Slot → Option (Bytes × ℕ)
held full slot = some (take slot.len slot.cells, slot.route)
held empty slot = none
held writing slot = none
held reading slot = none

abbrev pub view : Slot → Option (Bytes × ℕ)
view slot = held slot.state slot

length-publish : (i : ℕ) (env cells : Bytes) → length (publish i env cells) ≡ length cells
unfolding publish
length-publish i [] cells = refl
length-publish i (b ∷ env) cells = length-publish (suc i) env (set cells i b) ∙ length-set cells i b

publish-cons :
    (i : ℕ) (env : Bytes) (c : ℕ) (cells : Bytes)
    → publish (suc i) env (c ∷ cells) ≡ c ∷ publish i env cells
unfolding publish
publish-cons i [] c cells = refl
publish-cons i (b ∷ env) c cells = publish-cons (suc i) env c (set cells i b)

-- Publishing overwrites the first cells.
publish_prefix :
    (env cells : Bytes)
    → length env ≤ length cells
    → publish 0 env cells ≡ env ++ drop (length env) cells
unfolding publish
publish_prefix [] cells h = refl
publish_prefix (b ∷ env) [] h = absurd (omega arith)
publish_prefix (b ∷ env) (c ∷ cells) h =
    publish-cons 0 env b cells ∙ ap (◌∷◌ b) (publish_prefix env cells (omega arith))

fetch-cons :
    (n i c b : ℕ) (cells buf : Bytes)
    → fetch n (suc i) (c ∷ cells) (b ∷ buf) ≡ b ∷ fetch n i cells buf
unfolding fetch
fetch-cons zero i c b cells buf = refl
fetch-cons (suc n) i c b cells buf = fetch-cons n (suc i) c b cells _

-- Fetching copies the first cells over the start of the buffer.
fetch_prefix :
    (n : ℕ) (cells buf : Bytes)
    → n ≤ length cells
    → n ≤ length buf
    → fetch n 0 cells buf ≡ take n cells ++ drop n buf
unfolding fetch
fetch_prefix zero cells buf h k = refl
fetch_prefix (suc n) [] buf h k = absurd (omega arith)
fetch_prefix (suc n) (c ∷ cells) [] h k = absurd (omega arith)
fetch_prefix (suc n) (c ∷ cells) (b ∷ buf) h k =
    fetch-cons n 0 c c cells buf ∙ ap (◌∷◌ c) (fetch_prefix n cells buf (omega arith) (omega arith))

take_prefix : (n : ℕ) (xs ys : Bytes) → length xs ≡ n → take n (xs ++ ys) ≡ xs
take_prefix zero [] ys h = refl
take_prefix zero (x ∷ xs) ys h = absurd (omega arith)
take_prefix (suc n) [] ys h = absurd (omega arith)
take_prefix (suc n) (x ∷ xs) ys h = ap (◌∷◌ x) (take_prefix n xs ys (omega arith))

pub initial-IsQuiet : IsQuiet initial
unfolding initial
initial-IsQuiet = record { capacity = refl; fits = omega arith; still = inl (refl, refl) }

-- A mailbox for one message, as its clients see it.
abbrev pub put : Bytes → ℕ → Option (Bytes × ℕ) → Result EnvelopeErr (Unit {0}) × Option (Bytes × ℕ)
put env route_hint box =
    if ltb envelope_slot_bytes (length env)
    then (err payload_oversize, box)
    else elim box [ none ↦ (ok tt, some (env, route_hint)) | some m ↦ (err queue_full, some m) ]

abbrev pub collect : Bytes → Option (Bytes × ℕ) → Result EnvelopeErr ℕ × Bytes × Option (Bytes × ℕ)
collect buf none = (err queue_empty, buf, none)
collect buf (some (env, route_hint)) =
    if ltb (length buf) (length env)
    then (err payload_oversize, buf, some (env, route_hint))
    else (ok (length env), env ++ drop (length env) buf, none)

take-publish :
    (env cells : Bytes) → length env ≤ length cells → take (length env) (publish 0 env cells) ≡ env
take-publish env cells h = rw (publish_prefix env cells h) (take_prefix (length env) env _ refl)

-- The slot implements `put`, and stays well-formed.
pub enqueue-put :
    (env : Bytes) (route_hint : ℕ) (slot : Slot)
    → IsQuiet slot
    → let (r, slot') = dispatch_enqueue_bytes env route_hint slot in
      IsQuiet slot'
      × (◌≡◌ {A = Result EnvelopeErr (Unit {0}) × Option (Bytes × ℕ)}
          (r, view slot')
          (put env route_hint (view slot)))
unfolding dispatch_enqueue_bytes
enqueue-put env route_hint slot v = elim (Bool-cases (ltb envelope_slot_bytes (length env))) [
  | inl big ↦ rw big (v, refl)
  | inr small ↦ elim v.still [
    | inr (e, d) ↦ simp (small, e) (v, refl)
    | inl (e, d) ↦
        simp (small, e)
          (
            record {
              capacity = length-publish 0 env slot.cells ∙ v.capacity;
              fits = ground arith;
              still = inr (refl, refl);
            },
            ap (λ (m : Bytes). (ok tt, some (m, route_hint)))
                (take-publish env slot.cells (ground (arith, v.capacity))),
          )
  ]
]

-- Nothing else moves while the buffer is polled.
abbrev pub alone : Slot → Slot
alone slot = slot

abbrev Collects : Bytes → Slot → Result EnvelopeErr ℕ × Bytes × Slot → Type 0
Collects buf slot (r, buf', slot') =
    IsQuiet slot'
    × (◌≡◌ {A = Result EnvelopeErr ℕ × Bytes × Option (Bytes × ℕ)} (r, buf', view slot')
        (collect buf (view slot)))

fetch-append :
    (n : ℕ) (cells buf : Bytes)
    → n ≤ length cells
    → n ≤ length buf
    → fetch n 0 cells buf ≡ take n cells ++ drop (length (take n cells)) buf
fetch-append n cells buf h k =
    let e : length (take n cells) ≡ n = omega (arith, length-take n cells) in
    rw e (fetch_prefix n cells buf h k)

consume-collect :
    (buf : Bytes) (slot : Slot)
    → IsQuiet slot
    → slot.state ≡ full
    → Collects buf slot (consume buf slot)
unfolding consume
consume-collect buf slot v e =
    let n : length (take slot.len slot.cells) ≡ slot.len =
      omega (arith, length-take slot.len slot.cells, v.capacity, v.fits) in
    elim (Bool-cases (ltb (length buf) slot.len)) [
      | inl short ↦ simp (e, n, short) (v, refl)
      | inr fits ↦
          simp (e, n, fits)
            (
              record { capacity = v.capacity; fits = omega arith; still = inl (refl, refl) },
              ap (λ (b : Bytes). (ok slot.len, b, none))
                  (fetch_prefix slot.len slot.cells buf (omega (arith, v.capacity, v.fits))
                    (ground arith)),
            )
    ]

-- However long the wait, polling an empty slot that nobody fills ends with `queue_empty`.
poll-empty :
    (budget : ℕ) (buf : Bytes) (slot : Slot)
    → slot.state ≡ empty
    → poll alone budget buf slot ≡ (err queue_empty, buf, slot)
unfolding poll
poll-empty zero buf slot e = refl
poll-empty (suc zero) buf slot e = ground arith
poll-empty (suc (suc budget)) buf slot e = ground (arith, poll-empty (suc budget) buf slot e)

poll-full :
    (others : Slot → Slot) (budget : ℕ) (buf : Bytes) (slot : Slot)
    → slot.state ≡ full
    → 0 < budget
    → poll others budget buf slot ≡ consume buf slot
unfolding poll
poll-full others zero buf slot e h = absurd (omega arith)
poll-full others (suc zero) buf slot e h = ground arith
poll-full others (suc (suc budget)) buf slot e h = ground arith

spin_budget_pos : (max_wait_ns : ℕ) → 0 < spin_budget max_wait_ns
unfolding spin_budget
spin_budget_pos max_wait_ns = ground arith

-- The slot implements `collect` for every wait, and stays well-formed.
pub dequeue-collect :
    (buf : Bytes) (max_wait_ns : ℕ) (slot : Slot)
    → IsQuiet slot
    → let (r, buf', slot') = dispatch_dequeue_bytes alone buf max_wait_ns slot in
      IsQuiet slot'
      × (◌≡◌ {A = Result EnvelopeErr ℕ × Bytes × Option (Bytes × ℕ)}
          (r, buf', view slot')
          (collect buf (view slot)))
unfolding dispatch_dequeue_bytes
dequeue-collect buf max_wait_ns slot v = elim v.still [
  | inl (e, d) ↦ rw (poll-empty (spin_budget max_wait_ns) buf slot e) (simp e (v, refl))
  | inr (e, d) ↦
      rw (poll-full alone (spin_budget max_wait_ns) buf slot e (spin_budget_pos max_wait_ns))
        (consume-collect buf slot v e)
]

put-none :
    (env : Bytes) (route_hint : ℕ) (box : Option (Bytes × ℕ))
    → box ≡ none
    → ltb envelope_slot_bytes (length env) ≡ false
    → put env route_hint box ≡ (ok tt, some (env, route_hint))
put-none env route_hint box e small = rw (e, small)

collect-some :
    (buf : Bytes) (box : Option (Bytes × ℕ)) (env : Bytes) (route_hint : ℕ)
    → box ≡ some (env, route_hint)
    → ltb (length buf) (length env) ≡ false
    → collect buf box ≡ (ok (length env), env ++ drop (length env) buf, none)
collect-some buf box env route_hint e long = rw (e, long)

-- What is sent is what the next receive delivers, at any wait, if its buffer is long enough; the
-- mailbox is empty afterwards.
pub send-receive :
    (env buf : Bytes) (route_hint max_wait_ns : ℕ) (slot : Slot)
    → IsQuiet slot
    → slot.state ≡ empty
    → length env ≤ envelope_slot_bytes
    → length env ≤ length buf
    → let (r, slot') = dispatch_enqueue_bytes env route_hint slot in
      let (n, buf', slot'') = dispatch_dequeue_bytes alone buf max_wait_ns slot' in
      (r ≡ ok tt)
      × (n ≡ ok (length env))
      × (buf' ≡ env ++ drop (length env) buf)
      × (view slot'' ≡ none)
send-receive env buf route_hint max_wait_ns slot v e fits room =
    let small : ltb envelope_slot_bytes (length env) ≡ false = ground arith in
    let long : ltb (length buf) (length env) ≡ false = ground arith in
    let (quiet, sent) = enqueue-put env route_hint slot v in
    let vacant : view slot ≡ none = simp e in
    let sent' = sent ∙ put-none env route_hint (view slot) vacant small in
    let slot' = (dispatch_enqueue_bytes env route_hint slot).1 in
    let (_, got) = dequeue-collect buf max_wait_ns slot' quiet in
    let got' = got ∙ collect-some buf (view slot') env route_hint (ap (λ p. p.1) sent') long in
    (ap (λ p. p.0) sent', ap (λ p. p.0) got', ap (λ p. p.1) got', ap (λ p. p.2) got')
