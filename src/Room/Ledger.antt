-- ===== src/Room/Ledger.antt =====
-- The room as a ledger: numbering, the bounded window, the hash links, and the sealed windows
-- (reflection_room/mod.rs).
use asolaria_os.Prelude.{
  ℕ, suc, ◌+◌, ◌*◌, ◌/◌, ◌%◌, ◌≤◌, ◌<◌, ◌≡◌, ◌≢◌, ◌⊎◌, inl, inr, refl, ap, sym, ◌∙◌, List, [], ◌∷◌,
  ◌++◌, true, false, none, Option-cases, Bool-cases, arith, Bytes, same, same_iff, length,
  length-append, u64_max, leb, ◌==◌, not, ◌||◌, ok, u64_max,
}
use asolaria_os.Room.{
  EventDraft, CommittedEvent, committed, gulp2k, checkpoint10k, super_gulp50k, GulpSeal, RoomWriter,
  active_envelope_window, genesis_sha256,
}
use asolaria_os.Room.Writer.{
  room_new, find_key, validate_draft, event_of, prepare, seal_of, seal_gulp, push_event, commit_new,
  commit, is_zero_sha,
}

-- Consecutive events carry consecutive numbers, each the hash of the one before.
abbrev Chained : Bytes → ℕ → List CommittedEvent → Type 0
Chained prev seq [] = Unit
Chained prev seq (e ∷ es) =
    (e.previous_sha256 ≡ prev) × (e.sequence ≡ seq) × Chained e.full_sha256 (suc seq) es

abbrev last_sha : Bytes → List CommittedEvent → Bytes
last_sha prev [] = prev
last_sha prev (e ∷ es) = last_sha e.full_sha256 es

-- No idempotency key stands twice.
abbrev Distinct : List CommittedEvent → Type 0
Distinct [] = Unit
Distinct (e ∷ es) = (find_key e.draft.idempotency_key es ≡ none) × Distinct es

pub record IsLedger (w : RoomWriter) : Type 0 where
  pub anchor : Bytes
  pub numbered : w.next_sequence ≡ w.total_events + 1
  pub counted : w.total_events ≡ active_envelope_window * w.total_gulps + length w.recent
  pub windowed : length w.recent ≤ active_envelope_window
  pub bounded : w.next_sequence ≤ u64_max
  pub chained : Chained anchor (active_envelope_window * w.total_gulps + 1) w.recent
  pub headed : w.head_sha256 ≡ last_sha anchor w.recent
  pub distinct : Distinct w.recent

Chained-append :
    (prev : Bytes) (seq : ℕ) (es : List CommittedEvent) (e : CommittedEvent)
    → Chained prev seq es
    → e.previous_sha256 ≡ last_sha prev es
    → e.sequence ≡ seq + length es
    → Chained prev seq (es ++ e ∷ [])
Chained-append prev seq [] e c p n = (p, omega arith, tt)
Chained-append prev seq (x ∷ es) e (a, b, c) p n =
    (a, b, Chained-append x.full_sha256 (suc seq) es e c p (omega arith))

last_sha-append :
    (prev : Bytes) (es : List CommittedEvent) (e : CommittedEvent)
    → last_sha prev (es ++ e ∷ []) ≡ e.full_sha256
last_sha-append prev [] e = refl
last_sha-append prev (x ∷ es) e = last_sha-append x.full_sha256 es e

same_sym : (a b : Bytes) → same a b ≡ false → same b a ≡ false
same_sym a b h = elim (Bool-cases (same b a)) [
  | inl hit ↦ let e : b ≡ a = (same_iff b a).0 hit in cc ((same_iff a b).1 (sym e))
  | inr miss ↦ miss
]

find_key-append :
    (key : Bytes) (es : List CommittedEvent) (e : CommittedEvent)
    → find_key key es ≡ none
    → same e.draft.idempotency_key key ≡ false
    → find_key key (es ++ e ∷ []) ≡ none
unfolding find_key
find_key-append key [] e h k = rw k refl
find_key-append key (x ∷ es) e h k = elim (Bool-cases (same x.draft.idempotency_key key)) [
  | inl hit ↦ ground arith
  | inr miss ↦ rw miss (find_key-append key es e (ground arith) k)
]

Distinct-append :
    (es : List CommittedEvent) (e : CommittedEvent)
    → Distinct es
    → find_key e.draft.idempotency_key es ≡ none
    → Distinct (es ++ e ∷ [])
unfolding find_key
Distinct-append [] e d h = (refl, tt)
Distinct-append (x ∷ es) e (a, d) h =
    elim (Bool-cases (same x.draft.idempotency_key e.draft.idempotency_key)) [
      | inl hit ↦ ground arith
      | inr miss ↦ (
        find_key-append x.draft.idempotency_key es e a (same_sym _ _ miss),
        Distinct-append es e d (ground arith),
      )
    ]

-- A commit goes through to `push_event` on a fresh event for the head, or leaves the writer alone.
commit-cases :
    (event : CommittedEvent) (w : RoomWriter)
    → ((find_key event.draft.idempotency_key w.recent ≡ none)
        × (length w.recent < active_envelope_window)
        × (event.sequence ≡ w.next_sequence)
        × (event.previous_sha256 ≡ w.head_sha256)
        × (commit event w ≡ push_event event w))
      ⊎ ((commit event w).1 ≡ w)
unfolding commit commit_new
commit-cases event w = elim (Option-cases (find_key event.draft.idempotency_key w.recent)) [
  | inr (existing, e) ↦ inr (rw e refl)
  | inl e ↦ elim (Bool-cases (leb active_envelope_window (length w.recent))) [
    | inl full_ ↦ inr (rw (e, full_) refl)
    | inr room ↦
        elim (Bool-cases (
          not (event.sequence == w.next_sequence)
          || not (same event.previous_sha256 w.head_sha256))) [
            | inl stale ↦ inr (rw (e, room, stale) refl)
            | inr current ↦ inl (
              e,
              ground arith,
              ground arith,
              (same_iff _ _).0 (ground arith),
              rw (e, room, current) refl,
            )
          ]
  ]
]

pub push_event-parts :
    (event : CommittedEvent) (w : RoomWriter)
    → w.next_sequence ≢ u64_max
    → w.total_events ≢ u64_max
    → push_event event w ≡ (
      ok (committed event),
      record w {
        recent = w.recent ++ event ∷ [];
        head_sha256 = event.full_sha256;
        next_sequence = w.next_sequence + 1;
        total_events = w.total_events + 1;
      },
    )
unfolding push_event
push_event-parts event w a b =
    let a' : (w.next_sequence == u64_max) ≡ false = ground arith in
    let b' : (w.total_events == u64_max) ≡ false = ground arith in rw (a', b') refl

module _ (sha256 : Bytes → Bytes) where
  pub prepared-sequence :
      (draft : EventDraft) (w : RoomWriter) (event : CommittedEvent)
      → prepare sha256 draft w ≡ ok event
      → (event ≡ event_of sha256 w draft)
        × (w.next_sequence ≢ u64_max)
        × (validate_draft w draft ≡ ok tt)
  unfolding prepare
  prepared-sequence draft w event e = ground arith

pub room_new-IsLedger :
    (handle room : Bytes) (w : RoomWriter) → room_new handle room ≡ ok w → IsLedger w
unfolding room_new
room_new-IsLedger handle room w e = elim (Bool-cases (is_zero_sha room)) [
  | inl zeros ↦ ground arith
  | inr _ ↦
      let start : w.recent ≡ [] = ground arith in
      record {
        anchor = genesis_sha256;
        numbered = ground arith;
        counted = ground arith;
        windowed = ground arith;
        bounded = ground arith;
        chained = rw start tt;
        headed = rw start (ground arith);
        distinct = rw start tt;
      }
]

pub push_event-IsLedger :
    (event : CommittedEvent) (w : RoomWriter)
    → IsLedger w
    → find_key event.draft.idempotency_key w.recent ≡ none
    → length w.recent < active_envelope_window
    → event.sequence ≡ w.next_sequence
    → event.previous_sha256 ≡ w.head_sha256
    → w.next_sequence ≢ u64_max
    → IsLedger ((push_event event w).1)
push_event-IsLedger event w l fresh room number link below =
    rw (push_event-parts event w below (omega (arith, l.numbered, l.bounded))) (record {
      anchor = l.anchor;
      numbered = omega (arith, l.numbered);
      counted = omega (arith, l.counted, length-append w.recent (event ∷ []));
      windowed = omega (arith, length-append w.recent (event ∷ []));
      bounded = omega (arith, l.bounded);
      chained =
          Chained-append l.anchor (active_envelope_window * w.total_gulps + 1) w.recent event
            l.chained (link ∙ l.headed) (omega (arith, l.counted, l.numbered));
      headed = sym (last_sha-append l.anchor w.recent event);
      distinct = Distinct-append w.recent event l.distinct fresh;
    })

module _ (sha256 : Bytes → Bytes) where
  -- Committing any event that any room prepared keeps the ledger in order: the event is the next
  -- one of the chain, or the writer is left as it was.
  pub commit-IsLedger :
      (draft : EventDraft) (other w : RoomWriter) (event : CommittedEvent)
      → IsLedger w
      → prepare sha256 draft other ≡ ok event
      → IsLedger ((commit event w).1)
        × (((commit event w ≡ (ok (committed event), (commit event w).1))
              × ((commit event w).1.recent ≡ w.recent ++ event ∷ [])
              × ((commit event w).1.total_events ≡ w.total_events + 1))
            ⊎ ((commit event w).1 ≡ w))
  unfolding event_of
  commit-IsLedger draft other w event l p =
      let (made, below, _) = prepared-sequence sha256 draft other event p in
      elim (commit-cases event w) [
        | inr same_ ↦ (rw same_ l, inr same_)
        | inl (fresh, room, number, link, e) ↦
            let below' : w.next_sequence ≢ u64_max =
              λ q. below (ap (λ (x : CommittedEvent). x.sequence) (sym made) ∙ number ∙ q) in
            let parts = push_event-parts event w below' (omega (arith, l.numbered, l.bounded)) in
            rw e (
              push_event-IsLedger event w l fresh room number link below',
              inl (rw parts (refl, refl, refl)),
            )
      ]

  seal_gulp-parts :
      (product : Bytes) (w w' : RoomWriter) (seal : GulpSeal)
      → seal_gulp sha256 product w ≡ (ok seal, w')
      → (length w.recent ≡ active_envelope_window)
        × (is_zero_sha product ≡ false)
        × (seal ≡ seal_of sha256 product w)
        × (w' ≡ record w { recent = []; total_gulps = w.total_gulps + 1 })
  unfolding seal_gulp
  seal_gulp-parts product w w' seal e =
      elim (Bool-cases (length w.recent == active_envelope_window)) [
        | inr short ↦ ground arith
        | inl whole ↦ elim (Bool-cases (is_zero_sha product)) [
          | inl zeros ↦ ground arith
          | inr given ↦ elim (Bool-cases (w.total_gulps == u64_max)) [
            | inl top ↦ ground arith
            | inr _ ↦ (ground arith, given, ground arith, ground arith)
          ]
        ]
      ]

  -- Sealing happens on a full window only, keeps the ledger in order with an empty window whose
  -- first event will follow the sealed head, and the seal counts every event ever committed: 2000
  -- per gulp, 10000 per checkpoint, 50000 per super-gulp.
  pub seal_gulp-IsLedger :
      (product : Bytes) (w w' : RoomWriter) (seal : GulpSeal)
      → IsLedger w
      → seal_gulp sha256 product w ≡ (ok seal, w')
      → IsLedger w'
        × (length w.recent ≡ active_envelope_window)
        × (w'.recent ≡ [])
        × (w'.head_sha256 ≡ w.head_sha256)
        × (seal.cumulative_events ≡ 2000 * seal.gulp_index)
        × (seal.checkpoint_index ≡ seal.cumulative_events / 10000)
        × (seal.super_gulp_index ≡ seal.cumulative_events / 50000)
  unfolding seal_of
  seal_gulp-IsLedger product w w' seal l e =
      let (whole, given, made, next) = seal_gulp-parts product w w' seal e in
      let total : w.total_events ≡ 2000 * (w.total_gulps + 1) = omega (arith, l.counted) in
      (
        rw next (record {
          anchor = w.head_sha256;
          numbered = l.numbered;
          counted = omega (arith, total);
          windowed = omega arith;
          bounded = l.bounded;
          chained = tt;
          headed = refl;
          distinct = tt;
        }),
        whole,
        rw next refl,
        rw next refl,
        rw made (omega (arith, total)),
        rw made (omega (arith, total)),
        rw made (omega (arith, total)),
      )

  -- The tier of a seal is read off the events committed so far: a super-gulp exactly at a multiple
  -- of 50000, a checkpoint at any other multiple of 10000, a plain gulp otherwise.
  seal_tier_of_events :
      (product : Bytes) (w w' : RoomWriter) (seal : GulpSeal)
      → IsLedger w
      → seal_gulp sha256 product w ≡ (ok seal, w')
      → ((seal.cumulative_events % 50000 ≡ 0) → seal.tier ≡ super_gulp50k)
        × ((seal.cumulative_events % 50000 ≢ 0)
            → (seal.cumulative_events % 10000 ≡ 0)
            → seal.tier ≡ checkpoint10k)
        × ((seal.cumulative_events % 10000 ≢ 0) → seal.tier ≡ gulp2k)
  unfolding seal_of
  seal_tier_of_events product w w' seal l e =
      let (whole, given, made, next) = seal_gulp-parts product w w' seal e in
      let total : w.total_events ≡ 2000 * (w.total_gulps + 1) = omega (arith, l.counted) in
      rw made (
        (λ h. let d : ((w.total_gulps + 1) % 25 == 0) ≡ true = ground arith in rw d refl),
        (λ h k.
            let d : ((w.total_gulps + 1) % 25 == 0) ≡ false = ground arith in
            let c : ((w.total_gulps + 1) % 5 == 0) ≡ true = ground arith in rw (d, c) refl),
        (λ h.
            let d : ((w.total_gulps + 1) % 25 == 0) ≡ false = ground arith in
            let c : ((w.total_gulps + 1) % 5 == 0) ≡ false = ground arith in rw (d, c) refl),
      )
