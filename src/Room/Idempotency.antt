-- ===== src/Room/Idempotency.antt =====
-- What a retry and a competing writer see (reflection_room/mod.rs).
use asolaria_os.Prelude.{
  ◌+◌, ◌<◌, ◌≡◌, ◌≢◌, ◌⊎◌, inl, inr, refl, ap, sym, ◌∙◌, List, [], ◌∷◌, ◌++◌, true, false, none,
  some, Bool-cases, Option-cases, arith, Bytes, same, same_iff, same_refl, length, leb, ◌==◌, not,
  ◌||◌, u64_max, any, Result-cases, ok, err,
}
use asolaria_os.Room.{
  EventDraft, CommittedEvent, committed, stale_prepared_event, active_window_full, RoomWriter,
  genesis_sha256,
}
use asolaria_os.Room.Writer.{
  is_zero_sha, validate_draft, find_key, event_of, prepare, push_event, commit_new, commit,
  room_new,
}
use asolaria_os.Room.Ledger.{IsLedger, prepared-sequence, push_event-parts}

pub find_key-last :
    (es : List CommittedEvent) (e : CommittedEvent)
    → find_key e.draft.idempotency_key es ≡ none
    → find_key e.draft.idempotency_key (es ++ e ∷ []) ≡ some e
unfolding find_key
find_key-last [] e h = rw (same_refl e.draft.idempotency_key) refl
find_key-last (x ∷ es) e h =
    elim (Bool-cases (same x.draft.idempotency_key e.draft.idempotency_key)) [
      | inl hit ↦ ground arith
      | inr miss ↦ rw miss (find_key-last es e (ground arith))
    ]

pub find_key-other :
    (es : List CommittedEvent) (e : CommittedEvent) (key : Bytes)
    → find_key key es ≡ none
    → e.draft.idempotency_key ≢ key
    → find_key key (es ++ e ∷ []) ≡ none
unfolding find_key
find_key-other [] e key h ne = elim (Bool-cases (same e.draft.idempotency_key key)) [
  | inl hit ↦ absurd (ne ((same_iff _ _).0 hit))
  | inr miss ↦ rw miss refl
]
find_key-other (x ∷ es) e key h ne = elim (Bool-cases (same x.draft.idempotency_key key)) [
  | inl hit ↦ ground arith
  | inr miss ↦ rw miss (find_key-other es e key (ground arith) ne)
]

pub commit-parts :
    (event e : CommittedEvent) (w w' : RoomWriter)
    → commit event w ≡ (ok (committed e), w')
    → (find_key event.draft.idempotency_key w.recent ≡ none)
      × (e ≡ event)
      × (w'.recent ≡ w.recent ++ event ∷ [])
      × (w'.next_sequence ≡ w.next_sequence + 1)
unfolding commit commit_new push_event
commit-parts event e w w' h = elim (Option-cases (find_key event.draft.idempotency_key w.recent)) [
  | inr (existing, f) ↦ ground arith
  | inl f ↦ elim (Bool-cases (leb 2000 (length w.recent))) [
    | inl full_ ↦ ground arith
    | inr room ↦
        elim (Bool-cases (
          not (event.sequence == w.next_sequence)
          || not (same event.previous_sha256 w.head_sha256))) [
            | inl stale ↦ ground arith
            | inr current ↦ elim (Bool-cases (w.next_sequence == u64_max)) [
              | inl top ↦ ground arith
              | inr _ ↦ elim (Bool-cases (w.total_events == u64_max)) [
                | inl top ↦ ground arith
                | inr _ ↦ (f, ground arith, ground arith, ground arith)
              ]
            ]
          ]
  ]
]

commits :
    (event : CommittedEvent) (w : RoomWriter)
    → find_key event.draft.idempotency_key w.recent ≡ none
    → length w.recent < 2000
    → event.sequence ≡ w.next_sequence
    → event.previous_sha256 ≡ w.head_sha256
    → w.next_sequence ≢ u64_max
    → w.total_events ≢ u64_max
    → commit event w ≡ (
      ok (committed event),
      record w {
        recent = w.recent ++ event ∷ [];
        head_sha256 = event.full_sha256;
        next_sequence = w.next_sequence + 1;
        total_events = w.total_events + 1;
      },
    )
unfolding commit commit_new
commits event w fresh room number link a b =
    let r : leb 2000 (length w.recent) ≡ false = ground arith in
    let n : (event.sequence == w.next_sequence) ≡ true = ground arith in
    let s : same event.previous_sha256 w.head_sha256 ≡ true = (same_iff _ _).1 link in
    rw (fresh, r, n, s) (push_event-parts event w a b)

any-find_key :
    (key : Bytes) (es : List CommittedEvent)
    → find_key key es ≡ none
    → any (λ event. same event.draft.idempotency_key key) es ≡ false
unfolding find_key
any-find_key key [] h = refl
any-find_key key (x ∷ es) h = elim (Bool-cases (same x.draft.idempotency_key key)) [
  | inl hit ↦ ground arith
  | inr miss ↦ rw miss (any-find_key key es (ground arith))
]

room_new-parts :
    (handle room : Bytes) (w : RoomWriter)
    → room_new handle room ≡ ok w
    → (w.room_id_sha256 ≡ room)
      × (w.next_sequence ≡ 1)
      × (w.head_sha256 ≡ genesis_sha256)
      × (w.recent ≡ [])
      × (w.total_events ≡ 0)
unfolding room_new
room_new-parts handle room w e = elim (Bool-cases (is_zero_sha room)) [
  | inl zeros ↦ ground arith
  | inr _ ↦ (ground arith, ground arith, ground arith, ground arith, ground arith)
]

module _ (sha256 : Bytes → Bytes) where
  prepare-room :
      (draft : EventDraft) (event : CommittedEvent) (w : RoomWriter)
      → find_key draft.idempotency_key w.recent ≡ none
      → prepare sha256 draft w ≡ ok event
      → length w.recent < 2000
  unfolding prepare
  prepare-room draft event w fresh p =
      let unseen = any-find_key draft.idempotency_key w.recent fresh in
      elim (Bool-cases (leb 2000 (length w.recent))) [
        | inr room ↦ ground arith
        | inl full_ ↦ elim (Result-cases (validate_draft w draft)) [
          | inl (_, v) ↦ ground (arith, unseen)
          | inr (_, v) ↦ ground arith
        ]
      ]

  -- Of two events prepared against the same head with fresh and different keys, once one is
  -- committed the other is refused, as stale or because the window is now full, and the refusal
  -- changes nothing.
  pub commit-commit_race :
      (one two : EventDraft) (first second : CommittedEvent) (w w' : RoomWriter)
      → prepare sha256 one w ≡ ok first
      → prepare sha256 two w ≡ ok second
      → one.idempotency_key ≢ two.idempotency_key
      → find_key two.idempotency_key w.recent ≡ none
      → commit first w ≡ (ok (committed first), w')
      → (commit second w' ≡ (err stale_prepared_event, w'))
        ⊎ (commit second w' ≡ (err active_window_full, w'))
  unfolding commit commit_new event_of
  commit-commit_race one two first second w w' p q ne fresh done =
      let (made, _, _) = prepared-sequence sha256 one w first p in
      let (made', _, _) = prepared-sequence sha256 two w second q in
      let (_, _, rows, next) = commit-parts first first w w' done in
      let missing : find_key second.draft.idempotency_key w'.recent ≡ none =
        rw (rows, made', made)
          (find_key-other w.recent (event_of sha256 w one) two.idempotency_key fresh ne) in
      let late : second.sequence ≢ w'.next_sequence =
        λ h. omega (arith, ap (λ (x : CommittedEvent). x.sequence) made', next, h) in
      let behind : (second.sequence == w'.next_sequence) ≡ false = ground arith in
      elim (Bool-cases (leb 2000 (length w'.recent))) [
        | inl full_ ↦ inr (rw (missing, full_) refl)
        | inr room ↦ inl (rw (missing, room, behind) refl)
      ]

  -- What `prepare` returns for a fresh key, its own writer commits at once.
  pub commit-prepare :
      (draft : EventDraft) (event : CommittedEvent) (w : RoomWriter)
      → IsLedger w
      → find_key draft.idempotency_key w.recent ≡ none
      → prepare sha256 draft w ≡ ok event
      → (event.draft ≡ draft)
        × ((w' : RoomWriter) × (commit event w ≡ (ok (committed event), w'))
            × (w'.recent ≡ w.recent ++ event ∷ [])
            × (w'.head_sha256 ≡ event.full_sha256)
            × (w'.next_sequence ≡ w.next_sequence + 1))
  unfolding event_of
  commit-prepare draft event w l fresh p =
      let (made, below, _) = prepared-sequence sha256 draft w event p in
      let room = prepare-room draft event w fresh p in
      (
        ap (λ (x : CommittedEvent). x.draft) made,
        (
          record w {
            recent = w.recent ++ event ∷ [];
            head_sha256 = event.full_sha256;
            next_sequence = w.next_sequence + 1;
            total_events = w.total_events + 1;
          },
          commits event w (rw made fresh) room (ap (λ (x : CommittedEvent). x.sequence) made)
              (ap (λ (x : CommittedEvent). x.previous_sha256) made) below
              (omega (arith, l.numbered, l.bounded)),
          refl,
          refl,
          refl,
        ),
      )

  -- An event prepared by one room is committed by another whose next number and head are the same,
  -- such as two rooms just created, and stands in it under the first room's identity.
  pub commit_crosses_rooms :
      (draft : EventDraft) (event : CommittedEvent) (handle room handle' room' : Bytes)
      (w other : RoomWriter)
      → room_new handle room ≡ ok w
      → room_new handle' room' ≡ ok other
      → prepare sha256 draft w ≡ ok event
      → (other' : RoomWriter) × (commit event other ≡ (ok (committed event), other'))
        × (other'.recent ≡ event ∷ [])
        × (other'.room_id_sha256 ≡ room')
        × (event.room_id_sha256 ≡ room)
  unfolding event_of find_key
  commit_crosses_rooms draft event handle room handle' room' w other n n' p =
      let (made, below, _) = prepared-sequence sha256 draft w event p in
      let (id, one, head, _, _) = room_new-parts handle room w n in
      let (id', one', head', start', zero') = room_new-parts handle' room' other n' in
      (
        record other {
          recent = other.recent ++ event ∷ [];
          head_sha256 = event.full_sha256;
          next_sequence = other.next_sequence + 1;
          total_events = other.total_events + 1;
        },
        commits event other (simp start' refl) (simp start' (omega arith))
            (ap (λ (x : CommittedEvent). x.sequence) made ∙ one ∙ sym one')
            (ap (λ (x : CommittedEvent). x.previous_sha256) made ∙ head ∙ sym head')
            (omega (arith, one')) (omega (arith, zero')),
        ap (λ es. es ++ event ∷ []) start',
        id',
        ap (λ (x : CommittedEvent). x.room_id_sha256) made ∙ id,
      )
