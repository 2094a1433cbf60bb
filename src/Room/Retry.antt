-- ===== src/Room/Retry.antt =====
-- A retry that comes while the window of its event is active (reflection_room/mod.rs).
use asolaria_os.Prelude.{
  ◌+◌, ◌≤◌, ◌≡◌, ◌⊎◌, inl, inr, refl, sym, ◌∙◌, List, [], ◌∷◌, ◌++◌, none, some, Bool-cases,
  Option-cases, arith, Bytes, same, length, leb, ◌==◌, not, ◌||◌, u64_max, ok,
}
use asolaria_os.Room.{
  CommittedEvent, GulpSeal, committed, duplicate, active_envelope_window, RoomWriter,
}
use asolaria_os.Room.Writer.{is_zero_sha, find_key, seal_gulp, push_event, commit_new, commit}
use asolaria_os.Room.Idempotency.{find_key-last, commit-parts}

-- A call that may change a room's writer: of `commit` and `seal_gulp`.
pub data RoomCall : Type 0 where
  committing : CommittedEvent → RoomCall
  sealing : Bytes → RoomCall

-- An event that is found is found in a longer window as well.
find_key-kept :
    (key : Bytes) (es fs : List CommittedEvent) (e : CommittedEvent)
    → find_key key es ≡ some e
    → find_key key (es ++ fs) ≡ some e
unfolding find_key
find_key-kept key [] fs e h = cc
find_key-kept key (x ∷ es) fs e h = elim (Bool-cases (same x.draft.idempotency_key key)) [
  | inl hit ↦ ground arith
  | inr miss ↦ rw miss (find_key-kept key es fs e (ground arith))
]

push_event-recent :
    (event : CommittedEvent) (w : RoomWriter)
    → ((push_event event w).1.recent ≡ w.recent ++ event ∷ [])
      × ((push_event event w).1.total_gulps ≡ w.total_gulps)
unfolding push_event
push_event-recent event w = elim (Bool-cases (w.next_sequence == u64_max)) [
  | inl top ↦ rw top (refl, refl)
  | inr low ↦ elim (Bool-cases (w.total_events == u64_max)) [
    | inl top ↦ rw (low, top) (refl, refl)
    | inr few ↦ rw (low, few) (refl, refl)
  ]
]

-- A commit leaves the writer alone, or adds its event at the end of the window and seals nothing.
commit-recent :
    (event : CommittedEvent) (w : RoomWriter)
    → ((commit event w).1 ≡ w)
      ⊎ (((commit event w).1.recent ≡ w.recent ++ event ∷ [])
          × ((commit event w).1.total_gulps ≡ w.total_gulps))
unfolding commit commit_new
commit-recent event w = elim (Option-cases (find_key event.draft.idempotency_key w.recent)) [
  | inr (existing, e) ↦ inl (rw e refl)
  | inl e ↦ elim (Bool-cases (leb active_envelope_window (length w.recent))) [
    | inl full_ ↦ inl (rw (e, full_) refl)
    | inr room ↦
        elim (Bool-cases (
          not (event.sequence == w.next_sequence)
          || not (same event.previous_sha256 w.head_sha256))) [
            | inl stale ↦ inl (rw (e, room, stale) refl)
            | inr current ↦ inr (rw (e, room, current) (push_event-recent event w))
          ]
  ]
]

module _ (sha256 : Bytes → Bytes) where
  unfoldable pub room_step : RoomCall → RoomWriter → RoomWriter
  room_step (committing event) w = (commit event w).1
  room_step (sealing product) w = (seal_gulp sha256 product w).1

  unfoldable pub run_room : List RoomCall → RoomWriter → RoomWriter
  unfolding room_step
  run_room [] w = w
  run_room (call ∷ calls) w = run_room calls (room_step call w)

  -- A seal that is refused leaves the writer alone, and a seal is counted.
  seal_gulp-total :
      (product : Bytes) (w : RoomWriter)
      → ((seal_gulp sha256 product w).1 ≡ w)
        ⊎ ((seal_gulp sha256 product w).1.total_gulps ≡ w.total_gulps + 1)
  unfolding seal_gulp
  seal_gulp-total product w = elim (Bool-cases (length w.recent == active_envelope_window)) [
    | inr early ↦ inl (rw early refl)
    | inl full_ ↦ elim (Bool-cases (is_zero_sha product)) [
      | inl zeros ↦ inl (rw (full_, zeros) refl)
      | inr given ↦ elim (Bool-cases (w.total_gulps == u64_max)) [
        | inl top ↦ inl (rw (full_, given, top) refl)
        | inr low ↦ inr (rw (full_, given, low) refl)
      ]
    ]
  ]

  room_step-total :
      (call : RoomCall) (w : RoomWriter) → w.total_gulps ≤ (room_step call w).total_gulps
  unfolding room_step
  room_step-total (committing event) w = elim (commit-recent event w) [
    | inl same_ ↦ rw same_ (omega arith)
    | inr (rows, gulps) ↦ omega (arith, gulps)
  ]
  room_step-total (sealing product) w = elim (seal_gulp-total product w) [
    | inl same_ ↦ rw same_ (omega arith)
    | inr gulps ↦ omega (arith, gulps)
  ]

  run_room-total :
      (calls : List RoomCall) (w : RoomWriter) → w.total_gulps ≤ (run_room calls w).total_gulps
  unfolding run_room
  run_room-total [] w = omega arith
  run_room-total (call ∷ calls) w =
      omega (arith, room_step-total call w, run_room-total calls (room_step call w))

  -- A call seals the window, or seals nothing and keeps what the window holds.
  room_step-kept :
      (call : RoomCall) (key : Bytes) (e : CommittedEvent) (w : RoomWriter)
      → find_key key w.recent ≡ some e
      → ((room_step call w).total_gulps ≡ w.total_gulps + 1)
        ⊎ (((room_step call w).total_gulps ≡ w.total_gulps)
            × (find_key key (room_step call w).recent ≡ some e))
  unfolding room_step
  room_step-kept (committing event) key e w h = elim (commit-recent event w) [
    | inl same_ ↦ inr (rw same_ (refl, h))
    | inr (rows, gulps) ↦ inr (gulps, rw rows (find_key-kept key w.recent (event ∷ []) e h))
  ]
  room_step-kept (sealing product) key e w h = elim (seal_gulp-total product w) [
    | inl same_ ↦ inr (rw same_ (refl, h))
    | inr gulps ↦ inl gulps
  ]

  run_room-kept :
      (calls : List RoomCall) (key : Bytes) (e : CommittedEvent) (w : RoomWriter)
      → find_key key w.recent ≡ some e
      → (run_room calls w).total_gulps ≡ w.total_gulps
      → find_key key (run_room calls w).recent ≡ some e
  unfolding run_room
  run_room-kept [] key e w h t = h
  run_room-kept (call ∷ calls) key e w h t = elim (room_step-kept call key e w h) [
    | inl sealed ↦ absurd (omega (arith, sealed, t, run_room-total calls (room_step call w)))
    | inr (gulps, found) ↦ run_room-kept calls key e (room_step call w) found (t ∙ sym gulps)
  ]

  -- After a commit and any commits and seals that seal no window, any event with the same
  -- idempotency key is answered with the one that was committed, and the writer does not change.
  pub commit-run_room_same_key :
      (event again : CommittedEvent) (calls : List RoomCall) (w w' : RoomWriter)
      → commit event w ≡ (ok (committed event), w')
      → again.draft.idempotency_key ≡ event.draft.idempotency_key
      → (run_room calls w').total_gulps ≡ w'.total_gulps
      → commit again (run_room calls w') ≡ (ok (duplicate event), run_room calls w')
  unfolding commit
  commit-run_room_same_key event again calls w w' done key unsealed =
      let (fresh, _, rows, _) = commit-parts event event w w' done in
      let found : find_key again.draft.idempotency_key w'.recent ≡ some event =
        rw (key, rows) (find_key-last w.recent event fresh) in
      let kept = run_room-kept calls again.draft.idempotency_key event w' found unsealed in
      rw kept refl

  -- A seal forgets the keys: an event with a key of the sealed window is no duplicate after it.
  seal_gulp-forgets :
      (product key : Bytes) (seal : GulpSeal) (w w' : RoomWriter)
      → seal_gulp sha256 product w ≡ (ok seal, w')
      → find_key key w'.recent ≡ none
  unfolding seal_gulp find_key
  seal_gulp-forgets product key seal w w' e =
      elim (Bool-cases (length w.recent == active_envelope_window)) [
        | inr early ↦ absurd (ground arith)
        | inl full_ ↦ elim (Bool-cases (is_zero_sha product)) [
          | inl zeros ↦ absurd (ground arith)
          | inr given ↦ elim (Bool-cases (w.total_gulps == u64_max)) [
            | inl top ↦ absurd (ground arith)
            | inr low ↦ let gone : w'.recent ≡ [] = ground arith in rw gone refl
          ]
        ]
      ]
