-- ===== src/Room/Encoding.antt =====
-- The event hash covers every field of the event (reflection_room/mod.rs).
use asolaria_os.Prelude.{
  ℕ, ◌^◌, ◌<◌, ◌≡◌, refl, ap, sym, ◌∙◌, List, [], ◌∷◌, arith, Bytes, length, get_or, map,
  append-injective, length-be_bytes, be_bytes-injective,
}
use asolaria_os.Room.{
  EventDraft, BodyRef, RoomEventKind, AuthorityState, RecallAccessLevel, PiiState, kind_byte,
  authority_byte, access_byte, pii_byte,
}
use asolaria_os.Room.Writer.{event_fields, concat}

concat-injective :
    (fs gs : List Bytes) → map length fs ≡ map length gs → concat fs ≡ concat gs → fs ≡ gs
unfolding concat
concat-injective [] [] h e = refl
concat-injective [] (g ∷ gs) h e = cc
concat-injective (f ∷ fs) [] h e = cc
concat-injective (f ∷ fs) (g ∷ gs) h e =
    let (a, b) = append-injective f (concat fs) g (concat gs) (cc) e in
    let rest = concat-injective fs gs (cc) b in cc (a, rest)

kind_byte-injective : (a b : RoomEventKind) → kind_byte a ≡ kind_byte b → a ≡ b
unfolding kind_byte
kind_byte-injective a b e = ground arith

authority_byte-injective : (a b : AuthorityState) → authority_byte a ≡ authority_byte b → a ≡ b
unfolding authority_byte
authority_byte-injective a b e = ground arith

access_byte-injective : (a b : RecallAccessLevel) → access_byte a ≡ access_byte b → a ≡ b
unfolding access_byte
access_byte-injective a b e = ground arith

pii_byte-injective : (a b : PiiState) → pii_byte a ≡ pii_byte b → a ≡ b
unfolding pii_byte
pii_byte-injective a b e = ground arith

-- The widths of the Rust types.
pub record IsSized (draft : EventDraft) : Type 0 where
  pub source_handle8 : length draft.source_handle8 ≡ 8
  pub source_pid_sha256 : length draft.source_pid_sha256 ≡ 32
  pub target_handle8 : length draft.target_handle8 ≡ 8
  pub target_pid_sha256 : length draft.target_pid_sha256 ≡ 32
  pub verb_sha256 : length draft.verb_sha256 ≡ 32
  pub timestamp_ns : draft.timestamp_ns < 256 ^ 8
  pub parent_sha256 : length draft.parent_sha256 ≡ 32
  pub offset : draft.body.offset < 256 ^ 8
  pub body_length : draft.body.length < 256 ^ 4
  pub body_sha256 : length draft.body.sha256 ≡ 32
  pub selector_dims : draft.selector_dims < 256 ^ 2
  pub selector_tuple_sha256 : length draft.selector_tuple_sha256 ≡ 32
  pub owner_pid_sha256 : length draft.owner_pid_sha256 ≡ 32
  pub idempotency_key : length draft.idempotency_key ≡ 32

-- The widths of the hashed fields.
abbrev widths : List ℕ
widths =
    33 ∷ 32 ∷ 8 ∷ 8 ∷ 32 ∷ 1 ∷ 8 ∷ 32 ∷ 8 ∷ 32 ∷ 32 ∷ 8 ∷ 32 ∷ 8 ∷ 4 ∷ 32 ∷ 2 ∷ 32 ∷ 1 ∷ 1 ∷ 1 ∷ 32
    ∷ 32 ∷ []

event_fields-widths :
    (room handle previous : Bytes) (sequence : ℕ) (draft : EventDraft)
    → length room ≡ 32
    → length handle ≡ 8
    → length previous ≡ 32
    → IsSized draft
    → map length (event_fields room handle sequence previous draft) ≡ widths
unfolding event_fields
event_fields-widths room handle previous sequence draft r h p s =
    simp
      (
        r, h, p, s.source_handle8, s.source_pid_sha256, s.target_handle8, s.target_pid_sha256,
        s.verb_sha256, s.parent_sha256, s.body_sha256, s.selector_tuple_sha256, s.owner_pid_sha256,
        s.idempotency_key, length-be_bytes,
      )
      refl

byte_of : (a b : ℕ) → a ∷ [] ≡ b ∷ [] → a ≡ b
byte_of a b e = cc

same_body :
    (x y : BodyRef) → x.offset ≡ y.offset → x.length ≡ y.length → x.sha256 ≡ y.sha256 → x ≡ y
same_body x y a b c = cc

-- What the hash is taken over determines the room, the position and the whole draft.
pub event_fields-injective :
    (room handle previous room' handle' previous' : Bytes) (sequence sequence' : ℕ)
    (x y : EventDraft)
    → length room ≡ 32
    → length handle ≡ 8
    → length previous ≡ 32
    → length room' ≡ 32
    → length handle' ≡ 8
    → length previous' ≡ 32
    → sequence < 256 ^ 8
    → sequence' < 256 ^ 8
    → IsSized x
    → IsSized y
    → concat (event_fields room handle sequence previous x)
      ≡ concat (event_fields room' handle' sequence' previous' y)
    → (room ≡ room')
      × (handle ≡ handle')
      × (sequence ≡ sequence')
      × (previous ≡ previous')
      × (x ≡ y)
unfolding event_fields
event_fields-injective room handle previous room' handle' previous' sequence sequence' x y a b c d f
      g n n' s t e =
    let fields =
      concat-injective _ _
        (event_fields-widths room handle previous sequence x a b c s
          ∙ sym (event_fields-widths room' handle' previous' sequence' y d f g t))
        e in
    let at_ : (i : ℕ)
        → get_or (event_fields room handle sequence previous x) i []
          ≡ get_or (event_fields room' handle' sequence' previous' y) i [] =
      λ i. ap (λ fs. get_or fs i []) fields in
    (
      at_ 1,
      at_ 2,
      be_bytes-injective 8 _ _ n n' (at_ 3),
      at_ 4,
      cc (
        kind_byte-injective _ _ (byte_of _ _ (at_ 5)),
        at_ 6,
        at_ 7,
        at_ 8,
        at_ 9,
        at_ 10,
        be_bytes-injective 8 _ _ s.timestamp_ns t.timestamp_ns (at_ 11),
        at_ 12,
        same_body x.body y.body (be_bytes-injective 8 _ _ s.offset t.offset (at_ 13))
            (be_bytes-injective 4 _ _ s.body_length t.body_length (at_ 14)) (at_ 15),
        be_bytes-injective 2 _ _ s.selector_dims t.selector_dims (at_ 16),
        at_ 17,
        authority_byte-injective _ _ (byte_of _ _ (at_ 18)),
        access_byte-injective _ _ (byte_of _ _ (at_ 19)),
        pii_byte-injective _ _ (byte_of _ _ (at_ 20)),
        at_ 21,
        at_ 22,
      ),
    )
