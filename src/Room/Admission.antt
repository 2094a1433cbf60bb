-- ===== src/Room/Admission.antt =====
-- Which drafts a room admits (reflection_room/mod.rs).
use asolaria_os.Prelude.{
  ◌≤◌, ◌≡◌, ◌≢◌, ◌↔◌, ◌⊎◌, inl, inr, refl, true, false, Bool, arith, not, ◌&&◌, ◌||◌, Result, ok,
  guard, ◌>>◌, le→leb,
}
use asolaria_os.Room.{
  RecallAccessLevel, owner_private, public, federation, PiiState, no_pii, keyed_consented, unknown,
  EventDraft, requires_parent, RoomWriter, min_selector_dims,
}
use asolaria_os.Room.Writer.{is_zero_sha, is_no_pii, is_owner_private, parent_known, validate_draft}

-- The contract of `validate_draft`, in words of the event's own fields.
pub record IsAdmissible (w : RoomWriter) (draft : EventDraft) : Type 0 where
  pub body : draft.body.length ≢ 0
  pub body_hash : is_zero_sha draft.body.sha256 ≡ false
  pub key : is_zero_sha draft.idempotency_key ≡ false
  pub selector : is_zero_sha draft.selector_tuple_sha256 ≡ false
  pub dims : min_selector_dims ≤ draft.selector_dims
  pub private : (draft.access_level ≡ owner_private) ⊎ (draft.pii_state ≡ no_pii)
  pub owner : draft.access_level ≡ owner_private → is_zero_sha draft.owner_pid_sha256 ≡ false
  pub parent :
      requires_parent draft.kind ≡ true
      → (is_zero_sha draft.parent_sha256 ≡ false) × (parent_known w draft ≡ true)

guard-ok :
    {E : Type 0} (b : Bool) (e : E) (k : Result E (Unit {0}))
    → ((guard b e >> k) ≡ ok tt) ↔ ((b ≡ true) × (k ≡ ok tt))
guard-ok true e k = (λ h. (refl, h), λ h. h.1)
guard-ok false e k = (λ h. cc, λ h. cc)

last_guard : {E : Type 0} (b : Bool) (e : E) → (guard b e ≡ ok tt) ↔ (b ≡ true)
last_guard true e = (λ h. refl, λ h. refl)
last_guard false e = (λ h. cc, λ h. cc)

-- The tests of `validate_draft` as Booleans, and what they say.
IsPrivate-iff :
    (a : RecallAccessLevel) (p : PiiState)
    → ((is_owner_private a || is_no_pii p) ≡ true) ↔ ((a ≡ owner_private) ⊎ (p ≡ no_pii))
IsPrivate-iff owner_private p = (λ h. inl refl, λ h. refl)
IsPrivate-iff public no_pii = (λ h. inr refl, λ h. refl)
IsPrivate-iff public keyed_consented = ground arith
IsPrivate-iff public unknown = ground arith
IsPrivate-iff federation no_pii = (λ h. inr refl, λ h. refl)
IsPrivate-iff federation keyed_consented = ground arith
IsPrivate-iff federation unknown = ground arith

owner_iff :
    (a : RecallAccessLevel) (z : Bool)
    → (not (is_owner_private a && z) ≡ true) ↔ (a ≡ owner_private → z ≡ false)
owner_iff owner_private z = ground arith
owner_iff public z = ground arith
owner_iff federation z = ground arith

-- `validate_draft` passes exactly the admissible drafts.
validate_draft_iff :
    (w : RoomWriter) (draft : EventDraft) → (validate_draft w draft ≡ ok tt) ↔ IsAdmissible w draft
unfolding validate_draft
validate_draft_iff w draft = (to, from)
  where
    to : validate_draft w draft ≡ ok tt → IsAdmissible w draft
    to h = record {
      body = ground arith;
      body_hash = ground arith;
      key = ground arith;
      selector = ground arith;
      dims = ground arith;
      private = (IsPrivate-iff draft.access_level draft.pii_state).0 (ground arith);
      owner = (owner_iff draft.access_level (is_zero_sha draft.owner_pid_sha256)).0 (ground arith);
      parent = λ r. (ground arith, ground arith);
    }

    from : IsAdmissible w draft → validate_draft w draft ≡ ok tt
    from h =
        let f = (IsPrivate-iff draft.access_level draft.pii_state).1 h.private in
        let g = (owner_iff draft.access_level (is_zero_sha draft.owner_pid_sha256)).1 h.owner in
        let e = le→leb _ _ h.dims in
        ground (arith, h.body, h.body_hash, h.key, h.selector, e, f, g, h.parent)
