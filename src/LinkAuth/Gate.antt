-- ===== src/LinkAuth/Gate.antt =====
-- Who passes the consent gate of link_auth/mod.rs, and how far.
use asolaria_os.Prelude.{
  hex_digit, hex_text, ℕ, ◌+◌, ◌*◌, ◌/◌, ◌%◌, ◌≤◌, ◌≡◌, ◌≢◌, ◌↔◌, inl, inr, refl, List, [], All,
  ◌∷◌, Bytes, same, same_iff, length, any, is_empty, ltb, ◌==◌, ==_iff, not, ◌||◌, if◌then◌else◌,
  true, false, Bool-cases, Option-cases, arith, Option, none, some,
}
use asolaria_os.LinkAuth.{
  LinkRequest, allowed, LinkGrant, pairs_match, hmac_hex_matches, hmac_sha256_parts, signed_parts,
  clock_diff, verify_link, granted_from, granted_level, effective_level, better,
}

pairs_match_refused : (mac text : Bytes) → pairs_match false mac text ≡ false
unfolding pairs_match
pairs_match_refused [] text = refl
pairs_match_refused (b ∷ mac) [] = refl
pairs_match_refused (b ∷ mac) (h ∷ []) = refl
pairs_match_refused (b ∷ mac) (h ∷ l ∷ text) =
    elim (Bool-cases (not (h == hex_digit (b / 16)) || not (l == hex_digit (b % 16)))) [
      | inl wrong ↦ rw wrong (pairs_match_refused mac text)
      | inr right ↦ rw right (pairs_match_refused mac text)
    ]

pairs_match_iff :
    (mac text : Bytes)
    → length text ≡ 2 * length mac
    → (pairs_match true mac text ≡ true) ↔ (text ≡ hex_text mac)
unfolding pairs_match
pairs_match_iff [] [] n = (λ h. refl, λ h. refl)
pairs_match_iff [] (h ∷ text) n = absurd (omega arith)
pairs_match_iff (b ∷ mac) [] n = absurd (omega arith)
pairs_match_iff (b ∷ mac) (h ∷ []) n = absurd (omega arith)
pairs_match_iff (b ∷ mac) (h ∷ l ∷ text) n =
    let (to, from) = pairs_match_iff mac text (omega arith) in
    elim (Bool-cases (not (h == hex_digit (b / 16)) || not (l == hex_digit (b % 16)))) [
      | inl wrong ↦
          rw wrong (λ e. absurd (cc (pairs_match_refused mac text, e)), λ e. absurd (ground arith))
      | inr right ↦ rw right (
        λ e. cc (
          to e,
          (==_iff h (hex_digit (b / 16))).0 (ground arith),
          (==_iff l (hex_digit (b % 16))).0 (ground arith),
        ),
        λ e. from (cc),
      )
    ]

hmac_hex_matches_iff :
    (mac text : Bytes)
    → length mac ≡ 32
    → (hmac_hex_matches mac text ≡ true) ↔ ((length text ≡ 64) × (text ≡ hex_text mac))
unfolding hmac_hex_matches
hmac_hex_matches_iff mac text n = elim (Bool-cases (length text == 64)) [
  | inr other ↦ rw other (λ e. cc, λ (k, _). ground arith)
  | inl whole ↦
      let k : length text ≡ 64 = (==_iff _ _).0 whole in
      let (to, from) = pairs_match_iff mac text (omega (arith, n, k)) in
      rw whole (λ e. (k, to e), λ (_, e). from e)
]

hmac_size :
    (sha256 : Bytes → Bytes)
    → ((m : Bytes) → length (sha256 m) ≡ 32)
    → (key : Bytes) (parts : List Bytes) → length (hmac_sha256_parts sha256 key parts) ≡ 32
unfolding hmac_sha256_parts
hmac_size sha256 size key parts = size _

is_empty-ne : (b : Bytes) → (is_empty b ≡ false) ↔ (b ≢ [])
is_empty-ne [] = (λ h e. cc, λ h. absurd (h refl))
is_empty-ne (x ∷ b) = (λ h e. cc, λ h. refl)

-- A link is allowed exactly if no field is empty, the two clocks agree within the window, the host
-- granted the owner, and the text is the lower-case hexadecimal of the keyed hash of the request's
-- fields. The digest has 32 bytes.
pub verify_link_iff :
    (sha256 : Bytes → Bytes) (req : LinkRequest) (key : Bytes) (granted : List Bytes) (now skew : ℕ)
    → ((m : Bytes) → length (sha256 m) ≡ 32)
    → (verify_link sha256 req key granted now skew ≡ allowed) ↔ (
        (req.owner_pid ≢ [])
        × (req.host ≢ [])
        × (req.verb ≢ [])
        × (req.nonce ≢ [])
        × (now ≤ req.ts_unix_s + skew)
        × (req.ts_unix_s ≤ now + skew)
        × (any (λ g. same g req.owner_pid) granted ≡ true)
        × (length req.hmac_hex ≡ 64)
        × (req.hmac_hex ≡ hex_text (hmac_sha256_parts sha256 key (signed_parts req))))
unfolding verify_link
verify_link_iff sha256 req key granted now skew size =
    let (to, from) =
      hmac_hex_matches_iff (hmac_sha256_parts sha256 key (signed_parts req)) req.hmac_hex
        (hmac_size sha256 size key (signed_parts req)) in
    let o = is_empty-ne req.owner_pid in
    let h = is_empty-ne req.host in
    let v = is_empty-ne req.verb in
    let n = is_empty-ne req.nonce in
    (
      λ e.
          let m : hmac_hex_matches (hmac_sha256_parts sha256 key (signed_parts req)) req.hmac_hex
              ≡ true =
            ground arith in
          (
            o.0 (ground arith),
            h.0 (ground arith),
            v.0 (ground arith),
            n.0 (ground arith),
            ground arith,
            ground arith,
            ground arith,
            (to m).0,
            (to m).1,
          ),
      λ (a, b, c, d, late, early, known, len, text).
          let a' = o.1 a in
          let b' = h.1 b in
          let c' = v.1 c in
          let d' = n.1 d in
          let m = from (len, text) in
          let whole : (length req.hmac_hex == 64) ≡ true = (==_iff _ _).1 len in
          let fresh : ltb skew (clock_diff now req.ts_unix_s) ≡ false = ground arith in
          rw (a', b', c', d', whole, fresh, known, m) refl,
    )

better_bound :
    (best : Option ℕ) (level bound : ℕ)
    → ((b : ℕ) → best ≡ some b → b ≤ bound)
    → level ≤ bound
    → better best level ≤ bound
better_bound none level bound h k = k
better_bound (some b) level bound h k = let c = h b refl in ground arith

bounded-granted_from :
    (grants : List LinkGrant) (owner_pid : Bytes) (best : Option ℕ) (level bound : ℕ)
    → granted_from best owner_pid grants ≡ some level
    → ((b : ℕ) → best ≡ some b → b ≤ bound)
    → All (λ g. g.owner_pid ≡ owner_pid → g.max_level ≤ bound) grants
    → level ≤ bound
unfolding granted_from
bounded-granted_from [] owner_pid best level bound e b a = b level e
bounded-granted_from (g ∷ grants) owner_pid best level bound e b a =
    elim (Bool-cases (same g.owner_pid owner_pid)) [
      | inr other ↦ bounded-granted_from grants owner_pid best level bound (rw other at e) b a.1
      | inl owner ↦
          bounded-granted_from grants owner_pid (some (better best g.max_level)) level bound
            (rw owner at e)
            (λ x q.
              ground (arith, better_bound best g.max_level bound b (a.0 ((same_iff _ _).0 owner))))
            a.1
    ]

granted_from-any :
    (grants : List LinkGrant) (owner_pid : Bytes) (level : ℕ)
    → granted_from none owner_pid grants ≡ some level
    → any (λ g. same g.owner_pid owner_pid) grants ≡ true
unfolding granted_from
granted_from-any [] owner_pid level e = cc
granted_from-any (g ∷ grants) owner_pid level e = elim (Bool-cases (same g.owner_pid owner_pid)) [
  | inl owner ↦ rw owner refl
  | inr other ↦ rw other (granted_from-any grants owner_pid level (rw other at e))
]

-- A level is served to an owner with a grant only, and it is at most the level asked for and at most
-- any bound on the owner's own grants; the grants of others do not raise it.
pub effective_level_bounded :
    (grants : List LinkGrant) (owner_pid : Bytes) (requested level bound : ℕ)
    → effective_level owner_pid requested grants ≡ some level
    → All (λ g. g.owner_pid ≡ owner_pid → g.max_level ≤ bound) grants
    → (level ≤ requested) × (level ≤ bound) × (any (λ g. same g.owner_pid owner_pid) grants ≡ true)
unfolding effective_level granted_level
effective_level_bounded grants owner_pid requested level bound e a =
    elim (Option-cases (granted_from none owner_pid grants)) [
      | inl none_ ↦ cc (rw none_ at e)
      | inr (g, found) ↦
          let b = bounded-granted_from grants owner_pid none g bound found (λ x q. cc) a in
          let e' : (if ltb requested g then requested else g) ≡ level = cc (rw found at e) in
          (ground (arith, e'), ground (arith, e', b), granted_from-any grants owner_pid g found)
    ]
