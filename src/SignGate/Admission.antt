-- ===== src/SignGate/Admission.antt =====
-- Which envelopes the gate of sign_gate/mod.rs admits.
use asolaria_os.Prelude.{
  ◌≡◌, ◌≢◌, ◌↔◌, refl, ◌⊎◌, inl, inr, List, [], ◌∷◌, Bytes, bytes, All, arith, contains, any,
  is_empty, same_iff, true, false, Bool-cases, ok,
}
use asolaria_os.Crypto.{verify}
use asolaria_os.SignGate.{
  default_denies, tag_clean, deny_check, task_39_envvar_virus_allow, is_ok,
  verify_envelope_signature, gate_envelope,
}

-- No deny term occurs in a tag.
abbrev pub Clean : List Bytes → Bytes → Type 0
Clean denies tag = All (λ deny. contains tag deny ≡ false) denies

tag_clean-to : (tag : Bytes) (denies : List Bytes) → tag_clean tag denies ≡ true → Clean denies tag
unfolding tag_clean
tag_clean-to tag [] h = tt
tag_clean-to tag (d ∷ denies) h = (ground arith, tag_clean-to tag denies (ground arith))

tag_clean-from :
    (tag : Bytes) (denies : List Bytes) → Clean denies tag → tag_clean tag denies ≡ true
unfolding tag_clean
tag_clean-from tag [] h = refl
tag_clean-from tag (d ∷ denies) h = rw (h.0) (tag_clean-from tag denies h.1)

deny_check-to : (tags denies : List Bytes) → deny_check tags denies ≡ true → All (Clean denies) tags
unfolding deny_check
deny_check-to [] denies h = tt
deny_check-to (t ∷ tags) denies h =
    (tag_clean-to t denies (ground arith), deny_check-to tags denies (ground arith))

deny_check-from :
    (tags denies : List Bytes) → All (Clean denies) tags → deny_check tags denies ≡ true
unfolding deny_check
deny_check-from [] denies h = refl
deny_check-from (t ∷ tags) denies h =
    rw (tag_clean-from t denies h.0) (deny_check-from tags denies h.1)

-- The deny check passes exactly if no event tag contains any deny term.
deny_check_iff :
    (tags denies : List Bytes) → (deny_check tags denies ≡ true) ↔ All (Clean denies) tags
deny_check_iff tags denies = (deny_check-to tags denies, deny_check-from tags denies)

is_empty-ne : (b : Bytes) → (is_empty b ≡ false) ↔ (b ≢ [])
is_empty-ne [] = (λ h e. cc, λ h. absurd (h refl))
is_empty-ne (x ∷ b) = (λ h e. cc, λ h. refl)

module _ (sha256 : Bytes → Bytes) (canonical_bytes sig key alg : Bytes) where
  abbrev pub Verified : Type 0
  Verified =
      (canonical_bytes ≢ [])
      × (alg ≡ bytes "ed25519")
      × (verify sha256 canonical_bytes sig key ≡ ok tt)

  verified :
      (is_ok (verify_envelope_signature sha256 canonical_bytes sig key alg) ≡ true) ↔ Verified
  unfolding verify_envelope_signature is_ok
  verified = (
    λ h. (
      (is_empty-ne canonical_bytes).0 (ground arith),
      (same_iff alg (bytes "ed25519")).0 (ground arith),
      ground arith,
    ),
    λ v.
        let some_bytes = (is_empty-ne canonical_bytes).1 v.0 in
        let named = (same_iff alg (bytes "ed25519")).1 v.1 in rw (some_bytes, named, v.2),
  )

-- An envelope is admitted exactly if its bytes are not empty, the algorithm is named `ed25519`, the
-- signature verifies, and every event tag is clean or some variable name earns the allowance; a
-- rescue is recorded only where a deny term did match.
pub gate_envelope_admits :
    (sha256 : Bytes → Bytes) (canonical_bytes sig key alg : Bytes) (tags names : List Bytes)
    → let v = gate_envelope sha256 canonical_bytes sig key alg tags names in
      ((v.admitted ≡ true) ↔ (
        (canonical_bytes ≢ [])
        × (alg ≡ bytes "ed25519")
        × (verify sha256 canonical_bytes sig key ≡ ok tt)
        × (All (Clean default_denies) tags ⊎ (any task_39_envvar_virus_allow names ≡ true))))
      × (v.allow_rescued ≡ true → All (Clean default_denies) tags → ⊥)
unfolding gate_envelope verify_envelope_signature
gate_envelope_admits sha256 canonical_bytes sig key alg tags names =
    let (sig_to, sig_from) = verified sha256 canonical_bytes sig key alg in
    let (clean_to, clean_from) = deny_check_iff tags default_denies in
    (
      (
        λ h.
            let (a, b, c) = sig_to (ground arith) in
            (
              a,
              b,
              c,
              elim (Bool-cases (deny_check tags default_denies)) [
                | inl clean ↦ inl (clean_to clean)
                | inr dirty ↦ inr (ground arith)
              ],
            ),
        λ (a, b, c, d).
            let s = sig_from (a, b, c) in
            elim d [
              | inl clean ↦ let k = clean_from clean in rw (s, k)
              | inr rescue ↦ elim (Bool-cases (deny_check tags default_denies)) [
                | inl k ↦ rw (s, k)
                | inr k ↦ rw (s, k, rescue)
              ]
            ],
      ),
      λ h clean. let k = clean_from clean in ground arith,
    )
