-- ===== src/SignGate.antt =====
-- kernel/core/src/sign_gate/mod.rs: the signature check and the deny list in front of the
-- hookwall. SHA-256 (the sha2 crate) is a parameter.
pub mod Admission
use asolaria_os.Prelude.{
  ℕ, List, [], ◌∷◌, Bytes, bytes, same, contains, is_empty, any, all, leb, ◌==◌, ◌&&◌, ◌||◌, not,
  if◌then◌else◌, Bool, true, false, Result, ok, err, ◌>>=◌, ◌>>◌, guard,
}
use asolaria_os.Crypto.{verify, CryptoErr, signature_invalid}

abbrev pub default_denies : List Bytes
default_denies =
    bytes "HD-virus"
    ∷ bytes "drift"
    ∷ bytes "malformed-PID"
    ∷ bytes "unknown-cube"
    ∷ bytes "off-fabric"
    ∷ []

pub record GateVerdict : Type 0 where
  pub admitted : Bool
  pub reason : Bytes
  pub sig_valid : Bool
  pub deny_clean : Bool
  pub allow_rescued : Bool

pub data SignGateErr : Type 0 where
  envelope_empty unsupported_alg sig_missing owner_missing : SignGateErr

-- The inner loop, over the deny terms.
tag_clean : Bytes → List Bytes → Bool
tag_clean tag [] = true
tag_clean tag (deny ∷ denies) =
    let rest = tag_clean tag denies in if contains tag deny then false else rest

unfoldable pub deny_check : List Bytes → List Bytes → Bool
unfolding tag_clean
deny_check [] denies = true
deny_check (tag ∷ tags) denies =
    let rest = deny_check tags denies in if tag_clean tag denies then rest else false

abbrev in_range : ℕ → ℕ → ℕ → Bool
in_range lo hi b = leb lo b && leb b hi

name_byte : ℕ → Bool
name_byte b = in_range b'A' b'Z' b || in_range b'0' b'9' b || b == b'_'

starts_upper : Bytes → Bool
starts_upper [] = false
starts_upper (b ∷ rest) = in_range b'A' b'Z' b

unfoldable pub task_39_envvar_virus_allow : Bytes → Bool
unfolding name_byte starts_upper
task_39_envvar_virus_allow name =
    if is_empty name
    then false
    else if not (starts_upper name)
    then false
    else if not (all name_byte name)
    then false
    else contains name (bytes "VIRUS")

is_ok : {E A : Type 0} → Result E A → Bool
is_ok (ok a) = true
is_ok (err e) = false

checked : Result CryptoErr (Unit {0}) → Result SignGateErr (Unit {0})
checked (ok _) = ok tt
checked (err _) = err sig_missing

module _ (sha256 : Bytes → Bytes) where
  unfoldable pub verify_envelope_signature :
      Bytes → Bytes → Bytes → Bytes → Result SignGateErr (Unit {0})
  unfolding checked
  verify_envelope_signature canonical_bytes sig owner_pub_key alg = do
    guard (not (is_empty canonical_bytes)) envelope_empty
    guard (same alg (bytes "ed25519")) unsupported_alg
    checked (verify sha256 canonical_bytes sig owner_pub_key)

  unfoldable pub gate_envelope :
      Bytes → Bytes → Bytes → Bytes → List Bytes → List Bytes → GateVerdict
  unfolding is_ok
  gate_envelope canonical_bytes sig owner_pub_key alg hookwall_event_tags envvar_names =
      let sig_valid = is_ok (verify_envelope_signature canonical_bytes sig owner_pub_key alg) in
      let deny_clean = deny_check hookwall_event_tags default_denies in
      let allow_rescued = not deny_clean && any task_39_envvar_virus_allow envvar_names in
      let admitted = sig_valid && (deny_clean || allow_rescued) in
      let reason =
        if not sig_valid
        then bytes "signature-invalid"
        else if not deny_clean && not allow_rescued
        then bytes "deny-tag-matched-no-allow-rescue"
        else if allow_rescued
        then bytes "deny-tag-matched-but-allow-rescued"
        else bytes "admitted-clean" in
      record {
        admitted = admitted;
        reason = reason;
        sig_valid = sig_valid;
        deny_clean = deny_clean;
        allow_rescued = allow_rescued;
      }
