-- ===== src/Crypto.antt =====
-- kernel/core/src/crypto/mod.rs: canonical envelope bytes, and the sha-derived signatures. Keys,
-- signatures and messages are lists of bytes; SHA-256 (the sha2 crate) is a parameter.
pub mod Signatures
pub mod Canonical
use Prim.Native.Nat.{bit_or}
use asolaria_os.Prelude.{
  ℕ, List, [], ◌∷◌, ◌++◌, Bytes, bytes, be_bytes, is_empty, bit_xor, ◌==◌, ◌||◌, if◌then◌else◌,
  Bool, Result, ok, err, ◌>>=◌,
}

pub data CryptoErr : Type 0 where
  signature_invalid verification_failed key_malformed canonicalization_failed unimplemented :
      CryptoErr

unfoldable pub canonical_envelope_bytes :
    ℕ → ℕ → Bytes → Bytes → Bytes → ℕ → Bytes → Result CryptoErr Bytes
canonical_envelope_bytes from_pid to_pid type_tag verb id ts_ns payload =
    if is_empty type_tag || is_empty id
    then err canonicalization_failed
    else ok (
        be_bytes 8 from_pid
        ++ (b'|'
            ∷ (be_bytes 8 to_pid
                ++ (b'|'
                    ∷ (type_tag
                        ++ (b'|'
                            ∷ (verb
                                ++ (b'|'
                                    ∷ (id
                                        ++ (b'|' ∷ (be_bytes 8 ts_ns ++ (b'|' ∷ payload))))))))))))

-- The accumulator of `ct_eq` over the rest of two signatures.
ct_acc : ℕ → Bytes → Bytes → ℕ
ct_acc acc (a ∷ as_) (b ∷ bs) = ct_acc (bit_or acc (bit_xor a b)) as_ bs
ct_acc acc _ _ = acc

unfoldable pub ct_eq : Bytes → Bytes → Bool
unfolding ct_acc
ct_eq a b = ct_acc 0 a b == 0

module _ (sha256 : Bytes → Bytes) where
  unfoldable pub expected_sig_bytes : Bytes → Bytes → Bytes
  expected_sig_bytes public msg =
      let half_a = sha256 (public ++ (bytes ":sign:" ++ msg)) in half_a ++ sha256 half_a

  unfoldable pub derive_public : Bytes → Result CryptoErr Bytes
  derive_public secret = ok (sha256 (secret ++ bytes ":derive:"))

  unfoldable pub sign : Bytes → Bytes → Result CryptoErr Bytes
  unfolding derive_public
  sign canonical_bytes priv_key = do
    public ← derive_public priv_key
    ok (expected_sig_bytes public canonical_bytes)

  unfoldable pub verify : Bytes → Bytes → Bytes → Result CryptoErr (Unit {0})
  verify canonical_bytes sig pub_key =
      if ct_eq (expected_sig_bytes pub_key canonical_bytes) sig
      then ok tt
      else err verification_failed
