-- ===== src/Crypto/Signatures.antt =====
-- What a signature of crypto/mod.rs proves.
use asolaria_os.Prelude.{
  ℕ, ◌<◌, ◌≡◌, ◌↔◌, refl, sym, ◌∙◌, [], ◌∷◌, Bytes, arith, All, All-append, length, length-append,
  true, ==_iff, ok, bit_xor,
}
use Prim.Native.Nat.{bit_or}
use asolaria_os.Prelude.Bytewise.{xor_lt, or_lt, xor-zero, xor_self, or-zero}
use asolaria_os.Crypto.{ct_acc, ct_eq, expected_sig_bytes, derive_public, sign, verify}

abbrev pub IsBytes : Bytes → Type 0
IsBytes = All (λ b. b < 256)

-- The accumulator is 0 exactly if it was and the texts agree.
ct_acc-zero :
    (acc : ℕ) (a b : Bytes)
    → acc < 256
    → IsBytes a
    → IsBytes b
    → length a ≡ length b
    → ct_acc acc a b ≡ 0
    → (acc ≡ 0) × (a ≡ b)
unfolding ct_acc
ct_acc-zero acc [] [] h p q l e = (e, refl)
ct_acc-zero acc [] (y ∷ b) h p q l e = absurd (omega arith)
ct_acc-zero acc (x ∷ a) [] h p q l e = absurd (omega arith)
ct_acc-zero acc (x ∷ a) (y ∷ b) h p q l e =
    let lt = xor_lt x y p.0 q.0 in
    let (step, rest) =
      ct_acc-zero (bit_or acc (bit_xor x y)) a b (or_lt acc (bit_xor x y) h lt) p.1 q.1
        (omega arith) e in
    let (zero_acc, zero_xor) = or-zero acc (bit_xor x y) h lt step in
    (zero_acc, cc (rest, xor-zero x y p.0 q.0 zero_xor))

ct_acc_self : (a : Bytes) → IsBytes a → ct_acc 0 a a ≡ 0
unfolding ct_acc
ct_acc_self [] p = refl
ct_acc_self (x ∷ a) p =
    let e : bit_xor x x ≡ 0 = xor_self x x p.0 p.0 refl in rw e (ct_acc_self a p.1)

-- The constant-time comparison of two byte strings of one length is equality.
ct_eq_iff :
    (a b : Bytes) → IsBytes a → IsBytes b → length a ≡ length b → (ct_eq a b ≡ true) ↔ (a ≡ b)
unfolding ct_eq
ct_eq_iff a b p q l = (
  λ h. (ct_acc-zero 0 a b (omega arith) p q l ((==_iff _ _).0 h)).1,
  λ e. rw (← e) ((==_iff _ _).1 (ct_acc_self a p)),
)

-- The documented form of a SHA-256 digest.
pub record IsDigest (sha256 : Bytes → Bytes) : Type 0 where
  pub size : (m : Bytes) → length (sha256 m) ≡ 32
  pub octets : (m : Bytes) → IsBytes (sha256 m)

module _ (sha256 : Bytes → Bytes) (digest : IsDigest sha256) where
  expected_size : (public msg : Bytes) → length (expected_sig_bytes sha256 public msg) ≡ 64
  unfolding expected_sig_bytes
  expected_size public msg =
      omega
        (arith, length-append (sha256 _) (sha256 (sha256 _)), digest.size _, digest.size (sha256 _))

  expected_octets : (public msg : Bytes) → IsBytes (expected_sig_bytes sha256 public msg)
  unfolding expected_sig_bytes
  expected_octets public msg =
      All-append (λ b. b < 256) (sha256 _) (sha256 (sha256 _)) (digest.octets _) (digest.octets _)

  -- A 64-byte signature verifies exactly if it is the one recomputed from the public key.
  pub verify_iff :
      (msg sig public : Bytes)
      → IsBytes sig
      → length sig ≡ 64
      → (verify sha256 msg sig public ≡ ok tt) ↔ (sig ≡ expected_sig_bytes sha256 public msg)
  unfolding verify
  verify_iff msg sig public q l =
      let same =
        ct_eq_iff (expected_sig_bytes sha256 public msg) sig (expected_octets public msg) q
          (expected_size public msg ∙ sym l) in
      (λ h. sym (same.0 (ground arith)), λ e. rw (same.1 (sym e)))

  -- What `sign` makes, `verify` accepts under the key that `derive_public` gives for the secret.
  verify-sign :
      (msg secret sig public : Bytes)
      → sign sha256 msg secret ≡ ok sig
      → derive_public sha256 secret ≡ ok public
      → verify sha256 msg sig public ≡ ok tt
  unfolding sign derive_public verify
  verify-sign msg secret sig public s d =
      let e : sig ≡ expected_sig_bytes sha256 public msg = ground arith in
      let same =
        (ct_eq_iff (expected_sig_bytes sha256 public msg) (expected_sig_bytes sha256 public msg)
            (expected_octets public msg) (expected_octets public msg) refl).1
          refl in
      rw (e, same)
