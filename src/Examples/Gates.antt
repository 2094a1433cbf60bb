-- ===== src/Examples/Gates.antt =====
-- The gates, signatures and rows at concrete inputs.
use asolaria_os.Prelude.{
  ℕ, zero, suc, ◌<◌, ◌≡◌, ◌≢◌, ◌↔◌, ◌⊎◌, refl, [], ◌∷◌, ◌++◌, Bytes, bytes, replicate, All, any,
  true, arith, be_bytes, ok,
}
use asolaria_os.Access.{hidden}
use asolaria_os.Crypto.{expected_sig_bytes, verify}
use asolaria_os.Crypto.Signatures.{IsBytes, IsDigest, verify_iff}
use asolaria_os.SignGate.{default_denies, task_39_envvar_virus_allow, gate_envelope}
use asolaria_os.SignGate.Admission.{Clean, gate_envelope_admits}
use asolaria_os.Hookwall.{HookContext, micro, firmware}
use asolaria_os.SpawnGate.{SpawnGateInput}

-- A digest in form.
abbrev digest : Bytes → Bytes
digest message = replicate 32 7

All_same : (n b : ℕ) → b < 256 → IsBytes (replicate n b)
All_same zero b h = tt
All_same (suc n) b h = (h, All_same n b h)

digest-IsDigest : IsDigest digest
digest-IsDigest = record { size = λ m. refl; octets = λ m. All_same 32 7 (omega arith) }

abbrev key : Bytes
key = bytes "key"

abbrev text : Bytes
text = bytes "text"

verify_iff_example :
    (verify digest text (replicate 64 7) key ≡ ok tt)
    ↔ (replicate 64 7 ≡ expected_sig_bytes digest key text)
verify_iff_example =
    verify_iff digest digest-IsDigest text (replicate 64 7) key (All_same 64 7 (omega arith)) refl

abbrev tag : Bytes
tag = bytes "EVT"

abbrev canonical : Bytes
canonical =
    be_bytes 8 1
    ++ (b'|'
        ∷ (be_bytes 8 2
            ++ (b'|'
                ∷ (tag
                    ++ (b'|'
                        ∷ (tag ++ (b'|' ∷ (tag ++ (b'|' ∷ (be_bytes 8 3 ++ (b'|' ∷ text)))))))))))

gate_envelope_admits_example :
    let v = gate_envelope digest text (replicate 64 7) key (bytes "ed25519") (tag ∷ []) [] in
    ((v.admitted ≡ true) ↔ (
      (text ≢ [])
      × (bytes "ed25519" ≡ bytes "ed25519")
      × (verify digest text (replicate 64 7) key ≡ ok tt)
      × (All (Clean default_denies) (tag ∷ []) ⊎ (any task_39_envvar_virus_allow [] ≡ true))))
    × (v.allow_rescued ≡ true → All (Clean default_denies) (tag ∷ []) → ⊥)
gate_envelope_admits_example =
    gate_envelope_admits digest text (replicate 64 7) key (bytes "ed25519") (tag ∷ []) []

abbrev context : HookContext
context = record {
  slot = 3;
  syscall_no = 9;
  caller_pid = 77;
  tier = firmware;
  target_tier = hidden;
}

abbrev spawn : SpawnGateInput
spawn = record {
  slot = 3;
  syscall_no = 4;
  caller_pid = 77;
  tier = micro;
  target_tier = hidden;
  event_tags = tag ∷ [];
  forward_score_q = 719;
  reverse_risk_q = 100;
}
