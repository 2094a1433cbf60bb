-- ===== src/Examples/Links.antt =====
-- The consent gate at concrete inputs.
use asolaria_os.Prelude.{
  hex_text, ◌+◌, ◌≤◌, ◌≡◌, ◌≢◌, ◌↔◌, refl, ap, get_or, List, [], ◌∷◌, Bytes, bytes, replicate, same,
  length, any, true, arith,
}
use asolaria_os.LinkAuth.{
  LinkRequest, LinkGrant, allowed, verify_link, hmac_sha256_parts, signed_parts, effective_level,
  granted_level, granted_from,
}
use asolaria_os.LinkAuth.Gate.{verify_link_iff, effective_level_bounded}

abbrev digest : Bytes → Bytes
digest message = replicate 32 7

abbrev request : LinkRequest
request = record {
  owner_pid = bytes "OP-RAYSSA";
  host = bytes "liris";
  verb = bytes "search";
  nonce = bytes "n1";
  ts_unix_s = 1000;
  hmac_hex = hex_text (replicate 32 7);
}

verify_link_iff_example :
    (verify_link digest request (bytes "key") (bytes "OP-RAYSSA" ∷ []) 1010 30 ≡ allowed) ↔ (
      (request.owner_pid ≢ [])
      × (request.host ≢ [])
      × (request.verb ≢ [])
      × (request.nonce ≢ [])
      × (1010 ≤ 1000 + 30)
      × (1000 ≤ 1010 + 30)
      × (any (λ g. same g request.owner_pid) (bytes "OP-RAYSSA" ∷ []) ≡ true)
      × (length request.hmac_hex ≡ 64)
      × (request.hmac_hex
          ≡ hex_text (hmac_sha256_parts digest (bytes "key") (signed_parts request))))
verify_link_iff_example =
    verify_link_iff digest request (bytes "key") (bytes "OP-RAYSSA" ∷ []) 1010 30 (λ m. refl)

abbrev grants : List LinkGrant
grants =
    record { owner_pid = bytes "a"; max_level = 2 }
    ∷ record { owner_pid = bytes "b"; max_level = 9 }
    ∷ []

effective_level_bounded_example :
    (2 ≤ 5) × (2 ≤ 2) × (any (λ g. same g.owner_pid (bytes "a")) grants ≡ true)
unfolding effective_level granted_level granted_from same
effective_level_bounded_example =
    effective_level_bounded grants (bytes "a") 5 2 2 refl
      ((λ e. omega arith), (λ e. absurd (omega (arith, ap (λ xs. get_or xs 0 0) e)), tt))
