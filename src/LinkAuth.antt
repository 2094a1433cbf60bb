-- ===== src/LinkAuth.antt =====
-- kernel/core/src/link_auth/mod.rs: the consent gate for a link from another host. SHA-256 (the
-- sha2 crate) is the parameter `sha256`.
pub mod Gate
use asolaria_os.Prelude.{
  hex_digit, ℕ, ◌+◌, ◌-◌, ◌/◌, ◌%◌, List, [], ◌∷◌, ◌++◌, Bytes, bytes, same, length, replicate,
  get_or, map, any, be_bytes, bit_xor, is_empty, ltb, leb, ◌==◌, not, ◌||◌, if◌then◌else◌, Bool,
  true, false, Option, none, some,
}
use asolaria_os.Room.Writer.{concat}

abbrev pub hmac_block : ℕ
hmac_block = 64

-- The key, hashed if it is long, in a block of zeros.
unfoldable pub key_block : (Bytes → Bytes) → Bytes → Bytes
key_block sha256 key =
    let short = if ltb hmac_block (length key) then sha256 key else key in
    short ++ replicate (hmac_block - length short) 0

unfoldable pub hmac_sha256_parts : (Bytes → Bytes) → Bytes → List Bytes → Bytes
unfolding key_block
hmac_sha256_parts sha256 key parts =
    let k0 = key_block sha256 key in
    let inner_digest = sha256 (map (λ b. bit_xor b 0x36) k0 ++ concat parts) in
    sha256 (map (λ b. bit_xor b 0x5c) k0 ++ inner_digest)

pub record LinkRequest : Type 0 where
  pub owner_pid : Bytes
  pub host : Bytes
  pub verb : Bytes
  pub nonce : Bytes
  pub ts_unix_s : ℕ
  pub hmac_hex : Bytes

pub data LinkVerdict : Type 0 where
  allowed deny_bad_hmac deny_owner_not_granted deny_stale deny_malformed : LinkVerdict

-- The loop of `hmac_hex_matches`, two digits for each byte.
unfoldable pub pairs_match : Bool → Bytes → Bytes → Bool
pairs_match equal [] text = equal
pairs_match equal (b ∷ mac) [] = false
pairs_match equal (b ∷ mac) (h ∷ []) = false
pairs_match equal (b ∷ mac) (h ∷ l ∷ text) =
    pairs_match
      (if not (h == hex_digit (b / 16)) || not (l == hex_digit (b % 16)) then false else equal) mac
      text

unfoldable pub hmac_hex_matches : Bytes → Bytes → Bool
hmac_hex_matches mac expected_hex =
    if not (length expected_hex == 64) then false else pairs_match true mac expected_hex

unfoldable pub signed_parts : LinkRequest → List Bytes
signed_parts req =
    bytes "LINK|"
    ∷ req.owner_pid
    ∷ bytes "|"
    ∷ req.host
    ∷ bytes "|"
    ∷ req.verb
    ∷ bytes "|"
    ∷ req.nonce
    ∷ bytes "|"
    ∷ be_bytes 8 req.ts_unix_s
    ∷ []

abbrev pub clock_diff : ℕ → ℕ → ℕ
clock_diff now_unix_s ts_unix_s =
    if leb ts_unix_s now_unix_s then now_unix_s - ts_unix_s else ts_unix_s - now_unix_s

unfoldable pub verify_link :
    (Bytes → Bytes) → LinkRequest → Bytes → List Bytes → ℕ → ℕ → LinkVerdict
verify_link sha256 req shared_key granted_owner_pids now_unix_s max_skew_s =
    if is_empty req.owner_pid
      || (is_empty req.host
          || (is_empty req.verb || (is_empty req.nonce || not (length req.hmac_hex == 64))))
    then deny_malformed
    else if ltb max_skew_s (clock_diff now_unix_s req.ts_unix_s)
    then deny_stale
    else if not (any (λ g. same g req.owner_pid) granted_owner_pids)
    then deny_owner_not_granted
    else if hmac_hex_matches (hmac_sha256_parts sha256 shared_key (signed_parts req)) req.hmac_hex
    then allowed
    else deny_bad_hmac

pub record LinkGrant : Type 0 where
  pub owner_pid : Bytes
  pub max_level : ℕ

abbrev better : Option ℕ → ℕ → ℕ
better none level = level
better (some b) level = if leb level b then b else level

-- The loop of `granted_level`, with the best level so far.
unfoldable pub granted_from : Option ℕ → Bytes → List LinkGrant → Option ℕ
granted_from best owner_pid [] = best
granted_from best owner_pid (g ∷ grants) =
    granted_from (if same g.owner_pid owner_pid then some (better best g.max_level) else best)
      owner_pid grants

unfoldable pub granted_level : Bytes → List LinkGrant → Option ℕ
granted_level owner_pid grants = granted_from none owner_pid grants

abbrev pub capped : ℕ → Option ℕ → Option ℕ
capped requested none = none
capped requested (some g) = some (if ltb requested g then requested else g)

unfoldable pub effective_level : Bytes → ℕ → List LinkGrant → Option ℕ
effective_level owner_pid requested_level grants =
    capped requested_level (granted_level owner_pid grants)
