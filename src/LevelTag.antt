-- ===== src/LevelTag.antt =====
-- kernel/core/src/level_tag/mod.rs: the access level of a row, from its path and its content. A text
-- is the list of its bytes.
pub mod Search
pub mod Levels
use asolaria_os.Prelude.{
  ℕ, zero, suc, ◌+◌, List, [], ◌∷◌, Bytes, bytes, length, any, is_empty, ltb, leb, ◌==◌, ◌&&◌, ◌||◌,
  Bool, true, false, if◌then◌else◌,
}

abbrev pub level_public : ℕ
level_public = 0

abbrev pub level_federation : ℕ
level_federation = 5

abbrev pub level_owner_private : ℕ
level_owner_private = 9

abbrev pub pii_path_fragments : List Bytes
pii_path_fragments =
    bytes "legal"
    ∷ bytes "evidence-package"
    ∷ bytes "evidence"
    ∷ bytes "google-support-refund"
    ∷ bytes "support-refund-complaints"
    ∷ bytes "refund-complaint"
    ∷ bytes "refund"
    ∷ bytes "bank"
    ∷ bytes "invoice"
    ∷ bytes "financial"
    ∷ bytes "paypal"
    ∷ bytes "zelle"
    ∷ bytes "passport"
    ∷ bytes "cnpj"
    ∷ bytes "cpf"
    ∷ bytes "whatsapp-rayssa"
    ∷ bytes "beast-keys"
    ∷ bytes "backup-keys"
    ∷ bytes "decrypted-vault"
    ∷ bytes "vault"
    ∷ bytes "charm_"
    ∷ bytes "private-key"
    ∷ bytes "privatekey"
    ∷ bytes "recall.key"
    ∷ bytes ".pem"
    ∷ bytes ".key"
    ∷ bytes ".pk8"
    ∷ bytes ".kdbx"
    ∷ bytes ".keystore"
    ∷ bytes ".jks"
    ∷ bytes "id_rsa"
    ∷ bytes "id_ed25519"
    ∷ bytes "wallet.dat"
    ∷ bytes "seed-phrase"
    ∷ bytes "seed_phrase"
    ∷ bytes "mnemonic"
    ∷ bytes "credential"
    ∷ bytes "secret"
    ∷ bytes "password"
    ∷ bytes "passwd"
    ∷ bytes ".asolaria"
    ∷ bytes "dcim"
    ∷ bytes "sdcard"
    ∷ bytes "falcon-dump"
    ∷ bytes "phone-dump"
    ∷ []

abbrev pub pii_content_fragments : List Bytes
pii_content_fragments =
    bytes "cnpj"
    ∷ bytes "cpf "
    ∷ bytes "paypal"
    ∷ bytes "zelle"
    ∷ bytes "refund complaint"
    ∷ bytes "customer care"
    ∷ bytes "passport no"
    ∷ bytes "invoice #"
    ∷ []

abbrev pub public_canon_fragments : List Bytes
public_canon_fragments =
    bytes "asolaria-multi-cylinder"
    ∷ bytes "scientific-voxel-atlas"
    ∷ bytes "asolaria-real-model"
    ∷ bytes "agentterms-os-dashboard"
    ∷ bytes "asolaria-map-index"
    ∷ bytes "archaeology-and-significance-canon"
    ∷ bytes "brown-hilbert"
    ∷ bytes "what-is-asolaria"
    ∷ bytes "algorithms-of-asolaria"
    ∷ bytes "session-update"
    ∷ bytes "readme"
    ∷ []

unfoldable pub ascii_lower : ℕ → ℕ
ascii_lower b = if leb 65 b && leb b 90 then b + 32 else b

-- The inner loop of `contains_ci`, from one place of the haystack.
unfoldable pub prefix_ci : Bytes → Bytes → Bool
prefix_ci s [] = true
prefix_ci [] (n ∷ needle) = false
prefix_ci (c ∷ s) (n ∷ needle) = ascii_lower c == n && prefix_ci s needle

-- The outer loop, over the places of the haystack; past the last place for the whole needle the
-- inner loop runs out of haystack.
unfoldable pub windows_ci : Bytes → Bytes → Bool
unfolding prefix_ci
windows_ci [] needle = false
windows_ci (c ∷ s) needle = prefix_ci (c ∷ s) needle || windows_ci s needle

unfoldable pub contains_ci : Bytes → Bytes → Bool
unfolding windows_ci
contains_ci haystack needle_lower =
    if is_empty needle_lower || ltb (length haystack) (length needle_lower)
    then false
    else windows_ci haystack needle_lower

abbrev pub is_ascii_digit : ℕ → Bool
is_ascii_digit b = leb 48 b && leb b 57

-- The loop of `has_digit_run`.
unfoldable pub digit_run : ℕ → Bytes → ℕ → Bool
digit_run run [] min_len = false
digit_run run (b ∷ s) min_len =
    let longer = digit_run (run + 1) s min_len in
    let afresh = digit_run 0 s min_len in
    if is_ascii_digit b then if leb min_len (run + 1) then true else longer else afresh

unfoldable pub has_digit_run : Bytes → ℕ → Bool
unfolding digit_run
has_digit_run s min_len = digit_run 0 s min_len

unfoldable pub is_pii : Bytes → Bytes → Bool
unfolding contains_ci has_digit_run
is_pii path content =
    any (contains_ci path) pii_path_fragments
    || has_digit_run content 14
    || any (contains_ci content) pii_content_fragments

unfoldable pub is_public_canon : Bytes → Bool
unfolding contains_ci
is_public_canon path = any (contains_ci path) public_canon_fragments

unfoldable pub assign_level : Bytes → Bytes → ℕ
unfolding is_pii is_public_canon
assign_level path content =
    if is_pii path content
    then level_owner_private
    else if is_public_canon path
    then level_public
    else level_federation
