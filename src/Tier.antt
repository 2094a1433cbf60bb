-- ===== src/Tier.antt =====
-- kernel/core/src/tier/mod.rs: the classification of a path into an access tier, by what it
-- contains. `str::to_lowercase` is the parameter `to_lowercase`.
use asolaria_os.Prelude.{
  [], ◌∷◌, Bytes, bytes, starts_with, contains, is_empty, ◌||◌, if◌then◌else◌, Result, ok, err,
}
use asolaria_os.Access.{AccessTier, public_tier, restricted, stealth, hidden, shadow, secret}

pub data TierClassifierErr : Type 0 where
  path_malformed unclassified_default : TierClassifierErr

-- On the path in lower case.
unfoldable pub classify_lower : Bytes → AccessTier
classify_lower lower =
    if contains lower (bytes "_big-pickle-quarantine")
    then hidden
    else if contains lower (bytes "sovlinux")
    then shadow
    else if starts_with lower (bytes "vault/secret/") || contains lower (bytes "/vault/secret/")
    then secret
    else if contains lower (bytes "stealth/")
    then stealth
    else if contains lower (bytes "restricted/")
    then restricted
    else public_tier

unfoldable pub classify_path : (Bytes → Bytes) → Bytes → Result TierClassifierErr AccessTier
classify_path to_lowercase path =
    if is_empty path || contains path (0 ∷ [])
    then err path_malformed
    else ok (classify_lower (to_lowercase path))
