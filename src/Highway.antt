-- ===== src/Highway.antt =====
-- kernel/core/src/tier/mod.rs (the policy table), kernel/core/src/highway/mod.rs and
-- kernel/core/src/transit/mod.rs: the check of a move between tiers and its executor. The atomic
-- `NEXT_TRANSIT_ID` is the argument `next_id`.
pub mod Moves
use asolaria_os.Prelude.{
  ℕ, ◌+◌, Bytes, bytes, ltb, not, Bool, true, false, if◌then◌else◌, Option, none, some, Result, ok,
  err, u64,
}
use asolaria_os.Access.{
  AccessTier, public_tier, restricted, stealth, hidden, shadow, secret, sovereignty, tier_eq,
}

pub data EnumerationPolicy : Type 0 where
  paths_and_metadata_allowed hashes_and_summaries_only : EnumerationPolicy
  redacted_path_hash_only fully_redacted_metadata_only : EnumerationPolicy
  hashes_retention_windows_only sealed_reference_only : EnumerationPolicy

pub data AuthorityRequirement : Type 0 where
  any_agent_read operator_or_quintet_cosign operator_witness_required : AuthorityRequirement
  operator_only admin_plus_sovereignty : AuthorityRequirement

pub record TierPolicy : Type 0 where
  pub tier : AccessTier
  pub enumeration : EnumerationPolicy
  pub authority : AuthorityRequirement

abbrev pub policy : AccessTier → EnumerationPolicy → AuthorityRequirement → TierPolicy
policy tier enumeration authority = record {
  tier = tier;
  enumeration = enumeration;
  authority = authority;
}

-- The row of the policy table for a tier.
unfoldable pub policy_for : AccessTier → TierPolicy
policy_for public_tier = policy public_tier paths_and_metadata_allowed any_agent_read
policy_for restricted = policy restricted hashes_and_summaries_only operator_or_quintet_cosign
policy_for stealth = policy stealth redacted_path_hash_only operator_witness_required
policy_for hidden = policy hidden fully_redacted_metadata_only operator_only
policy_for shadow = policy shadow hashes_retention_windows_only admin_plus_sovereignty
policy_for secret = policy secret sealed_reference_only operator_witness_required
policy_for sovereignty = policy sovereignty sealed_reference_only admin_plus_sovereignty

unfoldable pub quintuple_auth_covers : AccessTier → Bool
quintuple_auth_covers tier = true

pub data HighwayErr : Type 0 where
  same_tier transit_forbidden not_in_quintuple_auth_window cosign_failure : HighwayErr
  unimplemented_transit : HighwayErr

pub record TransitVerdict : Type 0 where
  pub from : AccessTier
  pub to : AccessTier
  pub authorized : Bool
  pub deny_reason : Option Bytes
  pub cosign_row : Option ℕ

unfoldable pub check_transit : AccessTier → AccessTier → Result HighwayErr TransitVerdict
unfolding quintuple_auth_covers tier_eq
check_transit from to =
    if tier_eq from to
    then err same_tier
    else if not (quintuple_auth_covers to)
    then ok record {
      from = from;
      to = to;
      authorized = false;
      deny_reason = some (bytes "destination tier not in current quintuple-auth window");
      cosign_row = none;
    }
    else ok
        record { from = from; to = to; authorized = true; deny_reason = none; cosign_row = none }

abbrev pub max_transit_envelope_bytes : ℕ
max_transit_envelope_bytes = 65536

pub record TransitRequest : Type 0 where
  pub from_tier : AccessTier
  pub to_tier : AccessTier
  pub envelope_size : ℕ

pub data TransitErr : Type 0 where
  tier_mismatch oversized_payload quintuple_auth_required chain_append_failed : TransitErr

-- The `match` on the tier gate.
unfoldable pub admitted : Result HighwayErr TransitVerdict → Result TransitErr (Unit {0})
admitted (err same_tier) = err tier_mismatch
admitted (err e) = err chain_append_failed
admitted (ok verdict) = if verdict.authorized then ok tt else err quintuple_auth_required

unfoldable pub execute : TransitRequest → ℕ → Result TransitErr ℕ × ℕ
unfolding check_transit admitted
execute req next_id =
    if ltb max_transit_envelope_bytes req.envelope_size
    then (err oversized_payload, next_id)
    else elim (admitted (check_transit req.from_tier req.to_tier)) [
      | err e ↦ (err e, next_id)
      | ok u ↦ (ok next_id, u64 (next_id + 1))
    ]
