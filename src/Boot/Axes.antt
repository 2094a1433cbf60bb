-- ===== src/Boot/Axes.antt =====
-- The selector axes of boot_identity.rs and the boot stages of boot_diag.rs.
use asolaria_os.Prelude.{
  ℕ, zero, suc, ◌/◌, ◌≤◌, ◌<◌, ◌≡◌, ◌↔◌, refl, List, [], ◌∷◌, ◌++◌, Bytes, bytes, is_empty, decimal,
  none, some, true, false, arith,
}
use Prim.Native.Nat.{bit_and, bit_and-bitwise}
use asolaria_os.Boot.Status.{
  disabled, firmware_efi, BootObservations, metal_ready, by_policy, classify_boot_stage,
  has_direct_framebuffer,
}
use asolaria_os.Boot.Identity.{
  BootIdentity, identity_seed, axis_of_seed, selector_axis_u10, axis_parts, identity_head,
  identity_parts,
}

and_le : (n a b : ℕ) → Prim.Native.Nat.digits (λ b. 0) Prim.Native.Nat.min n a b ≤ b
and_le zero a b = omega arith
and_le (suc n) zero b = omega arith
and_le (suc n) (suc a) b = omega (arith, and_le n (suc a / 2) (b / 2))

bit_and_le : (a b : ℕ) → bit_and a b ≤ b
bit_and_le a b = rw (bit_and-bitwise a b) (and_le a a b)

selector_lem :
    (identity : BootIdentity) (index : ℕ)
    → is_empty (identity_seed identity) ≡ false
    → selector_axis_u10 identity index ≡ some (axis_of_seed (identity_seed identity) index)
unfolding selector_axis_u10
selector_lem identity index h = rw h refl

axis_parts-total :
    (identity : BootIdentity) (i n : ℕ)
    → is_empty (identity_seed identity) ≡ false
    → (parts : List Bytes) × (axis_parts identity i n ≡ some parts)
unfolding axis_parts
axis_parts-total identity i zero h = ([], refl)
axis_parts-total identity zero (suc n) h =
    let (rest, e) = axis_parts-total identity 1 n h in
    (
      decimal (axis_of_seed (identity_seed identity) 0) ∷ rest,
      rw (selector_lem identity 0 h, e) refl,
    )
axis_parts-total identity (suc i) (suc n) h =
    let (rest, e) = axis_parts-total identity (suc (suc i)) n h in
    (
      bytes "," ∷ decimal (axis_of_seed (identity_seed identity) (suc i)) ∷ rest,
      rw (selector_lem identity (suc i) h, e) refl,
    )

le_lt : (x : ℕ) → x ≤ 1023 → x < 1024
le_lt x h = omega (arith, h)

axis_of_seed_bound : (seed : Bytes) (index : ℕ) → axis_of_seed seed index < 1024
unfolding axis_of_seed
axis_of_seed_bound seed index = le_lt _ (bit_and_le _ 1023)

-- With a seat or a device the axes never fail: the parts of the identity line exist, and every axis is
-- below 1024; with neither every axis fails.
selector_axis_u10_total :
    (identity : BootIdentity) (index : ℕ)
    → (is_empty (identity_seed identity) ≡ false
        → ((axis : ℕ) × (selector_axis_u10 identity index ≡ some axis) × (axis < 1024))
          × ((parts : List Bytes) × (identity_parts identity ≡ some parts)))
      × (is_empty (identity_seed identity) ≡ true → selector_axis_u10 identity index ≡ none)
unfolding identity_parts selector_axis_u10
selector_axis_u10_total identity index = (
  λ h.
      let (axes, e) = axis_parts-total identity 0 identity.tuple_dim h in
      (
        (
          axis_of_seed (identity_seed identity) index,
          selector_lem identity index h,
          axis_of_seed_bound (identity_seed identity) index,
        ),
        (identity_head identity ++ axes, rw e refl),
      ),
  λ h. rw h refl,
)

-- The loader calls a machine ready for its own drivers exactly if the system table and a complete
-- direct framebuffer were observed, it was started by the firmware, and Secure Boot is off.
metal_ready_iff :
    (o : BootObservations)
    → (classify_boot_stage o ≡ metal_ready) ↔ (
        (o.uefi_system_table_present ≡ true)
        × (has_direct_framebuffer o ≡ true)
        × (o.loader_path ≡ firmware_efi)
        × (o.secure_boot ≡ disabled))
unfolding classify_boot_stage by_policy
metal_ready_iff o = ground arith
