-- ===== src/Surface/Identity.antt =====
-- The name of a seat in surface/src/main.rs.
use asolaria_os.Prelude.{
  ◌≡◌, refl, ◌⊎◌, inl, inr, Bytes, is_empty, Bool-cases, false, Option, none, some,
}
use asolaria_os.Surface.{nonblank, from_file, resolve_ident}

module _ (trim : Bytes → Bytes) (read_file : Bytes → Option Bytes) where
  -- A text is the fallback, or is trimmed and not empty.
  abbrev IsIdent : Bytes → Bytes → Type 0
  IsIdent fallback s =
      (s ≡ fallback) ⊎ ((text : Bytes) × (s ≡ trim text) × (is_empty (trim text) ≡ false))

  nonblank-IsIdent :
      (found : Option Bytes) (fallback otherwise : Bytes)
      → IsIdent fallback otherwise
      → IsIdent fallback (nonblank trim read_file found otherwise)
  unfolding nonblank
  nonblank-IsIdent none fallback otherwise h = h
  nonblank-IsIdent (some s) fallback otherwise h = elim (Bool-cases (is_empty (trim s))) [
    | inl blank ↦ rw blank h
    | inr named ↦ rw named (inr (s, refl, named))
  ]

  from_file-IsIdent :
      (home : Option Bytes) (file fallback : Bytes)
      → IsIdent fallback (from_file trim read_file home file fallback)
  unfolding from_file
  from_file-IsIdent none file fallback = inl refl
  from_file-IsIdent (some home) file fallback = elim (Bool-cases (is_empty home)) [
    | inl blank ↦ rw blank (inl refl)
    | inr named ↦ rw named (nonblank-IsIdent _ fallback fallback (inl refl))
  ]

  -- The name of a seat is the fallback, or is a trimmed text that is not empty.
  resolve_ident-IsIdent :
      (env_value home : Option Bytes) (file fallback : Bytes)
      → IsIdent fallback (resolve_ident trim read_file env_value home file fallback)
  unfolding resolve_ident
  resolve_ident-IsIdent env_value home file fallback =
      nonblank-IsIdent env_value fallback _ (from_file-IsIdent home file fallback)
