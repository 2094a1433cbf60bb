-- ===== src/Pid/Blocks.antt =====
-- The blocks between the dashes of a process identifier (pid/mod.rs).
use asolaria_os.Prelude.{
  ℕ, ◌≡◌, ◌≢◌, ◌↔◌, refl, ap, inl, inr, [], ◌∷◌, ◌++◌, All, Bytes, bytes, length, all, Bool-cases,
  true, false, Result, ok, err, ◌>>=◌, arith,
}
use asolaria_os.Pid.{
  marker, is_ascii_digit, is_ascii_hexdigit, is_valid_region, is_valid_hex_n, is_valid_host_code,
  PidErr, region_host, block, mint_pid,
}

pub hexdigit-ne : (b : ℕ) → is_ascii_hexdigit b ≡ true → (b ≢ b'-') × (b ≢ b'I')
hexdigit-ne b h = (ground arith, ground arith)

pub hex_dashless : (s : Bytes) → all is_ascii_hexdigit s ≡ true → All (λ b. b ≢ b'-') s
hex_dashless [] h = tt
hex_dashless (b ∷ s) h = elim (Bool-cases (is_ascii_hexdigit b)) [
  | inl yes_ ↦ ((hexdigit-ne b yes_).0, hex_dashless s (rw yes_ at h))
  | inr no_ ↦ cc (rw no_ at h)
]

pub hex_n_iff :
    (s : Bytes) (n : ℕ)
    → (is_valid_hex_n s n ≡ true) ↔ ((length s ≡ n) × (all is_ascii_hexdigit s ≡ true))
unfolding is_valid_hex_n
hex_n_iff s n = ground arith

-- A block is its letter and its digits.
pub block_iff :
    (letter n : ℕ) (e : PidErr) (b digits : Bytes)
    → (block letter n e b ≡ ok digits) ↔ ((b ≡ letter ∷ digits) × (is_valid_hex_n digits n ≡ true))
unfolding block
block_iff letter n e [] digits = (λ h. cc, λ h. cc)
block_iff letter n e (c ∷ b) digits = ground arith

pub region_host_iff :
    (b host : Bytes) (region : ℕ)
    → (region_host b ≡ ok (region, host))
      ↔ ((b ≡ region ∷ host) × (is_valid_region region ≡ true) × (is_valid_host_code host ≡ true))
unfolding region_host
region_host_iff [] host region = (λ h. cc, λ h. cc)
region_host_iff (c ∷ b) host region = ground arith

pub mint_pid_iff :
    (role host activity wave pid : Bytes) (region : ℕ)
    → (mint_pid role region host activity wave ≡ ok pid) ↔ (
        (is_valid_region region ≡ true)
        × (is_valid_host_code host ≡ true)
        × (is_valid_hex_n activity 2 ≡ true)
        × (is_valid_hex_n wave 3 ≡ true)
        × (role ++ (marker ++ (region ∷ host ++ (bytes "-A" ++ (activity ++ (bytes "-W" ++ wave)))))
            ≡ pid))
unfolding mint_pid
mint_pid_iff role host activity wave pid region = ground arith

pub bind_ok :
    {E A B : Type 0} (m : Result E A) (f : A → Result E B) (b : B)
    → (m >>= f) ≡ ok b
    → (a : A) × (m ≡ ok a) × (f a ≡ ok b)
bind_ok (ok a) f b h = (a, refl, h)
bind_ok (err e) f b h = cc

pub region-ne :
    (c : ℕ) → is_valid_region c ≡ true → (c ≢ b'P') × (c ≢ b'-') × (is_ascii_digit c ≡ false)
unfolding is_valid_region
region-ne c h = (ground arith, ground arith, ground arith)

abbrev pub Fields : ℕ → Bytes → Bytes → Bytes → Type 0
Fields region host activity wave =
    (is_valid_region region ≡ true)
    × (is_valid_host_code host ≡ true)
    × (is_valid_hex_n activity 2 ≡ true)
    × (is_valid_hex_n wave 3 ≡ true)

-- The text after the marker, before what follows the wave.
abbrev pub place : ℕ → Bytes → Bytes → Bytes → Bytes → Bytes
place region host activity wave rest =
    region ∷ host ++ (b'-' ∷ b'A' ∷ activity ++ (b'-' ∷ b'W' ∷ wave ++ rest))

abbrev pub suffix : Bytes → Bytes → Bytes
suffix process_tag nonce = b'-' ∷ b'P' ∷ process_tag ++ (b'-' ∷ b'N' ∷ nonce)

pub hex_n_dashless : (s : Bytes) (n : ℕ) → is_valid_hex_n s n ≡ true → All (λ b. b ≢ b'-') s
hex_n_dashless s n h = hex_dashless s ((hex_n_iff s n).0 h).1

pub host_dashless : (s : Bytes) → is_valid_host_code s ≡ true → All (λ b. b ≢ b'-') s
unfolding is_valid_host_code
host_dashless s h = hex_dashless s (ground arith)

pub append_nil : (s : Bytes) → s ++ [] ≡ s
append_nil [] = refl
append_nil (c ∷ s) = ap (◌∷◌ c) (append_nil s)
