-- ===== src/Fedenv/Shift.antt =====
-- What the row hash of envelope/fedenv.rs does not fix.
use asolaria_os.Prelude.{
  not_iff, leb_iff, ◌≤◌, ◌≡◌, ◌≢◌, refl, ap, [], ◌∷◌, ◌++◌, Bytes, bytes, is_empty, length, any,
  Option, none, some, true, false, ok, err, arith,
}
use mathlib.Core.List.{append_assoc}
use asolaria_os.Fedenv.{reserved_slot, FedenvView, required, hashed_row, row_hash_ok, validate}
use asolaria_os.Fedenv.Contract.{validate-Passes}

abbrev pub shifted : FedenvView → Bytes → Bytes → FedenvView
shifted env a b = record env { verb = a; payload = b ++ env.payload }

append_assoc3 : (a b p t : Bytes) → a ++ (b ++ p ++ t) ≡ a ++ b ++ (p ++ t)
append_assoc3 a b p t = simp append_assoc refl

hashed_row-shifted :
    (env : FedenvView) (a b ts : Bytes)
    → env.verb ≡ a ++ b
    → hashed_row (shifted env a b) ts ≡ hashed_row env ts
hashed_row-shifted env a b ts e = rw e (
    ap (λ (u : Bytes). bytes "FEDENV|" ++ (env.caller_pid ++ u)) (append_assoc3 a b env.payload ts))

row_hash_ok-shifted :
    (sha256 : Bytes → Bytes) (env : FedenvView) (a b : Bytes) (ts : Option Bytes)
    → env.verb ≡ a ++ b
    → row_hash_ok sha256 env ts ≡ true
    → row_hash_ok sha256 (shifted env a b) ts ≡ true
unfolding row_hash_ok
row_hash_ok-shifted sha256 env a b none e h = refl
row_hash_ok-shifted sha256 env a b (some ts) e h = rw (hashed_row-shifted env a b ts e) h

is_empty-append : (b p : Bytes) → is_empty p ≡ false → is_empty (b ++ p) ≡ false
is_empty-append [] p h = h
is_empty-append (x ∷ b) p h = refl

present-shifted :
    (env : FedenvView) (a b : Bytes)
    → is_empty a ≡ false
    → any is_empty (required env) ≡ false
    → any is_empty (required (shifted env a b)) ≡ false
present-shifted env a b n h =
    let k : is_empty env.payload ≡ false = ground arith in
    ground (arith, is_empty-append b env.payload k)

-- The row hash does not fix where the verb ends: bytes moved from the end of the verb to the start
-- of the payload leave an accepted envelope accepted, with the same row hash, if a verb is left and
-- the payload still fits.
pub validate-shifted :
    (sha256 : Bytes → Bytes) (env : FedenvView) (a b : Bytes)
    → env.verb ≡ a ++ b
    → is_empty a ≡ false
    → length (b ++ env.payload) ≤ 65536
    → validate sha256 env ≡ ok tt
    → validate sha256 (shifted env a b) ≡ ok tt
validate-shifted sha256 env a b e n fits h =
    let (p1, p2, p3, p4, p5, p6, p7, p8, p9) = (validate-Passes sha256 env).0 h in
    (validate-Passes sha256 (shifted env a b)).1 (
      (not_iff _).1 (present-shifted env a b n ((not_iff _).0 p1)),
      p2,
      (leb_iff _ _).1 fits,
      p4,
      p5,
      p6,
      p7,
      p8,
      row_hash_ok-shifted sha256 env a b env.ts e p9,
    )

-- Validation never answers with the reserved slot.
validate_never_reserved :
    (sha256 : Bytes → Bytes) (env : FedenvView) → validate sha256 env ≢ err reserved_slot
unfolding validate
validate_never_reserved sha256 env h = ground (arith)
