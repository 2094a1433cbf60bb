-- ===== src/Boot/Lines.antt =====
-- What the two renderers of the boot lines leave in the buffer and return.
use asolaria_os.Prelude.{
  ℕ, zero, suc, ◌+◌, ◌-◌, ◌≤◌, ◌≡◌, refl, ap, ◌∙◌, sym, inl, inr, List, [], ◌∷◌, ◌++◌, Bytes,
  length, length-append, take, drop, Option, some, Bool-cases, ◌==◌, ==_iff, true, false, leb, ltb,
  if◌then◌else◌, Result, ok, err, arith, u64_max, min,
}
use mathlib.Core.List.{append_assoc}
use asolaria_os.Boot.Writer.{
  RenderError, buffer_too_small, LineWriter, count_only, with_buffer, saturating_add, min_usize,
  overwrite, copied, push_bytes, finish, push_all,
}
use asolaria_os.Boot.Status.{BootObservations, status_parts, status_line_len, render_status_line}
use asolaria_os.Boot.Identity.{
  BootIdentity, identity_parts, boot_identity_line_len, render_boot_identity_line,
}

-- A buffer with a line over its first bytes, as far as it fits.
abbrev pub image : Bytes → Bytes → Bytes
image [] line = []
image (o ∷ out) [] = o ∷ out
image (o ∷ out) (l ∷ line) = l ∷ image out line

-- The parts of a line one after the other.
abbrev pub concat : List Bytes → Bytes
concat [] = []
concat (p ∷ ps) = p ++ concat ps

length-image : (out line : Bytes) → length (image out line) ≡ length out
length-image [] line = refl
length-image (o ∷ out) [] = refl
length-image (o ∷ out) (l ∷ line) = ap suc (length-image out line)

image_nil : (out : Bytes) → image out [] ≡ out
image_nil [] = refl
image_nil (o ∷ out) = refl

-- Writing at the start.
image-start :
    (out v : Bytes) (t : ℕ)
    → t ≡ min (length out) (length v)
    → take t v ++ drop (length (take t v)) out ≡ image out v
image-start [] v zero h = refl
image-start [] v (suc t) h = absurd (omega (arith, h))
image-start (o ∷ out) [] zero h = refl
image-start (o ∷ out) [] (suc t) h = absurd (omega (arith, h))
image-start (o ∷ out) (x ∷ v) zero h = absurd (omega (arith, h))
image-start (o ∷ out) (x ∷ v) (suc t) h = ap (◌∷◌ x) (image-start out v t (omega (arith, h)))

-- Writing after the line written so far.
image-append :
    (out line v : Bytes) (w t : ℕ)
    → w ≡ min (length line) (length out)
    → t ≡ min (length out - w) (length v)
    → overwrite (image out line) w (take t v) ≡ image out (line ++ v)
image-append [] line v zero zero h k = refl
image-append [] line v (suc w) t h k = absurd (omega (arith, h))
image-append [] line v zero (suc t) h k = absurd (omega (arith, k))
image-append (o ∷ out) [] v (suc w) t h k = absurd (omega (arith, h))
image-append (o ∷ out) [] v zero t h k =
    let z : 0 + length (take t v) ≡ length (take t v) = omega arith in
    rw z (image-start (o ∷ out) v t (omega (arith, k)))
image-append (o ∷ out) (l ∷ line) v zero t h k = absurd (omega (arith, h))
image-append (o ∷ out) (l ∷ line) v (suc w) t h k =
    let z : suc w + length (take t v) ≡ suc (w + length (take t v)) = omega arith in
    rw z (ap (◌∷◌ l) (image-append out line v w t (omega (arith, h)) (omega (arith, k))))

image_full :
    (out line v : Bytes)
    → min (length out - min (length line) (length out)) (length v) ≡ 0
    → image out (line ++ v) ≡ image out line
image_full [] line v h = refl
image_full (o ∷ out) [] [] h = refl
image_full (o ∷ out) [] (x ∷ v) h = absurd (omega (arith, h))
image_full (o ∷ out) (l ∷ line) v h = ap (◌∷◌ l) (image_full out line v (omega (arith, h)))

-- The writer after the bytes of `line`.
pub record IsAt (out line : Bytes) (w : LineWriter) : Type 0 where
  pub buffer : w.buffer ≡ some (image out line)
  pub required : w.required ≡ min (length line) u64_max
  pub written : w.written ≡ min (length line) (length out)

min_usize_lem : (a b : ℕ) → min_usize a b ≡ min a b
min_usize_lem a b = ground arith

copied_lem :
    (out line v : Bytes) (w : ℕ)
    → w ≡ min (length line) (length out)
    → copied (some (image out line)) w v
      ≡ (some (image out (line ++ v)), min (length (line ++ v)) (length out))
unfolding copied
copied_lem out line v w h =
    let n : min_usize (length (image out line) - w) (length v) ≡ min (length out - w) (length v) =
      rw (length-image out line) (min_usize_lem (length out - w) (length v)) in
    let len = length-append line v in
    elim (Bool-cases (min (length out - w) (length v) == 0)) [
      | inl full ↦
          let zero_ : min (length out - w) (length v) ≡ 0 = (==_iff _ _).0 full in
          let same_ : image out (line ++ v) ≡ image out line =
            image_full out line v (rw h at zero_) in
          let still : min (length (line ++ v)) (length out) ≡ w = omega (arith, len, h, zero_) in
          rw (n, full, same_, still) refl
      | inr room ↦
          let more : w + min (length out - w) (length v) ≡ min (length (line ++ v)) (length out) =
            omega (arith, len, h) in
          rw (n, room, image-append out line v w (min (length out - w) (length v)) h refl, more)
            refl
    ]

push_bytes-IsAt :
    (out line v : Bytes) (w : LineWriter) → IsAt out line w → IsAt out (line ++ v) (push_bytes v w)
unfolding push_bytes saturating_add
push_bytes-IsAt out line v w i =
    let c : copied w.buffer w.written v
        ≡ (some (image out (line ++ v)), min (length (line ++ v)) (length out)) =
      rw i.buffer (copied_lem out line v w.written i.written) in
    record {
      buffer = ap (λ (p : Option Bytes × ℕ). p.0) c;
      required = omega (arith, i.required, length-append line v);
      written = ap (λ (p : Option Bytes × ℕ). p.1) c;
    }

append_nil : (s : Bytes) → s ++ [] ≡ s
append_nil [] = refl
append_nil (c ∷ s) = ap (◌∷◌ c) (append_nil s)

push_all-IsAt :
    (out line : Bytes) (ps : List Bytes) (w : LineWriter)
    → IsAt out line w
    → IsAt out (line ++ concat ps) (push_all ps w)
unfolding push_all
push_all-IsAt out line [] w i = rw (append_nil line) i
push_all-IsAt out line (p ∷ ps) w i =
    rw (sym (append_assoc line p (concat ps)))
      (push_all-IsAt out (line ++ p) ps (push_bytes p w) (push_bytes-IsAt out line p w i))

start-IsAt : (out : Bytes) → IsAt out [] (with_buffer out)
start-IsAt out = record {
  buffer = ap (λ (b : Bytes). some b) (sym (image_nil out));
  required = refl;
  written = omega arith;
}

-- The count does not depend on the buffer.
count-push_all :
    (ps : List Bytes) (w w' : LineWriter)
    → w.required ≡ w'.required
    → (push_all ps w).required ≡ (push_all ps w').required
unfolding push_all push_bytes
count-push_all [] w w' e = e
count-push_all (p ∷ ps) w w' e =
    count-push_all ps (push_bytes p w) (push_bytes p w') (ap (λ n. saturating_add n (length p)) e)

-- What a render of a line leaves: with room the line over the start of the buffer and its length, or
-- else the length that is needed, and of the line what fits.
abbrev pub rendered : Bytes → Bytes → Result RenderError ℕ × Option Bytes
rendered line out = (
  if leb (length line) (length out) then ok (length line) else err (buffer_too_small (length line)),
  some (image out line),
)

finish-rendered :
    (w : LineWriter) (line out : Bytes)
    → w.buffer ≡ some (image out line)
    → w.required ≡ length line
    → w.written ≡ min (length line) (length out)
    → ◌≡◌ {A = Result RenderError ℕ × Option Bytes} (finish w, w.buffer) (rendered line out)
unfolding finish
finish-rendered w line out b r e = elim (Bool-cases (leb (length line) (length out))) [
  | inl fits ↦
      let enough : ltb (min (length line) (length out)) (length line) ≡ false = ground arith in
      rw (b, r, e, enough, fits) refl
  | inr big ↦
      let few : ltb (min (length line) (length out)) (length line) ≡ true = ground arith in
      rw (b, r, e, few, big) refl
]

push_all-rendered :
    (ps : List Bytes) (out : Bytes)
    → length (concat ps) ≤ u64_max
    → let w = push_all ps (with_buffer out) in
      (◌≡◌ {A = Result RenderError ℕ × Option Bytes}
        (finish w, w.buffer)
        (rendered (concat ps) out))
      × ((push_all ps count_only).required ≡ length (concat ps))
push_all-rendered ps out small =
    let i = push_all-IsAt out [] ps (with_buffer out) (start-IsAt out) in
    let r : (push_all ps (with_buffer out)).required ≡ length (concat ps) =
      omega (arith, i.required, small) in
    (
      finish-rendered (push_all ps (with_buffer out)) (concat ps) out i.buffer r i.written,
      count-push_all ps count_only (with_buffer out) refl ∙ r,
    )

-- The status line of any observations, if it is shorter than 2^64: rendered into a buffer that holds
-- it, it stands at the start of the buffer and its length is returned; a shorter buffer gets what
-- fits and the length that is needed is returned, which is also what `status_line_len` says.
pub render_status_line_lem :
    (o : BootObservations) (out : Bytes)
    → length (concat (status_parts o)) ≤ u64_max
    → (render_status_line o out ≡ rendered (concat (status_parts o)) out)
      × (status_line_len o ≡ length (concat (status_parts o)))
unfolding render_status_line status_line_len
render_status_line_lem o out small = push_all-rendered (status_parts o) out small

-- The same of the identity line, if the seat or the device names the seed of the axes: the line is
-- rendered, and its length is counted as it is rendered.
render_boot_identity_line_lem :
    (identity : BootIdentity) (out : Bytes) (parts : List Bytes)
    → identity_parts identity ≡ some parts
    → length (concat parts) ≤ u64_max
    → (render_boot_identity_line identity out ≡ some (rendered (concat parts) out))
      × (boot_identity_line_len identity ≡ some (length (concat parts)))
unfolding render_boot_identity_line boot_identity_line_len
render_boot_identity_line_lem identity out parts found small =
    let (a, b) = push_all-rendered parts out small in
    (
      rw found (ap (λ (r : Result RenderError ℕ × Option Bytes). some r) a),
      rw found (ap (λ (n : ℕ). some n) b),
    )
