-- ===== src/Pid/Subclass.antt =====
-- The classes of process identifiers (pid/mod.rs).
use asolaria_os.Prelude.{
  and_iff, ◌≡◌, ◌≢◌, ◌↔◌, refl, sym, ap, ◌∙◌, inl, inr, Bytes, ok, err, Result-cases, true, not,
  arith,
}
use asolaria_os.Pid.{
  PidErr, PidSubclass, pending, ParsedPid, canonical, dated, parse_pid, classify_parts,
  classify_subclass, same_subclass, is_in_subclass, validate_pid, validate_subclass,
}

classify_parts_known : (parsed : ParsedPid) → (classify_parts parsed ≢ pending)
unfolding classify_parts
classify_parts_known (dated p) h = cc
classify_parts_known (canonical p) h = ground arith

same_subclass_iff : (a b : PidSubclass) → (same_subclass a b ≡ true) ↔ (a ≡ b)
unfolding same_subclass
same_subclass_iff a b = ground arith

same_subclass_false : (a b : PidSubclass) → (not (same_subclass a b) ≡ true) ↔ (a ≢ b)
unfolding same_subclass
same_subclass_false a b = ground (arith, same_subclass_iff a b)

is_in_subclass_lem :
    (pid : Bytes) (sub : PidSubclass)
    → (is_in_subclass pid sub ≡ true) ↔ ((classify_subclass pid ≡ sub) × (sub ≢ pending))
unfolding is_in_subclass
is_in_subclass_lem pid sub =
    let (a, b) = same_subclass_iff (classify_subclass pid) sub in
    let (c, d) = same_subclass_false sub pending in
    let (l, r) =
      and_iff (same_subclass (classify_subclass pid) sub) (not (same_subclass sub pending)) in
    (λ h. (a (l h).0, c (l h).1), λ (h, k). r (b h, d k))

classify-ok :
    (pid : Bytes) (parsed : ParsedPid)
    → parse_pid pid ≡ ok parsed
    → classify_subclass pid ≡ classify_parts parsed
unfolding classify_subclass
classify-ok pid parsed found = rw (classify_subclass, found) refl

classify-err : (pid : Bytes) (e : PidErr) → parse_pid pid ≡ err e → classify_subclass pid ≡ pending
unfolding classify_subclass
classify-err pid e refused = rw (classify_subclass, refused) refl

validate-ok :
    (pid : Bytes) (parsed : ParsedPid)
    → parse_pid pid ≡ ok parsed
    → validate_subclass pid ≡ ok (classify_subclass pid)
unfolding validate_subclass validate_pid
validate-ok pid parsed found = rw found refl

validate-err : (pid : Bytes) (e : PidErr) → parse_pid pid ≡ err e → validate_subclass pid ≡ err e
unfolding validate_subclass validate_pid
validate-err pid e refused = rw refused refl

-- A text validates to a class exactly if it is in that class; a text that is in no class is refused.
validate_subclass_iff :
    (pid : Bytes) (sub : PidSubclass)
    → (validate_subclass pid ≡ ok sub) ↔ (is_in_subclass pid sub ≡ true)
validate_subclass_iff pid sub =
    let (to, from) = is_in_subclass_lem pid sub in
    elim (Result-cases (parse_pid pid)) [
      | inr (e, refused) ↦
          let v = validate-err pid e refused in
          let c = classify-err pid e refused in
          (λ h. cc, λ h. let (x, y) = to h in absurd (y (sym x ∙ c)))
      | inl (parsed, found) ↦
          let v = validate-ok pid parsed found in
          let c = classify-ok pid parsed found in
          (
            λ h.
                let x : classify_subclass pid ≡ sub = cc in
                from (x, λ q. classify_parts_known parsed (cc)),
            λ h. v ∙ ap (λ (u : PidSubclass). ok u) (to h).0,
          )
    ]
