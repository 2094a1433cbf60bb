-- ===== src/Cosign/Tamper.antt =====
-- What the hash links of a chain protect, and what they do not (cosign_chain/mod.rs).
use asolaria_os.Prelude.{
  ℕ, suc, ◌<◌, ◌^◌, ◌≡◌, ◌≢◌, ◌⊎◌, inl, inr, ap, sym, ◌∙◌, List, [], ◌∷◌, ◌++◌, Bool, true, false,
  arith, refl, map, Bytes, bytes, same, same_iff, length, drop, u64_mod, ok, Bool-cases, All,
  decimal, decimal-injective, decimal_plain, split_unique,
}
use mathlib.Core.List.{append_assoc}
use asolaria_os.Cosign.{
  CosignRow, CosignChain, genesis_prev_sha16, canonical_bytes_of_row, sha16_of, validate_from,
  validate_end_to_end,
}
use asolaria_os.Cosign.Integrity.{head_after}

-- The fields that the canonical bytes cover: all but the signature.
pub record SameContent (x y : CosignRow) : Type 0 where
  pub row : x.row ≡ y.row
  pub ts_ns : x.ts_ns ≡ y.ts_ns
  pub prev_sha16 : x.prev_sha16 ≡ y.prev_sha16
  pub kind : x.kind ≡ y.kind
  pub payload_sha16 : x.payload_sha16 ≡ y.payload_sha16

-- A row of u64 fields with no `|` in its `prev_sha16` and `kind`.
pub record IsPlain (r : CosignRow) : Type 0 where
  pub row : r.row < u64_mod
  pub ts_ns : r.ts_ns < u64_mod
  pub prev_sha16 : All (λ b. b ≢ b'|') r.prev_sha16
  pub kind : All (λ b. b ≢ b'|') r.kind

u64_digits : (n : ℕ) → n < u64_mod → n < 10 ^ 20
u64_digits n h = omega arith

-- Plain rows with the same canonical bytes agree in every field that they cover.
canonical-injective :
    (x y : CosignRow)
    → IsPlain x
    → IsPlain y
    → canonical_bytes_of_row x ≡ canonical_bytes_of_row y
    → SameContent x y
unfolding canonical_bytes_of_row
canonical-injective x y p q e =
    let (rows, e1) =
      split_unique b'|' (decimal x.row) _ (decimal y.row) _ (decimal_plain x.row)
        (decimal_plain y.row) (ap (drop 4) e) in
    let (times, e2) =
      split_unique b'|' (decimal x.ts_ns) _ (decimal y.ts_ns) _ (decimal_plain x.ts_ns)
        (decimal_plain y.ts_ns) (ap (drop 3) e1) in
    let (prevs, e3) =
      split_unique b'|' x.prev_sha16 _ y.prev_sha16 _ p.prev_sha16 q.prev_sha16 (ap (drop 5) e2) in
    let (kinds, e4) = split_unique b'|' x.kind _ y.kind _ p.kind q.kind (ap (drop 5) e3) in
    record {
      row = decimal-injective x.row y.row (u64_digits x.row p.row) (u64_digits y.row q.row) rows;
      ts_ns =
          decimal-injective x.ts_ns y.ts_ns (u64_digits x.ts_ns p.ts_ns)
            (u64_digits y.ts_ns q.ts_ns) times;
      prev_sha16 = prevs;
      kind = kinds;
      payload_sha16 = ap (drop 8) e4;
    }

-- The rows agree, one by one, in every field but the signature.
abbrev pub SameRows : List CosignRow → List CosignRow → Type 0
SameRows [] [] = Unit
SameRows (x ∷ xs) (y ∷ ys) = SameContent x y × SameRows xs ys
SameRows _ _ = ⊥

module _ (sha256 : Bytes → Bytes) where
  -- At one place the rows have different canonical bytes with one sha16.
  abbrev pub HasCollision : List CosignRow → List CosignRow → Type 0
  HasCollision (x ∷ xs) (y ∷ ys) =
      ((canonical_bytes_of_row x ≢ canonical_bytes_of_row y)
        × (sha16_of sha256 (canonical_bytes_of_row x) ≡ sha16_of sha256 (canonical_bytes_of_row y)))
      ⊎ HasCollision xs ys
  HasCollision _ _ = ⊥

  step-same :
      (x y : CosignRow) (p q : Bytes)
      → IsPlain x
      → IsPlain y
      → x.prev_sha16 ≡ p
      → y.prev_sha16 ≡ q
      → (SameContent x y × (p ≡ q)) ⊎ (canonical_bytes_of_row x ≢ canonical_bytes_of_row y)
  step-same x y p q px py ep eq =
      elim (Bool-cases (same (canonical_bytes_of_row x) (canonical_bytes_of_row y))) [
        | inl t ↦
            let c = canonical-injective x y px py ((same_iff _ _).0 t) in
            inl (c, sym ep ∙ c.prev_sha16 ∙ eq)
        | inr f ↦ inr (λ t. false_ne_true f ((same_iff _ _).1 t))
      ]
    where
      false_ne_true : {b : Bool} → b ≡ false → b ≡ true → ⊥
      false_ne_true f t = cc

  valid-parts :
      (i : ℕ) (p : Bytes) (x : CosignRow) (xs : List CosignRow)
      → validate_from sha256 i p (x ∷ xs) ≡ ok tt
      → (x.prev_sha16 ≡ p)
        × (validate_from sha256 (suc i) (sha16_of sha256 (canonical_bytes_of_row x)) xs ≡ ok tt)
  unfolding validate_from
  valid-parts i p x xs v = ((same_iff x.prev_sha16 p).0 (ground arith), ground arith)

  same_from :
      (xs ys : List CosignRow) (i j : ℕ) (p q : Bytes)
      → All IsPlain xs
      → All IsPlain ys
      → validate_from sha256 i p xs ≡ ok tt
      → validate_from sha256 j q ys ≡ ok tt
      → length xs ≡ length ys
      → head_after sha256 p xs ≡ head_after sha256 q ys
      → (SameRows xs ys × (p ≡ q)) ⊎ HasCollision xs ys
  same_from [] [] i j p q px py v w l e = inl (tt, e)
  same_from [] (y ∷ ys) i j p q px py v w l e = absurd (omega arith)
  same_from (x ∷ xs) [] i j p q px py v w l e = absurd (omega arith)
  same_from (x ∷ xs) (y ∷ ys) i j p q px py v w l e =
      let (xp, v') = valid-parts i p x xs v in
      let (yq, w') = valid-parts j q y ys w in
      let rest =
        same_from xs ys (suc i) (suc j) (sha16_of sha256 (canonical_bytes_of_row x))
          (sha16_of sha256 (canonical_bytes_of_row y)) px.1 py.1 v' w' (omega arith) e in
      elim rest [
        | inr c ↦ inr (inr c)
        | inl (tails, h) ↦ elim (step-same x y p q px.0 py.0 xp yq) [
          | inr differ ↦ inr (inl (differ, h))
          | inl (c, pq) ↦ inl ((c, tails), pq)
        ]
      ]

  -- Two valid chains of the same length whose last rows have the same recomputed hash agree row by row
  -- in every field but the signature, or at some place their rows have different canonical bytes with
  -- one truncated hash. The rows are plain: u64 numbers, and no `|` in the link or the kind.
  pub tamper_evident :
      (xs ys : CosignChain)
      → All IsPlain xs.rows
      → All IsPlain ys.rows
      → validate_end_to_end sha256 xs ≡ ok tt
      → validate_end_to_end sha256 ys ≡ ok tt
      → length xs.rows ≡ length ys.rows
      → head_after sha256 genesis_prev_sha16 xs.rows ≡ head_after sha256 genesis_prev_sha16 ys.rows
      → SameRows xs.rows ys.rows ⊎ HasCollision xs.rows ys.rows
  unfolding validate_end_to_end
  tamper_evident xs ys px py v w l e =
      elim (same_from xs.rows ys.rows 0 0 genesis_prev_sha16 genesis_prev_sha16 px py v w l e) [
        | inl (s, _) ↦ inl s
        | inr c ↦ inr c
      ]

  validate_from-swap_last :
      (xs : List CosignRow) (i : ℕ) (p payload : Bytes) (r : CosignRow)
      → validate_from sha256 i p (xs ++ r ∷ []) ≡ ok tt
      → validate_from sha256 i p (xs ++ record r { payload_sha16 = payload } ∷ []) ≡ ok tt
  unfolding validate_from
  validate_from-swap_last [] i p payload r v = ground arith
  validate_from-swap_last (x ∷ xs) i p payload r v = ground (
    arith,
    validate_from-swap_last xs (suc i) (sha16_of sha256 (canonical_bytes_of_row x)) payload r,
  )

  -- A signature takes no part: the rows with other signatures validate as before, and their last
  -- hash is the same.
  resigned : Bytes → CosignRow → CosignRow
  resigned sig r = record r { sig = sig }

  resigned_validates :
      (xs : List CosignRow) (i : ℕ) (p sig : Bytes)
      → (validate_from sha256 i p (map (resigned sig) xs) ≡ validate_from sha256 i p xs)
        × (head_after sha256 p (map (resigned sig) xs) ≡ head_after sha256 p xs)
  unfolding validate_from resigned canonical_bytes_of_row
  resigned_validates [] i p sig = (refl, refl)
  resigned_validates (x ∷ xs) i p sig =
      let (valid, last_) =
        resigned_validates xs (suc i) (sha16_of sha256 (canonical_bytes_of_row x)) sig in
      (rw valid refl, last_)

  -- Validation never looks at the stored head, so the payload of the last row of any valid chain
  -- can be replaced by any other and the chain still validates.
  last_row_unprotected :
      (chain : CosignChain) (xs : List CosignRow) (r : CosignRow) (payload : Bytes)
      → chain.rows ≡ xs ++ r ∷ []
      → validate_end_to_end sha256 chain ≡ ok tt
      → validate_end_to_end sha256
          (record chain { rows = xs ++ record r { payload_sha16 = payload } ∷ [] })
        ≡ ok tt
  unfolding validate_end_to_end
  last_row_unprotected chain xs r payload e v =
      validate_from-swap_last xs 0 genesis_prev_sha16 payload r (rw e at v)

-- Rows whose `kind` holds the separator share their canonical bytes with rows of another `kind`
-- and another payload.
canonical_ambiguous :
    (r : CosignRow) (kind middle payload : Bytes)
    → canonical_bytes_of_row
        (record r { kind = kind ++ (bytes "|payload=" ++ middle); payload_sha16 = payload })
      ≡ canonical_bytes_of_row
          (record r { kind = kind; payload_sha16 = middle ++ (bytes "|payload=" ++ payload) })
unfolding canonical_bytes_of_row
canonical_ambiguous r kind middle payload = simp append_assoc
