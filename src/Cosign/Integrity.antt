-- ===== src/Cosign/Integrity.antt =====
-- A chain that is only ever appended to passes its own validation (cosign_chain/mod.rs).
use asolaria_os.Prelude.{
  ℕ, suc, ◌+◌, ◌≡◌, ◌↔◌, refl, sym, List, [], ◌∷◌, ◌++◌, true, false, arith, Bytes, same, is_empty,
  ◌==◌, length, length-append, u64, ok,
}
use asolaria_os.Cosign.{
  CosignRow, CosignChain, genesis_prev_sha16, canonical_bytes_of_row, new, sha16_of, append,
  validate_from, validate_end_to_end,
}

module _ (sha256 : Bytes → Bytes) where
  -- The hash that the next row must carry, after `rows` from `prev` on.
  abbrev pub head_after : Bytes → List CosignRow → Bytes
  head_after prev [] = prev
  head_after prev (row ∷ rows) = head_after (sha16_of sha256 (canonical_bytes_of_row row)) rows

  pub record IsLinked (chain : CosignChain) : Type 0 where
    pub numbered : chain.next_row ≡ u64 (length chain.rows + 1)
    pub headed : chain.head_sha16 ≡ head_after genesis_prev_sha16 chain.rows
    pub valid : validate_end_to_end sha256 chain ≡ ok tt

  pub new-IsLinked : IsLinked new
  unfolding new validate_end_to_end
  new-IsLinked = record { numbered = refl; headed = refl; valid = refl }

  head_after-append :
      (prev : Bytes) (rows : List CosignRow) (row : CosignRow)
      → head_after prev (rows ++ row ∷ []) ≡ sha16_of sha256 (canonical_bytes_of_row row)
  head_after-append prev [] row = refl
  head_after-append prev (r ∷ rows) row =
      head_after-append (sha16_of sha256 (canonical_bytes_of_row r)) rows row

  validate_from-append :
      (i : ℕ) (prev : Bytes) (rows : List CosignRow) (row : CosignRow)
      → validate_from sha256 i prev rows ≡ ok tt
      → (row.row == u64 (length rows + i + 1)) ≡ true
      → same row.prev_sha16 (head_after prev rows) ≡ true
      → is_empty row.kind ≡ false
      → validate_from sha256 i prev (rows ++ row ∷ []) ≡ ok tt
  unfolding validate_from
  validate_from-append i prev [] row v n l k =
      let n' : (row.row == u64 (i + 1)) ≡ true = ground arith in rw (n', l, k)
  validate_from-append i prev (r ∷ rows) row v n l k =
      let tail : validate_from sha256 (suc i) (sha16_of sha256 (canonical_bytes_of_row r)) rows
          ≡ ok tt =
        ground arith in
      let ih =
        validate_from-append (suc i) (sha16_of sha256 (canonical_bytes_of_row r)) rows row tail
          (ground arith) l k in
      ground (arith, ih)

  append-parts :
      (row : CosignRow) (chain next : CosignChain)
      → append sha256 row chain ≡ ok next
      → ((row.row == chain.next_row) ≡ true)
        × (same row.prev_sha16 chain.head_sha16 ≡ true)
        × (is_empty row.kind ≡ false)
        × (next.rows ≡ chain.rows ++ row ∷ [])
        × (next.next_row ≡ u64 (chain.next_row + 1))
        × (next.head_sha16 ≡ sha16_of sha256 (canonical_bytes_of_row row))
  unfolding append
  append-parts row chain next e = ground arith

  -- A row that `append` accepts is added at the end, and the chain still passes validation, with
  -- its head the hash of the last row.
  pub append-IsLinked :
      (row : CosignRow) (chain next : CosignChain)
      → IsLinked chain
      → append sha256 row chain ≡ ok next
      → IsLinked next × (next.rows ≡ chain.rows ++ row ∷ [])
  unfolding validate_end_to_end
  append-IsLinked row chain next v e =
      let (number, link, kind, rows, next_row, head) = append-parts row chain next e in
      (
        record {
          numbered =
              rw rows
                (rw (length-append chain.rows (row ∷ [])) (omega (arith, v.numbered, next_row)));
          headed = rw (rows, head) (sym (head_after-append genesis_prev_sha16 chain.rows row));
          valid = rw rows (
              validate_from-append 0 genesis_prev_sha16 chain.rows row v.valid
                (ground (arith, v.numbered)) (rw (← v.headed) link) kind);
        },
        rows,
      )

  validate_from-last :
      (i : ℕ) (prev : Bytes) (rows : List CosignRow) (row : CosignRow)
      → validate_from sha256 i prev (rows ++ row ∷ []) ≡ ok tt
      → ((row.row == u64 (length rows + i + 1)) ≡ true)
        × (same row.prev_sha16 (head_after prev rows) ≡ true)
        × (is_empty row.kind ≡ false)
  unfolding validate_from
  validate_from-last i prev [] row v =
      let n : (row.row == u64 (i + 1)) ≡ true = ground arith in
      (ground arith, ground arith, ground arith)
  validate_from-last i prev (r ∷ rows) row v =
      let next = sha16_of sha256 (canonical_bytes_of_row r) in
      let (n, l, k) = validate_from-last (suc i) next rows row (ground arith) in
      (ground arith, l, k)

  accepts :
      (row : CosignRow) (chain : CosignChain)
      → (row.row == chain.next_row) ≡ true
      → same row.prev_sha16 chain.head_sha16 ≡ true
      → is_empty row.kind ≡ false
      → (next : CosignChain) × (append sha256 row chain ≡ ok next)
  unfolding append
  accepts row chain n l k = (
    record {
      head_sha16 = sha16_of sha256 (canonical_bytes_of_row row);
      next_row = u64 (chain.next_row + 1);
      rows = chain.rows ++ row ∷ [];
    },
    rw (n, l, k),
  )

  -- On a chain built by appends, `append` accepts a row exactly if the chain extended by that row
  -- passes the whole validation.
  append-ok_iff :
      (row : CosignRow) (chain : CosignChain)
      → IsLinked chain
      → ((next : CosignChain) × (append sha256 row chain ≡ ok next))
        ↔ (validate_end_to_end sha256 (record chain { rows = chain.rows ++ row ∷ [] }) ≡ ok tt)
  unfolding validate_end_to_end
  append-ok_iff row chain v = (to, from)
    where
      to :
          ((next : CosignChain) × (append sha256 row chain ≡ ok next))
          → validate_from sha256 0 genesis_prev_sha16 (chain.rows ++ row ∷ []) ≡ ok tt
      to (next, e) =
          let (linked, rows) = append-IsLinked row chain next v e in rw (← rows) linked.valid

      from :
          validate_from sha256 0 genesis_prev_sha16 (chain.rows ++ row ∷ []) ≡ ok tt
          → (next : CosignChain) × (append sha256 row chain ≡ ok next)
      from e =
          let (n, l, k) = validate_from-last 0 genesis_prev_sha16 chain.rows row e in
          accepts row chain (ground (arith, v.numbered)) (rw v.headed l) k
