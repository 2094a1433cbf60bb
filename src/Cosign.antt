-- ===== src/Cosign.antt =====
-- kernel/core/src/cosign_chain/mod.rs: the append-only, hash-linked chain of cosign rows, and the
-- module-level sequence counter behind `sys_cosign_append`. SHA-256 (the sha2 crate) is the
-- parameter `sha256`, a function from bytes to the digest's bytes.
pub mod Integrity
pub mod Tamper
use asolaria_os.Prelude.{
  ℕ, suc, ◌+◌, ◌-◌, ◌/◌, ◌%◌, List, [], ◌∷◌, ◌++◌, Bytes, bytes, same, decimal, length, take, u64,
  ltb, ◌==◌, not, is_empty, if◌then◌else◌, Result, ok, err, ◌>>=◌, ◌>>◌, guard,
}

pub data CosignChainErr : Type 0 where
  non_monotonic_row chain_link_broken signature_invalid kind_malformed unimplemented :
      CosignChainErr

pub record CosignRow : Type 0 where
  pub row : ℕ
  pub ts_ns : ℕ
  pub prev_sha16 : Bytes
  pub kind : Bytes
  pub payload_sha16 : Bytes
  pub sig : Bytes

pub record CosignChain : Type 0 where
  pub head_sha16 : Bytes
  pub next_row : ℕ
  pub rows : List CosignRow

abbrev pub genesis_prev_sha16 : Bytes
genesis_prev_sha16 = bytes "0000000000000000"

-- `char::from_digit(d, 16)`
from_digit : ℕ → ℕ
from_digit d = if ltb d 10 then b'0' + d else b'a' + d - 10

hex_of : Bytes → Bytes
hex_of [] = []
hex_of (byte ∷ rest) = from_digit (byte / 16) ∷ from_digit (byte % 16) ∷ hex_of rest

-- The format string, piece by piece.
unfoldable pub canonical_bytes_of_row : CosignRow → Bytes
canonical_bytes_of_row r =
    bytes "row="
    ++ (decimal r.row
        ++ (bytes "|ts="
            ++ (decimal r.ts_ns
                ++ (bytes "|prev="
                    ++ (r.prev_sha16
                        ++ (bytes "|kind="
                            ++ (r.kind ++ (bytes "|payload=" ++ r.payload_sha16))))))))

unfoldable pub new : CosignChain
new = record { head_sha16 = genesis_prev_sha16; next_row = 1; rows = [] }

module _ (sha256 : Bytes → Bytes) where
  unfoldable pub sha16_of : Bytes → Bytes
  unfolding hex_of from_digit
  sha16_of message = hex_of (take 8 (sha256 message))

  -- `CosignChain::append`
  unfoldable pub append : CosignRow → CosignChain → Result CosignChainErr CosignChain
  append row chain = do
    guard (row.row == chain.next_row) non_monotonic_row
    guard (same row.prev_sha16 chain.head_sha16) chain_link_broken
    guard (not (is_empty row.kind)) kind_malformed
    let new_head = sha16_of (canonical_bytes_of_row row)
    ok (record {
      head_sha16 = new_head;
      next_row = u64 (chain.next_row + 1);
      rows = chain.rows ++ row ∷ [];
    })

  -- The loop of `validate_end_to_end`, from row index `i` on.
  unfoldable pub validate_from : ℕ → Bytes → List CosignRow → Result CosignChainErr (Unit {0})
  validate_from i expected_prev [] = ok tt
  validate_from i expected_prev (row ∷ rows) =
      let rest = validate_from (suc i) (sha16_of (canonical_bytes_of_row row)) rows in
      do
        guard (row.row == u64 (i + 1)) non_monotonic_row
        guard (same row.prev_sha16 expected_prev) chain_link_broken
        guard (not (is_empty row.kind)) kind_malformed
        rest

  unfoldable pub validate_end_to_end : CosignChain → Result CosignChainErr (Unit {0})
  unfolding validate_from
  validate_end_to_end chain = validate_from 0 genesis_prev_sha16 chain.rows

unfoldable pub depth : CosignChain → ℕ
depth chain = length chain.rows

-- The module-level `append`: the digest is computed and dropped, the counter moves. The result is
-- the value returned and the counter's new value.
unfoldable pub append_row : Bytes → ℕ → Result CosignChainErr ℕ × ℕ
append_row row seq =
    if is_empty row then (err kind_malformed, seq) else (ok (u64 (seq + 1)), u64 (seq + 1))
