-- ===== src/Examples/Chain.antt =====
-- The cosign chain at concrete inputs. The first stand-in digest is the text itself.
use asolaria_os.Prelude.{replicate, same, ◌≡◌, ◌⊎◌, refl, [], ◌∷◌, ◌++◌, Bytes, bytes, arith}
use asolaria_os.Cosign.{
  CosignRow, CosignChain, genesis_prev_sha16, canonical_bytes_of_row, new, sha16_of, append,
  validate_end_to_end,
}
use asolaria_os.Cosign.Integrity.{IsLinked, new-IsLinked, append-IsLinked}
use asolaria_os.Cosign.Tamper.{IsPlain, SameRows, HasCollision, tamper_evident}

abbrev digest : Bytes → Bytes
digest message = message

abbrev first : CosignRow
first = record {
  row = 1;
  ts_ns = 5;
  prev_sha16 = genesis_prev_sha16;
  kind = bytes "boot";
  payload_sha16 = bytes "00ff";
  sig = [];
}

abbrev one : CosignChain
one = record {
  head_sha16 = sha16_of digest (canonical_bytes_of_row first);
  next_row = 2;
  rows = first ∷ [];
}

append-IsLinked_example : IsLinked digest one × (one.rows ≡ new.rows ++ first ∷ [])
unfolding append new same
append-IsLinked_example = append-IsLinked digest first new one (new-IsLinked digest) refl

-- Under a digest that is the same for all texts, chains that differ in payload and signature.
abbrev flat : Bytes → Bytes
flat message = replicate 32 7

abbrev altered : CosignRow
altered = record first { payload_sha16 = bytes "ffff"; sig = bytes "x" }

abbrev original : CosignChain
original = record {
  head_sha16 = sha16_of flat (canonical_bytes_of_row first);
  next_row = 2;
  rows = first ∷ [];
}

abbrev forged : CosignChain
forged = record original { rows = altered ∷ [] }

abbrev plain : IsPlain first
plain = record {
  row = omega arith;
  ts_ns = omega arith;
  prev_sha16 = ground arith;
  kind = ground arith;
}

abbrev altered_plain : IsPlain altered
altered_plain = record {
  row = omega arith;
  ts_ns = omega arith;
  prev_sha16 = ground arith;
  kind = ground arith;
}

tamper_evident_example :
    SameRows original.rows forged.rows ⊎ HasCollision flat original.rows forged.rows
unfolding validate_end_to_end same sha16_of
tamper_evident_example =
    tamper_evident flat original forged (plain, tt) (altered_plain, tt) refl refl refl refl
