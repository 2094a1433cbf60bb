-- ===== src/Crypto/Canonical.antt =====
-- The canonical envelope bytes of crypto/mod.rs determine the envelope.
use asolaria_os.Prelude.{
  ℕ, ◌<◌, ◌≡◌, ◌≢◌, sym, ap, ◌∙◌, ◌∷◌, ◌++◌, Bytes, arith, All, drop, be_bytes, be_bytes-injective,
  length-be_bytes, append-injective, split_unique, u64_mod, ok,
}
use asolaria_os.Crypto.{canonical_envelope_bytes}

abbrev pub NoBar : Bytes → Type 0
NoBar = All (λ b. b ≢ b'|')

word_first :
    (m n : ℕ) (xs ys : Bytes)
    → m < u64_mod
    → n < u64_mod
    → be_bytes 8 m ++ xs ≡ be_bytes 8 n ++ ys
    → (m ≡ n) × (xs ≡ ys)
word_first m n xs ys h k e =
    let (words, rest) =
      append-injective (be_bytes 8 m) xs (be_bytes 8 n) ys
        (length-be_bytes 8 m ∙ sym (length-be_bytes 8 n)) e in
    (be_bytes-injective 8 m n (omega arith) (omega arith) words, rest)

-- Two envelopes with the same canonical bytes agree in every field, if no `|` stands in their
-- type, verb or id, and their numbers are u64. The payload may hold anything.
canonical_envelope_bytes-injective :
    (f f' t t' : ℕ) (tag tag' verb verb' id id' : Bytes) (ts ts' : ℕ) (p p' c : Bytes)
    → (f < u64_mod)
      × (f' < u64_mod)
      × (t < u64_mod)
      × (t' < u64_mod)
      × (ts < u64_mod)
      × (ts' < u64_mod)
    → NoBar tag × NoBar tag' × NoBar verb × NoBar verb' × NoBar id × NoBar id'
    → canonical_envelope_bytes f t tag verb id ts p ≡ ok c
    → canonical_envelope_bytes f' t' tag' verb' id' ts' p' ≡ ok c
    → (f ≡ f') × (t ≡ t') × (tag ≡ tag') × (verb ≡ verb') × (id ≡ id') × (ts ≡ ts') × (p ≡ p')
unfolding canonical_envelope_bytes
canonical_envelope_bytes-injective f f' t t' tag tag' verb verb' id id' ts ts' p p' c w n e e' =
    let (froms, r1) = word_first f f' _ _ w.0 w.1 same in
    let (tos, r2) = word_first t t' _ _ w.2 w.3 (ap (drop 1) r1) in
    let (tags, r3) = split_unique b'|' tag _ tag' _ n.0 n.1 (ap (drop 1) r2) in
    let (verbs, r4) = split_unique b'|' verb _ verb' _ n.2 n.3 r3 in
    let (ids, r5) = split_unique b'|' id _ id' _ n.4 n.5 r4 in
    let (times, r6) = word_first ts ts' _ _ w.4 w.5 r5 in
    (froms, tos, tags, verbs, ids, times, ap (drop 1) r6)
  where
    text : ℕ → ℕ → Bytes → Bytes → Bytes → ℕ → Bytes → Bytes
    text a b tag verb id ts p =
        be_bytes 8 a
        ++ (b'|'
            ∷ (be_bytes 8 b
                ++ (b'|'
                    ∷ (tag
                        ++ (b'|'
                            ∷ (verb ++ (b'|' ∷ (id ++ (b'|' ∷ (be_bytes 8 ts ++ (b'|' ∷ p)))))))))))

    same : text f t tag verb id ts p ≡ text f' t' tag' verb' id' ts' p'
    same = ground arith
