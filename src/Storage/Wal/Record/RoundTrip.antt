-- ===== src/Storage/Wal/Record/RoundTrip.antt =====
-- The fields of an encoded record, and their decoding.
use hermes.Base.{
  ℕ, suc, ◌+◌, ◌%◌, ◌≤◌, ◌<◌, ◌≡◌, refl, ap, ◌∙◌, true, false, List, [], ◌∷◌, ◌++◌, ltb, ◌==◌, inr,
  length, take, drop, arith,
}
use hermes.Storage.Command.{put_uint32, put_uint64}
use hermes.Storage.Wal.Record.{
  WalRecord, put_uint32_be, put_uint64_be, uint32_le, uint32_be, uint64_le, byte_of, byte_at,
  crc_of, stamped, encode, decode, header_size, max_record_size,
}

-- What the source's types bound, a type of one byte and a sequence of 64 bits, and a size with which
-- the record fits in a segment.
pub record IsSound (r : WalRecord) : Type 0 where
  pub small_type : r.type < 256
  pub small_sequence : r.sequence < 18446744073709551616
  pub fits : 17 + length r.payload ≤ max_record_size

-- `Uint32` reads what `PutUint32` wrote.
pub uint32_le-put : (n : ℕ) (rest : List ℕ) → uint32_le (put_uint32 n ++ rest) ≡ n % 4294967296
unfolding uint32_le put_uint32
uint32_le-put n rest = omega arith

uint32_be-put : (n : ℕ) (rest : List ℕ) → uint32_be (put_uint32_be n ++ rest) ≡ n % 4294967296
unfolding uint32_be put_uint32_be
uint32_be-put n rest = omega arith

pub uint64_le-put :
    (n : ℕ) (rest : List ℕ) → n < 18446744073709551616 → uint64_le (put_uint64 n ++ rest) ≡ n
unfolding uint64_le uint32_le put_uint64 put_uint32
uint64_le-put n rest small = omega (arith, small)

-- Fields that decode one by one make the record.
decode_lem :
    (checksum : List ℕ → ℕ) (buf payload : List ℕ) (crc type sequence : ℕ)
    → header_size ≤ length buf
    → uint32_be (drop 4 buf) ≡ crc
    → byte_at 8 buf ≡ type
    → uint64_le (drop 9 buf) ≡ sequence
    → drop 17 buf ≡ payload
    → crc_of checksum type sequence payload ≡ crc
    → decode checksum buf
      ≡ inr (record { crc = crc; type = type; sequence = sequence; payload = payload })
unfolding decode
decode_lem checksum buf payload crc type sequence long a b c d e =
    let long' : ltb (length buf) 17 ≡ false = ground (arith, long) in
    let same : (crc == crc) ≡ true = ground arith in rw (long', a, b, c, d, e, same) refl

length-put_uint32 : (n : ℕ) → length (put_uint32 n) ≡ 4
unfolding put_uint32
length-put_uint32 n = refl

module _ (checksum : List ℕ → ℕ) where
  -- What stands in front of the payload.
  unfoldable header : WalRecord → List ℕ
  unfolding put_uint32_be byte_of stamped
  header r =
      put_uint32 ((13 + length r.payload) % 4294967296)
      ++ (put_uint32_be (stamped checksum r).crc ++ (byte_of r.type ∷ put_uint64 r.sequence))

  encode-header : (r : WalRecord) → encode checksum r ≡ header r ++ r.payload
  unfolding encode header put_uint32 put_uint32_be put_uint64 byte_of
  encode-header r = refl

  pub length-encode : (r : WalRecord) → length (encode checksum r) ≡ 17 + length r.payload
  unfolding encode put_uint32 put_uint32_be put_uint64
  length-encode r = omega arith

  pub uint32_le-encode :
      (r : WalRecord) (rest : List ℕ)
      → IsSound r
      → uint32_le (encode checksum r ++ rest) ≡ 13 + length r.payload
  unfolding encode uint32_le put_uint32
  uint32_le-encode r rest sound = omega (arith, sound.fits)

module _ (checksum : List ℕ → ℕ) (small : (bs : List ℕ) → checksum bs < 4294967296) where
  pub decode-encode :
      (r : WalRecord) → IsSound r → decode checksum (encode checksum r) ≡ inr (stamped checksum r)
  unfolding encode stamped crc_of put_uint32 put_uint32_be put_uint64 byte_of byte_at uint32_be
      uint64_le uint32_le
  decode-encode r sound =
      let crc = crc_of checksum (r.type % 256) r.sequence r.payload in
      let cut : r.type % 256 ≡ r.type = omega (arith, sound.small_type) in
      let below : crc < 4294967296 = small (r.type % 256 ∷ put_uint64_be r.sequence ++ r.payload) in
      decode_lem checksum (encode checksum r) r.payload crc (r.type % 256) r.sequence (omega arith)
        (omega (arith, below)) refl (omega (arith, sound.small_sequence)) refl refl
      ∙ ap (λ t. inr (record { crc = crc; type = t; sequence = r.sequence; payload = r.payload }))
          cut

-- Four bytes are enough for the length.
pub uint32_le-take : (n : ℕ) (bs : List ℕ) → uint32_le (take (4 + n) bs) ≡ uint32_le bs
unfolding uint32_le
uint32_le-take n bs =
    let four : 4 + n ≡ suc (suc (suc (suc n))) = omega arith in rw four (taken n bs)
  where
    taken : (n : ℕ) (bs : List ℕ) → uint32_le (take (suc (suc (suc (suc n)))) bs) ≡ uint32_le bs
    taken n [] = refl
    taken n (a ∷ []) = refl
    taken n (a ∷ b ∷ []) = refl
    taken n (a ∷ b ∷ c ∷ []) = refl
    taken n (a ∷ b ∷ c ∷ d ∷ rest) = refl
