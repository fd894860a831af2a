-- ===== src/Storage/Wal/Record.antt =====
-- pkg/storage/wal/record.go. A record's type is kept in one byte, as `byte(r.Type)` cuts it. The
-- checksum, `crc32.Checksum` with the table of Castagnoli, is an argument. The decoders of fixed
-- width give 0 on fewer bytes than they need, which no call gives them.
pub mod RoundTrip
use hermes.Base.{
  ℕ, ◌+◌, ◌/◌, ◌%◌, ◌*◌, List, [], ◌∷◌, ◌++◌, ltb, ◌==◌, ◌⊎◌, inl, inr, if◌then◌else◌, length, take,
  drop,
}
use hermes.Storage.Command.{put_uint32, put_uint64}

abbrev pub record_data : ℕ
record_data = 1

abbrev pub record_checkpoint : ℕ
record_checkpoint = 2

abbrev pub record_segment_header : ℕ
record_segment_header = 3

abbrev pub header_size : ℕ
header_size = 17

abbrev pub max_record_size : ℕ
max_record_size = 67108864

pub record WalRecord : Type 0 where
  pub crc : ℕ
  pub type : ℕ
  pub sequence : ℕ
  pub payload : List ℕ

-- The errors of the package.
pub data WalError : Type 0 where
  record_too_short segment_full wal_closed io_failed : WalError
  corruption : (sequence stored computed : ℕ) → WalError

-- `binary.BigEndian.PutUint32`
unfoldable pub put_uint32_be : ℕ → List ℕ
put_uint32_be n = n / 16777216 % 256 ∷ n / 65536 % 256 ∷ n / 256 % 256 ∷ n % 256 ∷ []

-- `binary.BigEndian.PutUint64`
unfoldable pub put_uint64_be : ℕ → List ℕ
unfolding put_uint32_be
put_uint64_be n = put_uint32_be (n / 4294967296) ++ put_uint32_be n

-- `binary.LittleEndian.Uint32`
pub uint32_le : List ℕ → ℕ
uint32_le (a ∷ b ∷ c ∷ d ∷ rest) = a + b * 256 + c * 65536 + d * 16777216
uint32_le _ = 0

-- `binary.BigEndian.Uint32`
pub uint32_be : List ℕ → ℕ
uint32_be (a ∷ b ∷ c ∷ d ∷ rest) = a * 16777216 + b * 65536 + c * 256 + d
uint32_be _ = 0

-- `binary.LittleEndian.Uint64`
pub uint64_le : List ℕ → ℕ
unfolding uint32_le
uint64_le bs = uint32_le bs + uint32_le (drop 4 bs) * 4294967296

-- `byte(x)`
unfoldable pub byte_of : ℕ → ℕ
byte_of n = n % 256

pub byte_at : ℕ → List ℕ → ℕ
byte_at i bs = elim (drop i bs) [ [] ↦ 0 | b ∷ rest ↦ b ]

module _ (checksum : List ℕ → ℕ) where
  -- The checksum of the type's byte, the sequence in big-endian order and the data.
  unfoldable pub crc_of : ℕ → ℕ → List ℕ → ℕ
  unfolding put_uint64_be
  crc_of type sequence payload = checksum (type ∷ put_uint64_be sequence ++ payload)

  -- The record with the checksum that `Encode` stores in it.
  unfoldable pub stamped : WalRecord → WalRecord
  unfolding crc_of byte_of
  stamped r = record r { crc = crc_of (byte_of r.type) r.sequence r.payload }

  -- The length is that of the payload behind it, cut to 32 bits.
  unfoldable pub encode : WalRecord → List ℕ
  unfolding stamped byte_of put_uint32_be
  encode r =
      put_uint32 ((13 + length r.payload) % 4294967296)
      ++ (put_uint32_be (stamped r).crc ++ (byte_of r.type ∷ (put_uint64 r.sequence ++ r.payload)))

  unfoldable pub decode : List ℕ → WalError ⊎ WalRecord
  unfolding crc_of uint32_be byte_at uint64_le
  decode buf =
      let stored = uint32_be (drop 4 buf) in
      let type = byte_at 8 buf in
      let sequence = uint64_le (drop 9 buf) in
      let payload = drop 17 buf in
      let computed = crc_of type sequence payload in
      if ltb (length buf) header_size
      then inl record_too_short
      else if computed == stored
      then inr (record { crc = stored; type = type; sequence = sequence; payload = payload })
      else inl (corruption sequence stored computed)
