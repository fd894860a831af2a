-- ===== src/Storage/SsTable/Index.antt =====
-- The bytes of an index.
use mathlib.Core.List.{append_assoc}
use hermes.Base.{ℕ, ◌<◌, ◌≡◌, refl, false, some, List, [], ◌∷◌, ◌++◌, ltb, length, drop, arith}
use hermes.Storage.Command.{put_uint32, put_uint64}
use hermes.Storage.Wal.Record.{uint32_le, uint64_le}
use hermes.Storage.Wal.Record.RoundTrip.{uint32_le-put, uint64_le-put}
use hermes.Storage.SsTable.{
  IndexEntry, encode_index_entry, encode_index_entries, write_index, decode_index_entry,
  decode_index_entries, decode_index,
}
use hermes.Storage.SsTable.Blocks.{prefixed-put, drop-put_uint32}

-- The numbers of an entry fit in their fields.
abbrev pub IndexFits : List IndexEntry → Type 0
IndexFits [] = Unit {0}
IndexFits (i ∷ is) =
    (length i.key < 4294967296)
    × (i.offset < 18446744073709551616)
    × (i.length < 4294967296)
    × IndexFits is

numbers : IndexEntry → List ℕ → List ℕ
numbers i rest = put_uint64 i.offset ++ (put_uint32 i.length ++ rest)

encode_index_entry-append :
    (i : IndexEntry) (rest : List ℕ)
    → encode_index_entry i ++ rest ≡ put_uint32 (length i.key) ++ (i.key ++ numbers i rest)
unfolding encode_index_entry numbers
encode_index_entry-append i rest = simp (append_assoc) refl

numbers-long : (i : IndexEntry) (rest : List ℕ) → ltb (length (numbers i rest)) 12 ≡ false
unfolding numbers put_uint64 put_uint32
numbers-long i rest = ground arith

numbers-rest : (i : IndexEntry) (rest : List ℕ) → drop 12 (numbers i rest) ≡ rest
unfolding numbers put_uint64 put_uint32
numbers-rest i rest = refl

numbers-length :
    (i : IndexEntry) (rest : List ℕ) → drop 8 (numbers i rest) ≡ put_uint32 i.length ++ rest
unfolding numbers put_uint64 put_uint32
numbers-length i rest = refl

decode_index_entry-encode :
    (i : IndexEntry) (rest : List ℕ)
    → length i.key < 4294967296
    → i.offset < 18446744073709551616
    → i.length < 4294967296
    → decode_index_entry (encode_index_entry i ++ rest) ≡ some (i, rest)
unfolding decode_index_entry
decode_index_entry-encode i rest small_key small_offset small_length =
    let offset : uint64_le (numbers i rest) ≡ i.offset =
      unfold numbers in uint64_le-put i.offset (put_uint32 i.length ++ rest) small_offset in
    let length' : uint32_le (put_uint32 i.length ++ rest) ≡ i.length =
      omega (arith, uint32_le-put i.length rest, small_length) in
    rw
      (
        encode_index_entry-append i rest,
        prefixed-put i.key (numbers i rest) small_key,
        offset,
        numbers-length i rest,
        length',
        numbers-long i rest,
        numbers-rest i rest,
      )
      refl

decode_index_entries-encode :
    (is : List IndexEntry)
    → IndexFits is
    → decode_index_entries (length is) (encode_index_entries is) ≡ is
unfolding decode_index_entries encode_index_entries
decode_index_entries-encode [] fits = refl
decode_index_entries-encode (i ∷ is) (small_key, small_offset, small_length, fits) = ground (
  arith,
  decode_index_entry-encode i (encode_index_entries is) small_key small_offset small_length,
  decode_index_entries-encode is fits,
)

-- An index whose numbers fit in their fields is read back.
pub decode_index-write_index :
    (is : List IndexEntry)
    → length is < 4294967296
    → IndexFits is
    → decode_index (write_index is) ≡ some is
unfolding decode_index write_index
decode_index-write_index is small fits =
    let count : uint32_le (put_uint32 (length is) ++ encode_index_entries is) ≡ length is =
      omega (arith, uint32_le-put (length is) (encode_index_entries is), small) in
    let long : ltb (length (put_uint32 (length is) ++ encode_index_entries is)) 4 ≡ false =
      unfold put_uint32 in ground arith in
    rw
      (
        long,
        count,
        drop-put_uint32 (length is) (encode_index_entries is),
        decode_index_entries-encode is fits,
      )
      refl
