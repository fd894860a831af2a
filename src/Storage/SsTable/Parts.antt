-- ===== src/Storage/SsTable/Parts.antt =====
-- The parts of a file and their sizes.
use hermes.Base.{
  ℕ, ◌+◌, ◌-◌, ◌*◌, ◌/◌, ◌≤◌, ◌≡◌, refl, false, some, List, [], ◌∷◌, ◌++◌, ltb, length,
  length-append, drop, arith,
}
use hermes.Clock.Hybrid.{to_bytes}
use hermes.Storage.Command.{put_uint32, put_uint64}
use hermes.Storage.SkipList.{Entry}
use hermes.Storage.Bloom.{BloomFilter, serialize, deserialize, put_words, words_of}
use hermes.Storage.Wal.Record.{uint64_le}
use hermes.Storage.SsTable.{
  IndexEntry, encode_entry, flag, encode_index_entry, decode_index, magic_number, footer_size,
}
use hermes.Storage.SsTable.Files.{read_at, open_reader}
use hermes.Storage.SsTable.Blocks.{encode_all}

length-put_words : (ws : List ℕ) → length (put_words ws) ≡ 8 * length ws
unfolding put_words put_uint64 put_uint32
length-put_words [] = refl
length-put_words (w ∷ ws) = omega (arith, length-put_words ws)

pub length-serialize : (bf : BloomFilter) → length (serialize bf) ≡ 16 + 8 * length bf.bitset
unfolding serialize put_uint64 put_uint32
length-serialize bf = omega (arith, length-put_words bf.bitset)

pub deserialize-some :
    (bf : BloomFilter) → (bf' : BloomFilter) × (deserialize (serialize bf) ≡ some bf')
unfolding deserialize
deserialize-some bf =
    let enough : ltb (length (serialize bf)) 16 ≡ false = ground (arith, length-serialize bf) in
    (
      record {
        bitset = words_of (uint64_le (serialize bf) / 64) (drop 16 (serialize bf));
        m = uint64_le (serialize bf);
        k = uint64_le (drop 8 (serialize bf));
        count = 0;
      },
      rw enough refl,
    )

-- An entry is longer than its key.
length-key : (e : Entry) → length e.key + 1 ≤ length (encode_entry e)
unfolding encode_entry put_uint32
length-key e = omega (
  arith,
  length-append {0} e.key
      (put_uint32 (length e.value) ++ (e.value ++ (to_bytes e.timestamp ++ (flag e.deleted ∷ [])))),
)

pub length-first_key :
    (e : Entry) (es : List Entry) → length e.key + 1 ≤ length (encode_all (e ∷ es))
unfolding encode_all
length-first_key e es =
    omega (arith, length-key e, length-append {0} (encode_entry e) (encode_all es))

pub length-encode_index_entry : (i : IndexEntry) → length (encode_index_entry i) ≡ 16 + length i.key
unfolding encode_index_entry put_uint64 put_uint32
length-encode_index_entry i =
    omega (arith, length-append {0} i.key (put_uint64 i.offset ++ put_uint32 i.length))

-- A file whose parts are read one by one is opened.
pub open_reader_lem :
    (file footer bloom bytes : List ℕ) (a b c d : ℕ) (filter : BloomFilter) (is : List IndexEntry)
    → ltb (length file) footer_size ≡ false
    → read_at file (length file - footer_size) footer_size ≡ some footer
    → uint64_le footer ≡ a
    → uint64_le (drop 8 footer) ≡ b
    → uint64_le (drop 16 footer) ≡ c
    → uint64_le (drop 24 footer) ≡ d
    → uint64_le (drop 56 footer) ≡ magic_number
    → read_at file c d ≡ some bloom
    → deserialize bloom ≡ some filter
    → read_at file a b ≡ some bytes
    → decode_index bytes ≡ some is
    → open_reader file
      ≡ some (record { min_key = []; max_key = []; entry_count = 0; filter = filter; index = is })
unfolding open_reader
open_reader_lem file footer bloom bytes a b c d filter is long whole fa fb fc fd magic at_bloom
      restored at_index decoded =
    let at_bloom' : read_at file (uint64_le (drop 16 footer)) (uint64_le (drop 24 footer))
        ≡ some bloom =
      rw (fc, fd) at_bloom in
    let at_index' : read_at file (uint64_le footer) (uint64_le (drop 8 footer)) ≡ some bytes =
      rw (fa, fb) at_index in
    ground (arith, whole, at_bloom', at_index', restored, decoded)
