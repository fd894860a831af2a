-- ===== src/Storage/SsTable.antt =====
-- pkg/storage/sstable/sstable.go. A file is the list of its bytes. The files' calls succeed, but a read
-- past the end fails; `none` stands for an error that a method returns and for a panic. The checksum
-- of Castagnoli and what the floating point of `bloom.New` gives are arguments.
pub mod Files
pub mod Blocks
pub mod Writing
pub mod Adding
pub mod Index
pub mod Footer
pub mod Reading
pub mod Parts
pub mod Reopened
use hermes.Base.{
  ℕ, zero, suc, ◌+◌, ◌-◌, ◌*◌, ◌%◌, ◌≡◌, Bool, true, false, not, ◌&&◌, ◌||◌, Option, none, some,
  List, [], ◌∷◌, ◌++◌, ltb, ◌==◌, if◌then◌else◌, length, take, drop, min, GoString, str_eq, str_lt,
  u64,
}
use hermes.Base.Partial.{◌>>=◌}
use hermes.Clock.Hybrid.{to_bytes, hlc_timestamp_from_bytes}
use hermes.Storage.Command.{put_uint32, put_uint64}
use hermes.Storage.Wal.Record.{uint32_le, uint64_le}
use hermes.Storage.SkipList.{Entry}
use hermes.Storage.Bloom.{BloomFilter, new_filter, add, contains, serialize, deserialize}

abbrev pub block_size : ℕ
block_size = 4096

abbrev pub footer_size : ℕ
footer_size = 64

-- `0x4845524D45534442`
abbrev pub magic_number : ℕ
magic_number = 5207659035952890946

pub record IndexEntry : Type 0 where
  pub key : GoString
  pub offset : ℕ
  pub length : ℕ

pub record SsTableMeta : Type 0 where
  pub min_key : GoString
  pub max_key : GoString
  pub entry_count : ℕ
  pub filter : BloomFilter
  pub index : List IndexEntry

-- `byte` of the flag
abbrev pub flag : Bool → ℕ
flag true = 1
flag false = 0

unfoldable pub encode_entry : Entry → List ℕ
encode_entry e =
    put_uint32 (length e.key)
    ++ (e.key
        ++ (put_uint32 (length e.value)
            ++ (e.value ++ (to_bytes e.timestamp ++ (flag e.deleted ∷ [])))))

-- Four bytes of a length, that many bytes, and the rest; `none` breaks out of the loop.
pub prefixed : List ℕ → Option (List ℕ × List ℕ)
prefixed bs =
    let n = uint32_le bs in
    let rest = drop 4 bs in
    if ltb (length bs) 4 || ltb (length rest) n then none else some (take n rest, drop n rest)

abbrev pub flag_at : List ℕ → Bool
flag_at [] = false
flag_at (b ∷ rest) = b == 1

-- One round of the loop. Eight bytes are enough for the timestamp; the flag may be missing.
pub decode_entry : List ℕ → Option (Entry × List ℕ)
decode_entry bs = do
  (key, bs1) ← prefixed bs
  (value, bs2) ← prefixed bs1
  ts ← if ltb (length bs2) 8 then none else hlc_timestamp_from_bytes (take 8 bs2)
  some (
    record {
      key = key;
      value = value;
      timestamp = ts;
      deleted = flag_at (drop 8 bs2);
      sequence = 0;
    },
    drop 9 bs2,
  )

-- The loop, on fuel: every round takes sixteen bytes at least.
pub decode_rounds : ℕ → List ℕ → List Entry
decode_rounds zero bs = []
decode_rounds (suc n) bs = elim (decode_entry bs) [
  | none ↦ []
  | some (e, rest) ↦ e ∷ decode_rounds n rest
]

pub decode_block : List ℕ → List Entry
decode_block bs = decode_rounds (length bs) bs

-- the loop of `searchBlock`
pub first_of : GoString → List Entry → Option Entry
first_of key [] = none
first_of key (e ∷ es) = let rest = first_of key es in if str_eq e.key key then some e else rest

pub search_block : List ℕ → GoString → Option Entry
search_block bs key = first_of key (decode_block bs)

unfoldable pub might_contain : GoString → SsTableMeta → Option Bool
might_contain key m =
    if str_lt key m.min_key || str_lt m.max_key key then some false else contains key m.filter

-- The entry in front of the first whose key is greater, as `sort.Search` finds it in sorted keys.
pub last_at_most : GoString → Option IndexEntry → List IndexEntry → Option IndexEntry
last_at_most key found [] = found
last_at_most key found (i ∷ is) =
    let rest = last_at_most key (some i) is in if str_lt key i.key then found else rest

pub find_block : GoString → SsTableMeta → Option IndexEntry
find_block key m = last_at_most key none m.index

pub encode_index_entry : IndexEntry → List ℕ
encode_index_entry i =
    put_uint32 (length i.key) ++ (i.key ++ (put_uint64 i.offset ++ put_uint32 i.length))

pub encode_index_entries : List IndexEntry → List ℕ
encode_index_entries [] = []
encode_index_entries (i ∷ is) = encode_index_entry i ++ encode_index_entries is

-- the bytes that `writeIndex` writes
pub write_index : List IndexEntry → List ℕ
write_index is = put_uint32 (length is) ++ encode_index_entries is

pub decode_index_entry : List ℕ → Option (IndexEntry × List ℕ)
decode_index_entry bs = do
  (key, bs1) ← prefixed bs
  let i : IndexEntry = record { key = key; offset = uint64_le bs1; length = uint32_le (drop 8 bs1) }
  if ltb (length bs1) 12 then none else some (i, drop 12 bs1)

pub decode_index_entries : ℕ → List ℕ → List IndexEntry
decode_index_entries zero bs = []
decode_index_entries (suc n) bs = elim (decode_index_entry bs) [
  | none ↦ []
  | some (i, rest) ↦ i ∷ decode_index_entries n rest
]

-- The slice with room for the count's many entries is not modelled.
pub decode_index : List ℕ → Option (List IndexEntry)
decode_index bs =
    if ltb (length bs) 4 then none else some (decode_index_entries (uint32_le bs) (drop 4 bs))

-- `written` is what went to the file and its buffer.
pub record Writer : Type 0 where
  pub written : List ℕ
  pub offset : ℕ
  pub block_buf : List ℕ
  pub block_offset : ℕ
  pub block_keys : List GoString
  pub index : List IndexEntry
  pub filter : BloomFilter
  pub entry_count : ℕ
  pub min_key : GoString
  pub max_key : GoString

-- `NewWriter`, with what the floating point gives for the filter
unfoldable pub new_writer : ℕ → (ℕ → ℕ) → Writer
new_writer m hashes = record {
  written = [];
  offset = 0;
  block_buf = [];
  block_offset = 0;
  block_keys = [];
  index = [];
  filter = new_filter m hashes;
  entry_count = 0;
  min_key = [];
  max_key = [];
}

-- where a block begins
unfoldable pub start_block : Writer → Writer
start_block w =
    if length w.block_buf == 0 then record w { block_offset = w.offset; block_keys = [] } else w

module _ (checksum : List ℕ → ℕ) where
  -- the block's header and its entries
  pub block_bytes : List ℕ → List ℕ
  block_bytes buf = put_uint32 (checksum buf) ++ (put_uint32 (length buf) ++ buf)

  unfoldable pub flush_block : Writer → Writer
  flush_block w =
      let indexed : List IndexEntry = elim w.block_keys [
        | [] ↦ w.index
        | key ∷ keys ↦
            w.index
            ++ (record {
              key = key;
              offset = w.block_offset;
              length = (8 + length w.block_buf) % 4294967296;
            }
                ∷ [])
      ] in
      if length w.block_buf == 0 then w else record w {
        written = w.written ++ block_bytes w.block_buf;
        offset = u64 (w.offset + (8 + length w.block_buf));
        block_buf = [];
        block_keys = [];
        index = indexed;
      }

  -- `Writer.Add`
  unfoldable pub add_entry : Entry → Writer → Option Writer
  add_entry e w =
      let encoded = encode_entry e in
      let full = ltb block_size (length w.block_buf + length encoded) in
      let w1 = if full && ltb 0 (length w.block_buf) then flush_block w else w in
      let w2 = start_block w1 in
      elim (add e.key w2.filter) [
        | none ↦ none
        | some filter ↦ some (record w2 {
          block_buf = w2.block_buf ++ encoded;
          block_keys = w2.block_keys ++ (e.key ∷ []);
          filter = filter;
          entry_count = u64 (w2.entry_count + 1);
          min_key = if str_eq w2.min_key [] || str_lt e.key w2.min_key then e.key else w2.min_key;
          max_key = if str_lt w2.max_key e.key then e.key else w2.max_key;
        })
      ]
