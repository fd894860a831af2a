-- ===== src/Storage/SsTable/Files.antt =====
-- pkg/storage/sstable/sstable.go: `Finish`, the footer, and the reader of a file.
use hermes.Base.{
  ℕ, zero, suc, ◌+◌, ◌-◌, true, false, ◌||◌, Option, none, some, List, [], ◌∷◌, ◌++◌, leb, ltb,
  ◌==◌, if◌then◌else◌, length, take, drop, GoString,
}
use hermes.Base.Partial.{◌>>=◌}
use hermes.Storage.Command.{put_uint32, put_uint64}
use hermes.Storage.Wal.Record.{uint32_le, uint64_le}
use hermes.Storage.SkipList.{Entry}
use hermes.Storage.Bloom.{serialize, deserialize, zeros}
use hermes.Storage.SsTable.{
  footer_size, magic_number, IndexEntry, SsTableMeta, Writer, flush_block, write_index,
  decode_index, might_contain, find_block, search_block, decode_block,
}

-- The twelve bytes at most of a key, in a field of twelve.
abbrev pub key_field : GoString → List ℕ
key_field key = take 12 (take 12 key ++ zeros 12)

-- `copy(footer[52:64-8-4], …)` copies nothing: the slice is empty.
unfoldable pub write_footer : ℕ → ℕ → ℕ → ℕ → Writer → List ℕ
write_footer index_offset index_len bloom_offset bloom_len w =
    put_uint64 index_offset
    ++ (put_uint64 index_len
        ++ (put_uint64 bloom_offset
            ++ (put_uint64 bloom_len
                ++ (put_uint32 (length (take 12 w.min_key))
                    ++ (key_field w.min_key
                        ++ (put_uint32 (length (take 12 w.max_key))
                            ++ (zeros 4 ++ put_uint64 magic_number)))))))

-- `ReadAt` of so many bytes; a negative length panics.
unfoldable pub read_at : List ℕ → ℕ → ℕ → Option (List ℕ)
read_at file offset len =
    if ltb (length file) (offset + len) then none else some (take len (drop offset file))

-- `OpenReader` and `loadMeta`: the smallest and the greatest key and the count stay at their zeros.
unfoldable pub open_reader : List ℕ → Option SsTableMeta
open_reader file = do
  footer ←
      if ltb (length file) footer_size
      then none
      else read_at file (length file - footer_size) footer_size
  bloom ←
      if uint64_le (drop 56 footer) == magic_number
      then read_at file (uint64_le (drop 16 footer)) (uint64_le (drop 24 footer))
      else none
  filter ← deserialize bloom
  bytes ← read_at file (uint64_le footer) (uint64_le (drop 8 footer))
  index ← decode_index bytes
  some (record { min_key = []; max_key = []; entry_count = 0; filter = filter; index = index })

module _ (checksum : List ℕ → ℕ) where
  -- `Finish`: the bytes of the file, and what it returns
  unfoldable pub finish : Writer → List ℕ × SsTableMeta
  finish w0 =
      let w = flush_block checksum w0 in
      let index = write_index w.index in
      let bloom = serialize w.filter in
      let bloom_offset = w.offset + length index in
      (
        w.written
            ++ (index
                ++ (bloom ++ write_footer w.offset (length index) bloom_offset (length bloom) w)),
        record {
          min_key = w.min_key;
          max_key = w.max_key;
          entry_count = w.entry_count;
          filter = w.filter;
          index = w.index;
        },
      )

  -- The length is an `int32`; a shorter block than its header panics, one shorter than the header
  -- says too.
  unfoldable pub read_block : List ℕ → IndexEntry → Option (List ℕ)
  read_block file i = do
    buf ← if leb 2147483648 i.length then none else read_at file i.offset i.length
    bytes ←
        if ltb (length buf) 8 || ltb (length buf) (8 + uint32_le (drop 4 buf))
        then none
        else some (take (uint32_le (drop 4 buf)) (drop 8 buf))
    if checksum bytes == uint32_le buf then some bytes else none

  -- `Reader.Get`: the inner `none` is that the key is not found.
  unfoldable pub get_from : GoString → List ℕ → SsTableMeta → Option (Option Entry)
  get_from key file m = do
    might ← might_contain key m
    elim might [
      | false ↦ some none
      | true ↦ elim (find_block key m) [
        | none ↦ some none
        | some i ↦ elim (read_block file i) [
          | none ↦ none
          | some bytes ↦ some (search_block bytes key)
        ]
      ]
    ]

  -- `SSTableIterator.Next`, on what is left of the index and of the block's entries: the entry and
  -- what is left then, `none` at the end.
  unfoldable pub next :
      List ℕ → List IndexEntry → List Entry → Option (Option (Entry × List IndexEntry × List Entry))
  next file is (e ∷ es) = some (some (e, is, es))
  next file [] [] = some none
  next file (i ∷ is) [] = elim (read_block file i) [
    | none ↦ none
    | some bytes ↦ next file is (decode_block bytes)
  ]

  -- The loop over `Next` to its end, on fuel.
  unfoldable pub drain : ℕ → List ℕ → List IndexEntry → List Entry → Option (List Entry)
  drain zero file is es = none
  drain (suc n) file is es = elim (next file is es) [
    | none ↦ none
    | some none ↦ some []
    | some (some (e, is', es')) ↦ elim (drain n file is' es') [
      | none ↦ none
      | some rest ↦ some (e ∷ rest)
    ]
  ]
