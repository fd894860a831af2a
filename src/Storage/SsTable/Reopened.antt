-- ===== src/Storage/SsTable/Reopened.antt =====
-- A file that a writer finished, opened again.
use mathlib.Core.List.{append_assoc}
use hermes.Base.{
  ℕ, suc, ◌+◌, ◌-◌, ◌*◌, ◌<◌, ◌≤◌, ◌≡◌, ◌≢◌, refl, sym, ap, ◌∙◌, subst, true, false, none, some,
  List, [], ◌∷◌, ◌++◌, ltb, ◌||◌, length, length-append, GoString, str_lt, u64_mod, arith,
}
use hermes.Storage.Command.{put_uint32}
use hermes.Storage.SkipList.{Entry}
use hermes.Storage.Bloom.{serialize}
use hermes.Storage.SsTable.{
  IndexEntry, SsTableMeta, Writer, new_writer, flush_block, encode_index_entry,
  encode_index_entries, write_index, might_contain, footer_size,
}
use hermes.Storage.SsTable.Files.{read_at, open_reader, finish, get_from, drain, write_footer}
use hermes.Storage.SsTable.Blocks.{AllFit, encode_all, all_stored}
use hermes.Storage.SsTable.Writing.{
  joined, NoneEmpty, index_of, Room, Written, encode_all-append, new_writer-Written,
}
use hermes.Storage.Bloom.Membership.{IsSized}
use hermes.Storage.SsTable.Adding.{add_all, add_all_lem, flush_block_lem}
use hermes.Storage.SsTable.Index.{IndexFits, decode_index-write_index}
use hermes.Storage.SsTable.Footer.{
  length-write_footer, first_field, second_field, third_field, fourth_field, magic_field,
  read_at-last, read_at-middle,
}
use hermes.Storage.SsTable.Reading.{drain_lem, AllFit-right}
use hermes.Storage.SsTable.Parts.{
  length-serialize, deserialize-some, length-first_key, length-encode_index_entry, open_reader_lem,
}

module _ (checksum : List ℕ → ℕ) where
  index_of-bounds :
      (offset : ℕ) (bs : List (List Entry))
      → NoneEmpty bs
      → AllFit (joined bs)
      → offset + (8 * length (joined bs) + length (encode_all (joined bs))) < 2147483640
      → IndexFits (index_of checksum offset bs)
        × (length (index_of checksum offset bs) ≤ length (joined bs))
        × (length (encode_index_entries (index_of checksum offset bs))
            ≤ 16 * length (joined bs) + length (encode_all (joined bs)))
  unfolding index_of encode_index_entries
  index_of-bounds offset [] full fits room = (tt, omega arith, omega arith)
  index_of-bounds offset ([] ∷ bs) full fits room = absurd full
  index_of-bounds offset ((e ∷ es) ∷ bs) full fits room =
      let b = e ∷ es in
      let next = offset + (8 + length (encode_all b)) in
      let i : IndexEntry = record {
        key = e.key;
        offset = offset;
        length = 8 + length (encode_all b);
      } in
      let rest = index_of checksum next bs in
      let n1 = length-append {0} b (joined bs) in
      let n2 = ap length (encode_all-append b (joined bs)) in
      let n3 = length-append {0} (encode_all b) (encode_all (joined bs)) in
      let (fit, short, few) =
        index_of-bounds next bs full (AllFit-right b (joined bs) fits)
          (omega (arith, room, n1, n2, n3)) in
      let key : length e.key + 1 ≤ length (encode_all b) = length-first_key e es in
      (
        (
          omega (arith, room, n1, n2, n3, key),
          omega (arith, room),
          omega (arith, room, n1, n2, n3),
          fit,
        ),
        omega (arith, n1, short),
        omega (
          arith,
          n1,
          n2,
          n3,
          few,
          key,
          length-append {0} (encode_index_entry i) (encode_index_entries rest),
          length-encode_index_entry i,
        ),
      )

  module _ (w : Writer) (cs : List (List Entry)) (h : Written checksum w cs [])
      (fits : AllFit (joined cs)) (room : Room (joined cs)) where
    abbrev index_bytes : List ℕ
    index_bytes = write_index w.index

    abbrev bloom_bytes : List ℕ
    bloom_bytes = serialize w.filter

    abbrev bloom_at : ℕ
    bloom_at = w.offset + length index_bytes

    abbrev footer : List ℕ
    footer = write_footer w.offset (length index_bytes) bloom_at (length bloom_bytes) w

    abbrev file : List ℕ
    file = w.written ++ (index_bytes ++ (bloom_bytes ++ footer))

    bounds :
        IndexFits w.index
        × (length w.index ≤ length (joined cs))
        × (length (encode_index_entries w.index)
            ≤ 16 * length (joined cs) + length (encode_all (joined cs)))
    bounds =
        subst
          (λ is.
            IndexFits is
            × (length is ≤ length (joined cs))
            × (length (encode_index_entries is)
                ≤ 16 * length (joined cs) + length (encode_all (joined cs))))
          (sym h.index) (index_of-bounds 0 cs h.some_entries fits (omega (arith, room)))

    length-index_bytes : length index_bytes ≡ 4 + length (encode_index_entries w.index)
    unfolding write_index put_uint32
    length-index_bytes = omega arith

    small_offset : w.offset < 4294967296
    small_offset = omega (arith, h.offset, h.bytes, room)

    small_index : length index_bytes < 8589934592
    small_index = let (fit, short, few) = bounds in omega (arith, length-index_bytes, few, room)

    small_bloom : length bloom_bytes < u64_mod
    small_bloom = omega (arith, length-serialize w.filter, h.sized.words, h.few_bits)

    at_end : read_at file (length file - footer_size) footer_size ≡ some footer
    at_end =
        let size : length footer ≡ footer_size =
          length-write_footer w.offset (length index_bytes) bloom_at (length bloom_bytes) w in
        let same : (w.written ++ (index_bytes ++ bloom_bytes)) ++ footer ≡ file =
          append_assoc w.written (index_bytes ++ bloom_bytes) footer
          ∙ ap (λ f. w.written ++ f) (append_assoc index_bytes bloom_bytes footer) in
        subst (λ n. read_at file (length file - n) n ≡ some footer) size
          (subst (λ f. read_at f (length f - length footer) (length footer) ≡ some footer) same
            (read_at-last (w.written ++ (index_bytes ++ bloom_bytes)) footer))

    at_bloom : read_at file bloom_at (length bloom_bytes) ≡ some bloom_bytes
    at_bloom =
        let start : bloom_at ≡ length (w.written ++ index_bytes) =
          omega (arith, h.offset, length-append {0} w.written index_bytes) in
        subst (λ f. read_at f bloom_at (length bloom_bytes) ≡ some bloom_bytes)
          (append_assoc w.written index_bytes (bloom_bytes ++ footer))
          (read_at-middle bloom_at (length bloom_bytes) (w.written ++ index_bytes) bloom_bytes
            footer start refl)

    at_index : read_at file w.offset (length index_bytes) ≡ some index_bytes
    at_index =
        read_at-middle w.offset (length index_bytes) w.written index_bytes (bloom_bytes ++ footer)
          h.offset refl

    long : ltb (length file) footer_size ≡ false
    long = ground (
      arith,
      length-append {0} w.written (index_bytes ++ (bloom_bytes ++ footer)),
      length-append {0} index_bytes (bloom_bytes ++ footer),
      length-append {0} bloom_bytes footer,
      length-write_footer w.offset (length index_bytes) bloom_at (length bloom_bytes) w,
    )

    opened :
        (m : SsTableMeta) × (open_reader file ≡ some m) × (m.index ≡ w.index) × (m.max_key ≡ [])
    opened =
        let (filter, restored) = deserialize-some w.filter in
        let (fit, short, few) = bounds in
        let decoded = decode_index-write_index w.index (omega (arith, short, room)) fit in
        let f1 =
          first_field w.offset (length index_bytes) bloom_at (length bloom_bytes) w
            (omega (arith, small_offset)) in
        let f2 =
          second_field w.offset (length index_bytes) bloom_at (length bloom_bytes) w
            (omega (arith, small_index)) in
        let f3 =
          third_field w.offset (length index_bytes) bloom_at (length bloom_bytes) w
            (omega (arith, small_offset, small_index)) in
        let f4 =
          fourth_field w.offset (length index_bytes) bloom_at (length bloom_bytes) w small_bloom in
        let f5 = magic_field w.offset (length index_bytes) bloom_at (length bloom_bytes) w in
        (
          record { min_key = []; max_key = []; entry_count = 0; filter = filter; index = w.index },
          open_reader_lem file footer bloom_bytes index_bytes w.offset (length index_bytes) bloom_at
              (length bloom_bytes) filter w.index long at_end f1 f2 f3 f4 f5 at_bloom restored
              at_index decoded,
          refl,
          refl,
        )

-- The metadata of a reopened file have no greatest key, so no other key than the empty one can be in.
get_from-no_max :
    (checksum : List ℕ → ℕ) (key : GoString) (file : List ℕ) (m : SsTableMeta)
    → m.max_key ≡ []
    → key ≢ []
    → get_from checksum key file m ≡ some none
unfolding get_from might_contain
get_from-no_max checksum [] file m e filled = absurd (filled refl)
get_from-no_max checksum (c ∷ key) file m e filled =
    let out : (str_lt (c ∷ key) m.min_key || str_lt m.max_key (c ∷ key)) ≡ true =
      ground (arith, ap (λ k. str_lt k (c ∷ key)) e, empty_below c key) in
    ground (arith, out)
  where
    empty_below : (c : ℕ) (key : GoString) → str_lt [] (c ∷ key) ≡ true
    empty_below c key = unfold str_lt in refl

module _ (checksum : List ℕ → ℕ) (small : (bs : List ℕ) → checksum bs < 4294967296) where
  pub reopened :
      (m : ℕ) (hashes : ℕ → ℕ) (es : List Entry)
      → 0 < m
      → m < 18446744073709551552
      → AllFit es
      → Room es
      → (w : Writer) × (meta : SsTableMeta) × (add_all checksum es (new_writer m hashes) ≡ some w)
        × (open_reader (finish checksum w).0 ≡ some meta)
        × (drain checksum (suc (length es)) (finish checksum w).0 meta.index []
            ≡ some (all_stored es))
        × ((key : GoString)
            → key ≢ []
            → get_from checksum key (finish checksum w).0 meta ≡ some none)
        × IsSized (finish checksum w).1.filter
  unfolding finish
  reopened m hashes es some' few fits room =
      let (w, added, s) =
        add_all_lem checksum es (new_writer m hashes) [] []
          (new_writer-Written checksum m hashes some' few) room in
      let (cs, written, all) =
        flush_block_lem checksum w s.blocks s.now s.written (subst Room (sym s.entries) room) in
      let same : es ≡ joined cs = sym (all ∙ s.entries) in
      let fits' = subst AllFit same fits in
      let room' = subst Room same room in
      let w' = flush_block checksum w in
      let (meta, opens, is, none_max) = opened checksum w' cs written fits' room' in
      let post =
        index_bytes checksum w' cs written fits' room'
        ++ (bloom_bytes checksum w' cs written fits' room'
            ++ footer checksum w' cs written fits' room') in
      let from_blocks =
        drain_lem checksum small cs [] post 0 refl written.some_entries fits' room' in
      let from_file =
        subst
          (λ f.
            drain checksum (suc (length (joined cs))) (f ++ post) (index_of checksum 0 cs) []
            ≡ some (all_stored (joined cs)))
          (sym written.file) from_blocks in
      let from_index =
        subst
          (λ i.
            drain checksum (suc (length (joined cs))) (w'.written ++ post) i []
            ≡ some (all_stored (joined cs)))
          (sym (is ∙ written.index)) from_file in
      (
        w,
        meta,
        added,
        opens,
        subst
            (λ fs.
              drain checksum (suc (length fs)) (w'.written ++ post) meta.index []
              ≡ some (all_stored fs))
            (sym same) from_index,
        λ key filled. get_from-no_max checksum key (finish checksum w).0 meta none_max filled,
        written.sized,
      )

  -- Entries added to a new writer, whose filter has a bit at least, are all in its file: the writer
  -- does not panic, the finished file opens, and the iterator over it gives them in their order, all
  -- but their sequences. The entries take less than two gigabytes and their lengths fit in 32 bits.
  pub open_reader-finish :
      (m : ℕ) (hashes : ℕ → ℕ) (es : List Entry)
      → 0 < m
      → m < 18446744073709551552
      → AllFit es
      → Room es
      → (w : Writer) × (meta : SsTableMeta) × (add_all checksum es (new_writer m hashes) ≡ some w)
        × (open_reader (finish checksum w).0 ≡ some meta)
        × (drain checksum (suc (length es)) (finish checksum w).0 meta.index []
            ≡ some (all_stored es))
  open_reader-finish m hashes es some' few fits room =
      let (w, meta, added, opens, drained, lost, sized) =
        reopened m hashes es some' few fits room in
      (w, meta, added, opens, drained)

  -- `Get` on the file that a writer finished, opened again, finds no key but the empty one, also where
  -- the key was added.
  pub get_from-finish :
      (m : ℕ) (hashes : ℕ → ℕ) (es : List Entry) (key : GoString)
      → 0 < m
      → m < 18446744073709551552
      → AllFit es
      → Room es
      → key ≢ []
      → (w : Writer) × (meta : SsTableMeta) × (add_all checksum es (new_writer m hashes) ≡ some w)
        × (open_reader (finish checksum w).0 ≡ some meta)
        × (get_from checksum key (finish checksum w).0 meta ≡ some none)
  get_from-finish m hashes es key some' few fits room filled =
      let (w, meta, added, opens, drained, lost, sized) =
        reopened m hashes es some' few fits room in
      (w, meta, added, opens, lost key filled)
