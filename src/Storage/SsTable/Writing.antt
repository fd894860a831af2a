-- ===== src/Storage/SsTable/Writing.antt =====
-- What a writer has put into its file.
use mathlib.Core.List.{append-nil, append_assoc}
use hermes.Base.{
  ℕ, zero, suc, ◌+◌, ◌*◌, ◌/◌, ◌%◌, ◌<◌, ◌≤◌, ◌≡◌, refl, sym, ap, ◌∙◌, subst, false, List, [], ◌∷◌,
  ◌++◌, ◌==◌, length, length-append, GoString, u64, u64_mod, inl, inr, ◌⊎◌, arith,
}
use hermes.Storage.Command.{put_uint32}
use hermes.Storage.SkipList.{Entry}
use hermes.Storage.Bloom.{new_filter, whole_words, zeros}
use hermes.Storage.Bloom.Membership.{IsSized}
use hermes.Storage.SsTable.{IndexEntry, Writer, new_writer, encode_entry, block_bytes, flush_block}
use hermes.Storage.SsTable.Blocks.{encode_all}

abbrev pub keys_of : List Entry → List GoString
keys_of [] = []
keys_of (e ∷ es) = e.key ∷ keys_of es

pub encode_all-append :
    (es fs : List Entry) → encode_all (es ++ fs) ≡ encode_all es ++ encode_all fs
unfolding encode_all
encode_all-append [] fs = refl
encode_all-append (e ∷ es) fs =
    ap (λ bs. encode_entry e ++ bs) (encode_all-append es fs)
    ∙ sym (append_assoc (encode_entry e) (encode_all es) (encode_all fs))

pub encode_none : encode_all [] ≡ []
unfolding encode_all
encode_none = refl

pub keys_of-append : (es fs : List Entry) → keys_of (es ++ fs) ≡ keys_of es ++ keys_of fs
keys_of-append [] fs = refl
keys_of-append (e ∷ es) fs = ap (λ ks. e.key ∷ ks) (keys_of-append es fs)

abbrev pub joined : List (List Entry) → List Entry
joined [] = []
joined (b ∷ bs) = b ++ joined bs

pub joined-append :
    (bs : List (List Entry)) (b : List Entry) → joined (bs ++ (b ∷ [])) ≡ joined bs ++ b
joined-append [] [] = refl
joined-append [] (e ∷ es) = ap (λ fs. e ∷ fs) (joined-append [] es)
joined-append (c ∷ bs) b =
    ap (λ es. c ++ es) (joined-append bs b) ∙ sym (append_assoc c (joined bs) b)

abbrev pub NoneEmpty : List (List Entry) → Type 0
NoneEmpty [] = Unit {0}
NoneEmpty ([] ∷ bs) = ⊥
NoneEmpty ((e ∷ es) ∷ bs) = NoneEmpty bs

NoneEmpty-append :
    (bs : List (List Entry)) (e : Entry) (es : List Entry)
    → NoneEmpty bs
    → NoneEmpty (bs ++ ((e ∷ es) ∷ []))
NoneEmpty-append [] e es h = tt
NoneEmpty-append ([] ∷ bs) e es h = absurd h
NoneEmpty-append ((f ∷ fs) ∷ bs) e es h = NoneEmpty-append bs e es h

pub some_bytes : (e : Entry) (es : List Entry) → 0 < length (encode_all (e ∷ es))
unfolding encode_all encode_entry put_uint32
some_bytes e es = omega arith

-- The entries take less than two gigabytes.
abbrev pub Room : List Entry → Type 0
Room es = 8 * length es + length (encode_all es) < 2147483640

length-zeros : (n : ℕ) → length (zeros n) ≡ n
length-zeros zero = refl
length-zeros (suc n) = ap suc (length-zeros n)

module _ (checksum : List ℕ → ℕ) where
  -- The bytes of the blocks, and the index that leads to them from an offset on.
  unfoldable pub block_file : List (List Entry) → List ℕ
  block_file [] = []
  block_file (b ∷ bs) = block_bytes checksum (encode_all b) ++ block_file bs

  abbrev pub index_entry : ℕ → List Entry → List IndexEntry
  index_entry offset [] = []
  index_entry offset (e ∷ es) =
      record { key = e.key; offset = offset; length = 8 + length (encode_all (e ∷ es)) } ∷ []

  unfoldable pub index_of : ℕ → List (List Entry) → List IndexEntry
  index_of offset [] = []
  index_of offset (b ∷ bs) =
      index_entry offset b ++ index_of (offset + (8 + length (encode_all b))) bs

  pub length-block_bytes : (buf : List ℕ) → length (block_bytes checksum buf) ≡ 8 + length buf
  unfolding block_bytes put_uint32
  length-block_bytes buf = omega arith

  block_file-append :
      (bs : List (List Entry)) (b : List Entry)
      → block_file (bs ++ (b ∷ [])) ≡ block_file bs ++ block_bytes checksum (encode_all b)
  unfolding block_file
  block_file-append [] b = append-nil (block_bytes checksum (encode_all b))
  block_file-append (c ∷ bs) b =
      ap (λ f. block_bytes checksum (encode_all c) ++ f) (block_file-append bs b)
      ∙ sym (
          append_assoc (block_bytes checksum (encode_all c)) (block_file bs)
            (block_bytes checksum (encode_all b)))

  index_of-append :
      (offset : ℕ) (bs : List (List Entry)) (b : List Entry)
      → index_of offset (bs ++ (b ∷ []))
        ≡ index_of offset bs ++ index_entry (offset + length (block_file bs)) b
  unfolding index_of block_file
  index_of-append offset [] b =
      append-nil (index_entry offset b) ∙ ap (λ o. index_entry o b) (omega arith)
  index_of-append offset (c ∷ bs) b =
      let next : offset + (8 + length (encode_all c)) + length (block_file bs)
          ≡ offset + length (block_bytes checksum (encode_all c) ++ block_file bs) =
        omega (
          arith,
          length-append {0} (block_bytes checksum (encode_all c)) (block_file bs),
          length-block_bytes (encode_all c),
        ) in
      ap (λ is. index_entry offset c ++ is)
        (index_of-append (offset + (8 + length (encode_all c))) bs b)
      ∙ sym (
          append_assoc (index_entry offset c) (index_of (offset + (8 + length (encode_all c))) bs)
            (index_entry (offset + (8 + length (encode_all c)) + length (block_file bs)) b))
      ∙ ap (λ o. index_of offset (c ∷ bs) ++ index_entry o b) next

  -- The full blocks in the file, and the entries of the block that is being filled.
  pub record Written (w : Writer) (bs : List (List Entry)) (now : List Entry) : Type 0 where
    pub file : w.written ≡ block_file bs
    pub offset : w.offset ≡ length w.written
    pub buf : w.block_buf ≡ encode_all now
    pub keys : w.block_keys ≡ keys_of now
    pub start : (now ≡ []) ⊎ (w.block_offset ≡ w.offset)
    pub index : w.index ≡ index_of 0 bs
    pub some_entries : NoneEmpty bs
    pub sized : IsSized w.filter
    pub few_bits : w.filter.m < u64_mod
    pub bytes : length w.written ≤ 8 * length (joined bs) + length (encode_all (joined bs))

  -- A new writer, whose filter has a bit at least.
  pub new_writer-Written :
      (m : ℕ) (hashes : ℕ → ℕ)
      → 0 < m
      → m < 18446744073709551552
      → Written (new_writer m hashes) [] []
  unfolding new_writer new_filter block_file index_of
  new_writer-Written m hashes some' small = record {
    file = refl;
    offset = refl;
    buf = sym encode_none;
    keys = refl;
    start = inl refl;
    index = refl;
    some_entries = tt;
    sized = record {
      some_bits = omega (arith, some', small);
      words = omega (arith, length-zeros (whole_words m / 64));
    };
    few_bits = omega arith;
    bytes = omega arith;
  }

  abbrev flushed : Writer → GoString → Writer
  flushed w key = record w {
    written = w.written ++ block_bytes checksum w.block_buf;
    offset = u64 (w.offset + (8 + length w.block_buf));
    block_buf = [];
    block_keys = [];
    index =
        w.index
        ++ (record {
          key = key;
          offset = w.block_offset;
          length = (8 + length w.block_buf) % 4294967296;
        }
            ∷ []);
  }

  flush_block-full :
      (w : Writer) (key : GoString) (keys : List GoString)
      → w.block_keys ≡ key ∷ keys
      → 0 < length w.block_buf
      → flush_block checksum w ≡ flushed w key
  unfolding flush_block
  flush_block-full w key keys named some' =
      let filled : (length w.block_buf == 0) ≡ false = ground (arith, some') in
      rw (filled, named) refl

  pub flush_block-Written :
      (w : Writer) (bs : List (List Entry)) (e : Entry) (es : List Entry)
      → Written w bs (e ∷ es)
      → Room (joined bs ++ (e ∷ es))
      → Written (flush_block checksum w) (bs ++ ((e ∷ es) ∷ [])) []
  flush_block-Written w bs e es h room =
      let now = e ∷ es in
      let len : length w.block_buf ≡ length (encode_all now) = ap length h.buf in
      let n1 = length-append {0} (joined bs) now in
      let n2 = ap length (encode_all-append (joined bs) now) in
      let n3 = length-append {0} (encode_all (joined bs)) (encode_all now) in
      let grown : length (w.written ++ block_bytes checksum w.block_buf)
          ≡ length w.written + (8 + length w.block_buf) =
        omega (
          arith,
          length-append {0} w.written (block_bytes checksum w.block_buf),
          length-block_bytes w.block_buf,
        ) in
      let small : length w.written + (8 + length w.block_buf)
          ≤ 8 * length (joined bs ++ now) + length (encode_all (joined bs ++ now)) =
        omega (arith, h.bytes, n1, n2, n3, len) in
      let at : w.block_offset ≡ 0 + length (block_file bs) = elim h.start [
        | inl none_now ↦ absurd (ground (arith, none_now))
        | inr here ↦ omega (arith, here, h.offset, ap length h.file)
      ] in
      let len' : (8 + length w.block_buf) % 4294967296 ≡ 8 + length (encode_all now) =
        omega (arith, small, room, len) in
      subst (λ w'. Written w' (bs ++ (now ∷ [])) [])
        (sym (flush_block-full w e.key (keys_of es) h.keys (omega (arith, len, some_bytes e es))))
        (record {
          file =
              ap (λ f. f ++ block_bytes checksum w.block_buf) h.file
              ∙ ap (λ b. block_file bs ++ block_bytes checksum b) h.buf
              ∙ sym (block_file-append bs now);
          offset = omega (arith, h.offset, grown, small, room);
          buf = sym encode_none;
          keys = refl;
          start = inl refl;
          index =
              ap
                (λ is.
                  is
                  ++ (record {
                    key = e.key;
                    offset = w.block_offset;
                    length = (8 + length w.block_buf) % 4294967296;
                  }
                      ∷ []))
                h.index
              ∙ ap
                  (λ o.
                    index_of 0 bs
                    ++ (record {
                      key = e.key;
                      offset = o;
                      length = (8 + length w.block_buf) % 4294967296;
                    }
                        ∷ []))
                  at
              ∙ ap
                  (λ n.
                    index_of 0 bs
                    ++ (record { key = e.key; offset = 0 + length (block_file bs); length = n }
                        ∷ []))
                  len'
              ∙ sym (index_of-append 0 bs now);
          some_entries = NoneEmpty-append bs e es h.some_entries;
          sized = h.sized;
          few_bits = h.few_bits;
          bytes =
              subst
                (λ fs.
                  length (w.written ++ block_bytes checksum w.block_buf)
                  ≤ 8 * length fs + length (encode_all fs))
                (sym (joined-append bs now)) (omega (arith, grown, small));
        })
