-- ===== src/Storage/SsTable/Adding.antt =====
-- Entries added to a writer one after another.
use mathlib.Core.List.{append-nil, append_assoc}
use hermes.Base.{
  ℕ, ◌+◌, ◌<◌, ◌≡◌, refl, sym, ap, ◌∙◌, subst, Bool, true, false, ◌&&◌, Option, none, some, List,
  [], ◌∷◌, ◌++◌, ltb, ◌==◌, if◌then◌else◌, length, length-append, str_eq, str_lt, ◌||◌, u64, inl,
  inr, arith,
}
use hermes.Storage.SkipList.{Entry}
use hermes.Storage.Bloom.Membership.{add_lem}
use hermes.Storage.SsTable.{Writer, encode_entry, flush_block, start_block, add_entry, block_size}
use hermes.Storage.SsTable.Blocks.{encode_all}
use hermes.Storage.SsTable.Writing.{
  joined, encode_all-append, keys_of-append, encode_none, some_bytes, Written, Room,
  flush_block-Written, joined-append,
}

unfoldable pub add_all : (List ℕ → ℕ) → List Entry → Writer → Option Writer
add_all checksum [] w = some w
add_all checksum (e ∷ es) w = elim (add_entry checksum e w) [
  | none ↦ none
  | some w' ↦ add_all checksum es w'
]

Room-left : (es fs : List Entry) → Room (es ++ fs) → Room es
Room-left es fs room = omega (
  arith,
  room,
  length-append {0} es fs,
  ap length (encode_all-append es fs),
  length-append {0} (encode_all es) (encode_all fs),
)

module _ (checksum : List ℕ → ℕ) where
  -- What a flush or none makes of the blocks, which together hold the same entries.
  pub record Same (w : Writer) (es : List Entry) : Type 0 where
    pub blocks : List (List Entry)
    pub now : List Entry
    pub written : Written checksum w blocks now
    pub entries : joined blocks ++ now ≡ es

  flush_when :
      (b : Bool) (w : Writer) (bs : List (List Entry)) (now : List Entry)
      → (b ≡ true → 0 < length w.block_buf)
      → Written checksum w bs now
      → Room (joined bs ++ now)
      → Same (if b then flush_block checksum w else w) (joined bs ++ now)
  flush_when false w bs now filled h room = record {
    blocks = bs;
    now = now;
    written = h;
    entries = refl;
  }
  flush_when true w bs [] filled h room =
      absurd (omega (arith, filled refl, ap length h.buf, ap length encode_none))
  flush_when true w bs (e ∷ es) filled h room = record {
    blocks = bs ++ ((e ∷ es) ∷ []);
    now = [];
    written = flush_block-Written checksum w bs e es h room;
    entries = append-nil (joined (bs ++ ((e ∷ es) ∷ []))) ∙ joined-append bs (e ∷ es);
  }

  start_block_lem :
      (w : Writer) (bs : List (List Entry)) (now : List Entry)
      → Written checksum w bs now
      → Written checksum (start_block w) bs now
        × ((start_block w).block_offset ≡ (start_block w).offset)
  unfolding start_block
  start_block_lem w bs [] h =
      let empty : (length w.block_buf == 0) ≡ true =
        ground (arith, ap length h.buf, ap length encode_none) in
      rw empty (
        record {
          file = h.file;
          offset = h.offset;
          buf = h.buf;
          keys = refl;
          start = inl refl;
          index = h.index;
          some_entries = h.some_entries;
          sized = h.sized;
          few_bits = h.few_bits;
          bytes = h.bytes;
        },
        refl,
      )
  start_block_lem w bs (e ∷ es) h =
      let filled : (length w.block_buf == 0) ≡ false =
        ground (arith, ap length h.buf, some_bytes e es) in
      let here : w.block_offset ≡ w.offset = elim h.start [
        | inl gone ↦ absurd (ground (arith, gone))
        | inr at ↦ at
      ] in
      rw filled (h, here)

  encode_one : (e : Entry) → encode_all (e ∷ []) ≡ encode_entry e
  unfolding encode_all
  encode_one e = append-nil (encode_entry e)

  add_entry_lem :
      (e : Entry) (w : Writer) (bs : List (List Entry)) (now : List Entry)
      → Written checksum w bs now
      → Room (joined bs ++ now)
      → (w' : Writer) × (add_entry checksum e w ≡ some w')
        × Same w' ((joined bs ++ now) ++ (e ∷ []))
  unfolding add_entry
  add_entry_lem e w bs now h room =
      let full =
        ltb block_size (length w.block_buf + length (encode_entry e))
        && ltb 0 (length w.block_buf) in
      let s = flush_when full w bs now (λ t. ground (arith, t)) h room in
      let w1 : Writer = if full then flush_block checksum w else w in
      let (h2, here) = start_block_lem w1 s.blocks s.now s.written in
      let w2 = start_block w1 in
      let (filter, added, g, contained) = add_lem e.key w2.filter h2.sized in
      let w3 : Writer = record w2 {
        block_buf = w2.block_buf ++ encode_entry e;
        block_keys = w2.block_keys ++ (e.key ∷ []);
        filter = filter;
        entry_count = u64 (w2.entry_count + 1);
        min_key = if str_eq w2.min_key [] || str_lt e.key w2.min_key then e.key else w2.min_key;
        max_key = if str_lt w2.max_key e.key then e.key else w2.max_key;
      } in
      (
        w3,
        ground (arith, added),
        record {
          blocks = s.blocks;
          now = s.now ++ (e ∷ []);
          written = record {
            file = h2.file;
            offset = h2.offset;
            buf =
                ap (λ b. b ++ encode_entry e) h2.buf
                ∙ ap (λ b. encode_all s.now ++ b) (sym (encode_one e))
                ∙ sym (encode_all-append s.now (e ∷ []));
            keys = ap (λ ks. ks ++ (e.key ∷ [])) h2.keys ∙ sym (keys_of-append s.now (e ∷ []));
            start = inr here;
            index = h2.index;
            some_entries = h2.some_entries;
            sized = g.sized;
            few_bits = omega (arith, g.same_m, h2.few_bits);
            bytes = h2.bytes;
          };
          entries =
              sym (append_assoc (joined s.blocks) s.now (e ∷ []))
              ∙ ap (λ es. es ++ (e ∷ [])) s.entries;
        },
      )

  pub add_all_lem :
      (es : List Entry) (w : Writer) (bs : List (List Entry)) (now : List Entry)
      → Written checksum w bs now
      → Room ((joined bs ++ now) ++ es)
      → (w' : Writer) × (add_all checksum es w ≡ some w') × Same w' ((joined bs ++ now) ++ es)
  unfolding add_all
  add_all_lem [] w bs now h room = (
    w,
    refl,
    record { blocks = bs; now = now; written = h; entries = sym (append-nil (joined bs ++ now)) },
  )
  add_all_lem (e ∷ es) w bs now h room =
      let fits : Room (joined bs ++ now) = Room-left (joined bs ++ now) (e ∷ es) room in
      let (w1, first, s) = add_entry_lem e w bs now h fits in
      let shift : (joined s.blocks ++ s.now) ++ es ≡ (joined bs ++ now) ++ (e ∷ es) =
        ap (λ fs. fs ++ es) s.entries ∙ append_assoc (joined bs ++ now) (e ∷ []) es in
      let (w2, rest, s2) =
        add_all_lem es w1 s.blocks s.now s.written (subst Room (sym shift) room) in
      (
        w2,
        ground (arith, first, rest),
        record {
          blocks = s2.blocks;
          now = s2.now;
          written = s2.written;
          entries = s2.entries ∙ shift;
        },
      )

  -- What is left in the buffer goes to the file at the end.
  pub flush_block_lem :
      (w : Writer) (bs : List (List Entry)) (now : List Entry)
      → Written checksum w bs now
      → Room (joined bs ++ now)
      → (cs : List (List Entry)) × Written checksum (flush_block checksum w) cs []
        × (joined cs ≡ joined bs ++ now)
  flush_block_lem w bs [] h room =
      let empty : (length w.block_buf == 0) ≡ true =
        ground (arith, ap length h.buf, ap length encode_none) in
      (bs, unfold flush_block in rw empty h, sym (append-nil (joined bs)))
  flush_block_lem w bs (e ∷ es) h room = (
    bs ++ ((e ∷ es) ∷ []),
    flush_block-Written checksum w bs e es h room,
    joined-append bs (e ∷ es),
  )
