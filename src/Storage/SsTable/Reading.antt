-- ===== src/Storage/SsTable/Reading.antt =====
-- The blocks of a file, read one after another.
use mathlib.Core.List.{append_assoc}
use hermes.Base.{
  ℕ, zero, suc, ◌+◌, ◌%◌, ◌<◌, ◌≡◌, refl, sym, ap, ◌∙◌, subst, true, false, some, List, [], ◌∷◌,
  ◌++◌, ltb, leb, ◌==◌, length, length-append, take, drop, arith,
}
use hermes.Storage.Command.{put_uint32}
use hermes.Storage.Wal.Record.{uint32_le}
use hermes.Storage.Wal.Record.RoundTrip.{uint32_le-put}
use hermes.Storage.SkipList.{Entry}
use hermes.Storage.SsTable.{IndexEntry, block_bytes}
use hermes.Storage.SsTable.Files.{read_at, read_block, next, drain}
use hermes.Storage.SsTable.Blocks.{AllFit, encode_all, all_stored, stored, decode_block-encode}
use hermes.Storage.SsTable.Writing.{
  joined, NoneEmpty, block_file, index_of, length-block_bytes, Room, encode_all-append,
}
use hermes.Storage.SsTable.Footer.{read_at-middle, take-all}

pub AllFit-left : (es fs : List Entry) → AllFit (es ++ fs) → AllFit es
AllFit-left [] fs h = tt
AllFit-left (e ∷ es) fs (here, h) = (here, AllFit-left es fs h)

pub AllFit-right : (es fs : List Entry) → AllFit (es ++ fs) → AllFit fs
AllFit-right [] fs h = h
AllFit-right (e ∷ es) fs (here, h) = AllFit-right es fs h

module _ (checksum : List ℕ → ℕ) (small : (bs : List ℕ) → checksum bs < 4294967296) where
  block_sum : (buf : List ℕ) → uint32_le (block_bytes checksum buf) ≡ checksum buf % 4294967296
  unfolding block_bytes
  block_sum buf = uint32_le-put (checksum buf) (put_uint32 (length buf) ++ buf)

  block_length :
      (buf : List ℕ)
      → length buf < 2147483640
      → uint32_le (drop 4 (block_bytes checksum buf)) ≡ length buf
  unfolding block_bytes put_uint32
  block_length buf room = omega (arith, uint32_le-put (length buf) buf, room)

  block_data : (buf : List ℕ) → drop 8 (block_bytes checksum buf) ≡ buf
  unfolding block_bytes put_uint32
  block_data buf = refl

  -- A block between other bytes.
  read_block-middle :
      (pre post buf : List ℕ) (i : IndexEntry)
      → i.offset ≡ length pre
      → i.length ≡ 8 + length buf
      → length buf < 2147483640
      → read_block checksum (pre ++ (block_bytes checksum buf ++ post)) i ≡ some buf
  unfolding read_block
  read_block-middle pre post buf i at len room =
      let whole = block_bytes checksum buf in
      let short : leb 2147483648 i.length ≡ false = ground (arith, len, room) in
      let read : read_at (pre ++ (whole ++ post)) i.offset i.length ≡ some whole =
        read_at-middle i.offset i.length pre whole post at
          (omega (arith, len, length-block_bytes checksum buf)) in
      let long : ltb (length whole) 8 ≡ false = ground (arith, length-block_bytes checksum buf) in
      let said : uint32_le (drop 4 whole) ≡ length buf = block_length buf room in
      let taken : take (length buf) (drop 8 whole) ≡ buf =
        ap (take (length buf)) (block_data buf) ∙ take-all buf in
      let enough : ltb (length whole) (8 + length buf) ≡ false =
        ground (arith, length-block_bytes checksum buf) in
      let sum : uint32_le whole ≡ checksum buf = omega (arith, block_sum buf, small buf) in
      let same : (checksum buf == checksum buf) ≡ true = ground arith in
      rw (short, read, long, said, enough, taken, sum, same) refl

  -- The entries of a block come out before the next block is read.
  drain-entries :
      (es rest : List Entry) (file : List ℕ) (is : List IndexEntry) (n k : ℕ)
      → length es + n ≡ k
      → drain checksum n file is [] ≡ some rest
      → drain checksum k file is es ≡ some (es ++ rest)
  unfolding drain next
  drain-entries [] rest file is n k e h =
      let same : n ≡ k = omega (arith, e) in
      subst (λ m. drain checksum m file is [] ≡ some rest) same h
  drain-entries (f ∷ es) rest file is n zero e h = absurd (omega (arith, e))
  drain-entries (f ∷ es) rest file is n (suc k) e h =
      ground (arith, drain-entries es rest file is n k (omega (arith, e)) h)

  next-block :
      (file : List ℕ) (i : IndexEntry) (is : List IndexEntry) (e : Entry) (es : List Entry)
      → read_block checksum file i ≡ some (encode_all (e ∷ es))
      → AllFit (e ∷ es)
      → next checksum file (i ∷ is) [] ≡ some (some (stored e, is, all_stored es))
  unfolding next
  next-block file i is e es read fits = ground (arith, read, decode_block-encode (e ∷ es) fits)

  all_stored-append : (es fs : List Entry) → all_stored es ++ all_stored fs ≡ all_stored (es ++ fs)
  all_stored-append [] fs = refl
  all_stored-append (e ∷ es) fs = ap (λ gs. stored e ∷ gs) (all_stored-append es fs)

  length-all_stored : (es : List Entry) → length (all_stored es) ≡ length es
  length-all_stored [] = refl
  length-all_stored (e ∷ es) = ap suc (length-all_stored es)

  regroup : (pre b f post : List ℕ) → (pre ++ b) ++ (f ++ post) ≡ pre ++ (b ++ (f ++ post))
  regroup pre b f post = append_assoc pre b (f ++ post)

  pub drain_lem :
      (bs : List (List Entry)) (pre post : List ℕ) (offset : ℕ)
      → offset ≡ length pre
      → NoneEmpty bs
      → AllFit (joined bs)
      → Room (joined bs)
      → drain checksum
          (suc (length (joined bs)))
          (pre ++ (block_file checksum bs ++ post))
          (index_of checksum offset bs)
          []
        ≡ some (all_stored (joined bs))
  unfolding drain next block_file index_of
  drain_lem [] pre post offset at full fits room = refl
  drain_lem ([] ∷ bs) pre post offset at full fits room = absurd full
  drain_lem ((e ∷ es) ∷ bs) pre post offset at full fits room =
      let b = e ∷ es in
      let bytes = block_bytes checksum (encode_all b) in
      let file = pre ++ ((bytes ++ block_file checksum bs) ++ post) in
      let i : IndexEntry = record {
        key = e.key;
        offset = offset;
        length = 8 + length (encode_all b);
      } in
      let is = index_of checksum (offset + (8 + length (encode_all b))) bs in
      let n1 = length-append {0} b (joined bs) in
      let n2 = ap length (encode_all-append b (joined bs)) in
      let n3 = length-append {0} (encode_all b) (encode_all (joined bs)) in
      let same1 : pre ++ (bytes ++ (block_file checksum bs ++ post)) ≡ file =
        ap (λ f. pre ++ f) (sym (append_assoc bytes (block_file checksum bs) post)) in
      let same2 : (pre ++ bytes) ++ (block_file checksum bs ++ post) ≡ file =
        regroup pre bytes (block_file checksum bs) post ∙ same1 in
      let read : read_block checksum file i ≡ some (encode_all b) =
        subst (λ f. read_block checksum f i ≡ some (encode_all b)) same1
          (read_block-middle pre (block_file checksum bs ++ post) (encode_all b) i at refl
            (omega (arith, room, n1, n2, n3))) in
      let first = next-block file i is e es read (AllFit-left b (joined bs) fits) in
      let at' : offset + (8 + length (encode_all b)) ≡ length (pre ++ bytes) =
        omega
          (arith, at, length-append {0} pre bytes, length-block_bytes checksum (encode_all b)) in
      let ih =
        drain_lem bs (pre ++ bytes) post (offset + (8 + length (encode_all b))) at' full
          (AllFit-right b (joined bs) fits) (omega (arith, room, n1, n2, n3)) in
      let ih' =
        subst
          (λ f. drain checksum (suc (length (joined bs))) f is [] ≡ some (all_stored (joined bs)))
          same2 ih in
      let rest =
        drain-entries (all_stored es) (all_stored (joined bs)) file is (suc (length (joined bs)))
          (length (b ++ joined bs)) (omega (arith, length-all_stored es, n1)) ih' in
      let whole : drain checksum (suc (length (b ++ joined bs))) file (i ∷ is) []
          ≡ some (stored e ∷ (all_stored es ++ all_stored (joined bs))) =
        ground (arith, first, rest) in
      whole ∙ ap (λ fs. some (stored e ∷ fs)) (all_stored-append es (joined bs))
