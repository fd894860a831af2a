-- ===== src/Storage/Bloom/Bytes.antt =====
-- The bytes of a filter, and the filter that is read from them.
use hermes.Base.{
  ℕ, ◌+◌, ◌*◌, ◌/◌, ◌<◌, ◌≡◌, refl, false, some, List, [], ◌∷◌, ◌++◌, length, drop, ltb, u64_mod,
  arith,
}
use hermes.Storage.Command.{put_uint32, put_uint64}
use hermes.Storage.Wal.Record.RoundTrip.{uint64_le-put}
use hermes.Storage.Bloom.{BloomFilter, put_words, words_of, serialize, deserialize}

abbrev pub AllWords : List ℕ → Type 0
AllWords [] = Unit {0}
AllWords (w ∷ ws) = (w < u64_mod) × AllWords ws

-- What the source's types bound, and as many words as the number of bits says.
pub record IsWords (bf : BloomFilter) : Type 0 where
  pub words : AllWords bf.bitset
  pub small_m : bf.m < u64_mod
  pub small_k : bf.k < u64_mod
  pub filled : bf.m ≡ length bf.bitset * 64

drop-put_uint64 : (w : ℕ) (rest : List ℕ) → drop 8 (put_uint64 w ++ rest) ≡ rest
unfolding put_uint64 put_uint32
drop-put_uint64 w rest = refl

drop-two : (v w : ℕ) (rest : List ℕ) → drop 16 (put_uint64 v ++ (put_uint64 w ++ rest)) ≡ rest
unfolding put_uint64 put_uint32
drop-two v w rest = refl

length-put_uint64 : (w : ℕ) (rest : List ℕ) → length (put_uint64 w ++ rest) ≡ 8 + length rest
unfolding put_uint64 put_uint32
length-put_uint64 w rest = omega arith

words_of-put_words : (ws : List ℕ) → AllWords ws → words_of (length ws) (put_words ws) ≡ ws
unfolding words_of put_words
words_of-put_words [] small = refl
words_of-put_words (w ∷ ws) (small, rest) =
    let enough : ltb (length (put_uint64 w ++ put_words ws)) 8 ≡ false =
      ground (arith, length-put_uint64 w (put_words ws)) in
    rw
      (
        enough,
        uint64_le-put w (put_words ws) small,
        drop-put_uint64 w (put_words ws),
        words_of-put_words ws rest,
      )
      refl

-- Reading back the bytes of a filter whose numbers are 64-bit words, with as many words as its bits
-- need, gives its bits and its parameters again; only the count of keys starts at 0.
pub deserialize-serialize :
    (bf : BloomFilter) → IsWords bf → deserialize (serialize bf) ≡ some (record bf { count = 0 })
unfolding deserialize serialize
deserialize-serialize bf sound =
    let tail = put_uint64 bf.k ++ put_words bf.bitset in
    let enough : ltb (length (put_uint64 bf.m ++ tail)) 16 ≡ false =
      ground (arith, length-put_uint64 bf.m tail, length-put_uint64 bf.k (put_words bf.bitset)) in
    let words : bf.m / 64 ≡ length bf.bitset = omega (arith, sound.filled) in
    let behind : drop 16 (put_uint64 bf.m ++ tail) ≡ put_words bf.bitset =
      drop-two bf.m bf.k (put_words bf.bitset) in
    rw
      (
        enough,
        uint64_le-put bf.m tail sound.small_m,
        drop-put_uint64 bf.m tail,
        uint64_le-put bf.k (put_words bf.bitset) sound.small_k,
        behind,
        words,
        words_of-put_words bf.bitset sound.words,
      )
      refl
