-- ===== src/Storage/Bloom.antt =====
-- pkg/storage/bloom/bloom.go. Words are numbers below 2^64. The floating point of `New`, which gives
-- a number of bits and of hashes, is an argument; the estimate of the error rate is left out. `none`
-- stands for a panic: a remainder by 0, or a word out of range.
pub mod Bits
pub mod Membership
pub mod Totality
pub mod Bytes
use Prim.Native.Nat.{bit_or, bit_xor}
use hermes.Base.{
  ℕ, zero, suc, ◌+◌, ◌-◌, ◌*◌, ◌/◌, ◌%◌, Bool, true, false, Option, none, some, List, [], ◌∷◌, ◌++◌,
  length, get_elem?, take, drop, ltb, ◌==◌, if◌then◌else◌, u64, GoString,
}
use hermes.Base.Partial.{◌>>=◌}
use hermes.Storage.Command.{put_uint64}
use hermes.Storage.Wal.Record.{uint64_le}

pub record BloomFilter : Type 0 where
  pub bitset : List ℕ
  pub m : ℕ
  pub k : ℕ
  pub count : ℕ

abbrev pub zeros : ℕ → List ℕ
zeros zero = []
zeros (suc n) = 0 ∷ zeros n

-- `((m + 63) / 64) * 64`
abbrev pub whole_words : ℕ → ℕ
whole_words m = u64 (m + 63) / 64 * 64

pub new_with_params : ℕ → ℕ → BloomFilter
new_with_params m k =
    let m' = whole_words m in record { bitset = zeros (m' / 64); m = m'; k = k; count = 0 }

-- `New`, with what the floating point gives for `m` and, from the rounded `m`, for `k`
unfoldable pub new_filter : ℕ → (ℕ → ℕ) → BloomFilter
new_filter m hashes =
    let m' = whole_words m in
    let k = hashes m' in
    record {
      bitset = zeros (m' / 64);
      m = m';
      k = if ltb k 1 then 1 else if ltb 20 k then 20 else k;
      count = 0;
    }

-- `>>` on an unsigned word halves it so many times.
pub shift_right : ℕ → ℕ → ℕ
shift_right w zero = w
shift_right w (suc n) = shift_right (w / 2) n

-- `1 << n`, for `n` below 64
pub one_shifted : ℕ → ℕ
one_shifted zero = 1
one_shifted (suc n) = 2 * one_shifted n

-- the loop over the bytes of the key
pub fnv : ℕ → GoString → ℕ
fnv h [] = h
fnv h (b ∷ bs) = fnv (u64 (bit_xor h b * 1099511628211)) bs

abbrev fold_high : ℕ → ℕ
fold_high h = bit_xor h (shift_right h 33)

pub hash128 : GoString → ℕ × ℕ
hash128 key =
    let h1 = fnv 14695981039346656037 key in
    let mixed = u64 (fold_high h1 * 18397679294719823053) in
    (h1, fold_high (u64 (fold_high mixed * 14181476777654086739)))

-- The words with the bit of one word set.
pub set_in : ℕ → ℕ → List ℕ → Option (List ℕ)
set_in word bit [] = none
set_in zero bit (w ∷ ws) = some (bit_or w (one_shifted bit) ∷ ws)
set_in (suc word) bit (w ∷ ws) = elim (set_in word bit ws) [
  | none ↦ none
  | some ws' ↦ some (w ∷ ws')
]

pub set_bit : ℕ → BloomFilter → Option BloomFilter
set_bit pos bf = elim (set_in (pos / 64) (pos % 64) bf.bitset) [
  | none ↦ none
  | some ws ↦ some (record bf { bitset = ws })
]

pub get_bit : ℕ → BloomFilter → Option Bool
get_bit pos bf = elim (get_elem? bf.bitset (pos / 64)) [
  | none ↦ none
  | some w ↦ some (shift_right w (pos % 64) % 2 == 1)
]

-- The position of the hash number `i`; a remainder by 0 panics.
pub position : ℕ × ℕ → ℕ → ℕ → Option ℕ
position (h1, h2) i m = if m == 0 then none else some (u64 (h1 + i * h2) % m)

-- The hashes from the number `i` on, so many.
pub set_bits : ℕ × ℕ → ℕ → ℕ → BloomFilter → Option BloomFilter
set_bits h i zero bf = some bf
set_bits h i (suc n) bf = do pos ← position h i bf.m; bf' ← set_bit pos bf; set_bits h (i + 1) n bf'

pub add : GoString → BloomFilter → Option BloomFilter
add key bf = do
  bf' ← set_bits (hash128 key) 0 bf.k bf
  some (record bf' { count = u64 (bf'.count + 1) })

abbrev pub and_rest : Bool → Option Bool → Option Bool
and_rest true rest = rest
and_rest false rest = some false

pub get_bits : ℕ × ℕ → ℕ → ℕ → BloomFilter → Option Bool
get_bits h i zero bf = some true
get_bits h i (suc n) bf = do
  pos ← position h i bf.m
  bit ← get_bit pos bf
  and_rest bit (get_bits h (i + 1) n bf)

pub contains : GoString → BloomFilter → Option Bool
contains key bf = get_bits (hash128 key) 0 bf.k bf

-- `bits.OnesCount64`
pub ones_count : ℕ → ℕ → ℕ
ones_count zero w = 0
ones_count (suc n) w = w % 2 + ones_count n (w / 2)

pub bit_count : List ℕ → ℕ
bit_count [] = 0
bit_count (w ∷ ws) = ones_count 64 w + bit_count ws

unfoldable pub put_words : List ℕ → List ℕ
put_words [] = []
put_words (w ∷ ws) = put_uint64 w ++ put_words ws

unfoldable pub serialize : BloomFilter → List ℕ
serialize bf = put_uint64 bf.m ++ (put_uint64 bf.k ++ put_words bf.bitset)

-- So many words; where fewer than eight bytes are left the rest of them is 0.
pub words_of : ℕ → List ℕ → List ℕ
words_of zero bs = []
words_of (suc n) bs =
    let rest = words_of n (drop 8 bs) in
    if ltb (length bs) 8 then zeros (suc n) else uint64_le bs ∷ rest

-- `none` is the error that the data are too short.
unfoldable pub deserialize : List ℕ → Option BloomFilter
deserialize bs =
    let m = uint64_le bs in
    if ltb (length bs) 16
    then none
    else some (record {
      bitset = words_of (m / 64) (drop 16 bs);
      m = m;
      k = uint64_le (drop 8 bs);
      count = 0;
    })
