-- ===== src/Storage/Bloom/Totality.antt =====
-- Questions to a filter whose words hold its bits.
use hermes.Base.{
  false, ◌==◌, ℕ, zero, suc, ◌+◌, ◌/◌, ◌%◌, ◌<◌, ◌≡◌, refl, Bool, true, some, List, [], ◌∷◌, length,
  get_elem?, GoString, arith, Bool-cases, inl, inr,
}
use hermes.Storage.Bloom.{shift_right, BloomFilter, get_bit, get_bits, contains, hash128}
use hermes.Storage.Bloom.Membership.{IsSized, position-lt}

get_elem?-some : (ws : List ℕ) (i : ℕ) → i < length ws → (w : ℕ) × (get_elem? ws i ≡ some w)
get_elem?-some [] i small = absurd (omega (arith, small))
get_elem?-some (w ∷ ws) zero small = (w, refl)
get_elem?-some (w ∷ ws) (suc i) small = get_elem?-some ws i (omega (arith, small))

get_bit-some :
    (pos : ℕ) (bf : BloomFilter) → IsSized bf → pos < bf.m → (b : Bool) × (get_bit pos bf ≡ some b)
unfolding get_bit
get_bit-some pos bf sized small =
    let (w, at) = get_elem?-some bf.bitset (pos / 64) (omega (arith, small, sized.words)) in
    (shift_right w (pos % 64) % 2 == 1, ground (arith, at))

get_bits-some :
    (h : ℕ × ℕ) (i n : ℕ) (bf : BloomFilter)
    → IsSized bf
    → (b : Bool) × (get_bits h i n bf ≡ some b)
unfolding get_bits
get_bits-some h i zero bf sized = (true, refl)
get_bits-some h i (suc n) bf sized =
    let (pos, at, small) = position-lt h i bf.m sized.some_bits in
    let (b, found) = get_bit-some pos bf sized small in
    let (c, rest) = get_bits-some h (i + 1) n bf sized in
    elim (Bool-cases b) [
      | inl on ↦ (c, ground (arith, at, found, on, rest))
      | inr off ↦ (false, ground (arith, at, found, off))
    ]

-- Asking a filter whose words hold its bits does not panic.
pub contains-some :
    (key : GoString) (bf : BloomFilter) → IsSized bf → (b : Bool) × (contains key bf ≡ some b)
unfolding contains
contains-some key bf sized = get_bits-some (hash128 key) 0 bf.k bf sized
