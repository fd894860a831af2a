-- ===== src/Storage/Bloom/Membership.antt =====
-- Which keys a filter reports after others were added.
use Prim.Native.Nat.{bit_or}
use native.Mathlib.Nat.{mod-lt}
use hermes.Base.{
  ℕ, zero, suc, ◌+◌, ◌-◌, ◌*◌, ◌/◌, ◌%◌, ◌<◌, ◌≡◌, refl, ap, ◌∙◌, Bool, true, Option, none, some,
  List, [], ◌∷◌, length, get_elem?, u64, GoString, arith, Bool-cases, Option-cases, inl, inr,
}
use hermes.Storage.Bloom.{
  BloomFilter, one_shifted, set_in, set_bit, get_bit, position, set_bits, get_bits, add, contains,
  hash128,
}
use hermes.Storage.Bloom.Bits.{bit, bit-set}

-- The words hold as many bits as the filter has, at least one.
pub record IsSized (bf : BloomFilter) : Type 0 where
  pub some_bits : 0 < bf.m
  pub words : bf.m ≡ length bf.bitset * 64

-- The bit of a word in the list; none where the word is missing.
abbrev bit_of : ℕ → ℕ → List ℕ → Option Bool
bit_of word i ws = elim (get_elem? ws word) [ none ↦ none | some w ↦ some (bit w i) ]

-- Every bit that is set stays set.
abbrev Keeps : List ℕ → List ℕ → Type 0
Keeps ws ws' = (v j : ℕ) → bit_of v j ws ≡ some true → bit_of v j ws' ≡ some true

Keeps-head : (w i : ℕ) (ws : List ℕ) → Keeps (w ∷ ws) (bit_or w (one_shifted i) ∷ ws)
Keeps-head w i ws zero j set = ground (arith, set, bit-set w i j)
Keeps-head w i ws (suc v) j set = set

Keeps-tail : (w : ℕ) (ws ws' : List ℕ) → Keeps ws ws' → Keeps (w ∷ ws) (w ∷ ws')
Keeps-tail w ws ws' kept zero j set = set
Keeps-tail w ws ws' kept (suc v) j set = kept v j set

set_in_lem :
    (word i : ℕ) (ws : List ℕ)
    → word < length ws
    → (ws' : List ℕ) × (set_in word i ws ≡ some ws')
      × (length ws' ≡ length ws)
      × (bit_of word i ws' ≡ some true)
      × Keeps ws ws'
unfolding set_in
set_in_lem word i [] small = absurd (omega (arith, small))
set_in_lem zero i (w ∷ ws) small =
    (bit_or w (one_shifted i) ∷ ws, refl, refl, ground (arith, bit-set w i i), Keeps-head w i ws)
set_in_lem (suc word) i (w ∷ ws) small =
    let (ws', done, len, here, kept) = set_in_lem word i ws (omega (arith, small)) in
    (w ∷ ws', ground (arith, done), ap suc len, here, Keeps-tail w ws ws' kept)

-- A filter behind another one: of the same size, with every bit of that one.
pub record Grows (bf bf' : BloomFilter) : Type 0 where
  pub sized : IsSized bf'
  pub same_m : bf'.m ≡ bf.m
  pub same_k : bf'.k ≡ bf.k
  pub kept : (pos : ℕ) → get_bit pos bf ≡ some true → get_bit pos bf' ≡ some true

Grows-trans : (a b c : BloomFilter) → Grows a b → Grows b c → Grows a c
Grows-trans a b c f g = record {
  sized = g.sized;
  same_m = g.same_m ∙ f.same_m;
  same_k = g.same_k ∙ f.same_k;
  kept = λ pos set. g.kept pos (f.kept pos set);
}

set_bit_lem :
    (pos : ℕ) (bf : BloomFilter)
    → IsSized bf
    → pos < bf.m
    → (bf' : BloomFilter) × (set_bit pos bf ≡ some bf')
      × Grows bf bf'
      × (get_bit pos bf' ≡ some true)
unfolding set_bit get_bit
set_bit_lem pos bf sized small =
    let (ws', done, len, here, kept) =
      set_in_lem (pos / 64) (pos % 64) bf.bitset (omega (arith, small, sized.words)) in
    (
      record bf { bitset = ws' },
      ground (arith, done),
      record {
        sized = record { some_bits = sized.some_bits; words = omega (arith, sized.words, len) };
        same_m = refl;
        same_k = refl;
        kept = λ p. kept (p / 64) (p % 64);
      },
      here,
    )

pub position-lt :
    (h : ℕ × ℕ) (i m : ℕ) → 0 < m → (pos : ℕ) × (position h i m ≡ some pos) × (pos < m)
unfolding position
position-lt (h1, h2) i m some' =
    (u64 (h1 + i * h2) % m, ground (arith, some'), mod-lt (u64 (h1 + i * h2)) some')

get_bits-grows :
    (h : ℕ × ℕ) (i n : ℕ) (bf bf' : BloomFilter)
    → Grows bf bf'
    → IsSized bf
    → get_bits h i n bf ≡ some true
    → get_bits h i n bf' ≡ some true
unfolding get_bits
get_bits-grows h i zero bf bf' g sized set = refl
get_bits-grows h i (suc n) bf bf' g sized set =
    let (pos, at, small) = position-lt h i bf.m sized.some_bits in
    let at' : position h i bf'.m ≡ some pos = ap (position h i) g.same_m ∙ at in
    elim (Option-cases (get_bit pos bf)) [
      | inl out ↦ absurd (ground (arith, set, at, out))
      | inr (b, found) ↦ elim (Bool-cases b) [
        | inr off ↦ absurd (ground (arith, set, at, found, off))
        | inl on ↦
            let rest : get_bits h (i + 1) n bf ≡ some true = ground (arith, set, at, found, on) in
            let ih = get_bits-grows h (i + 1) n bf bf' g sized rest in
            let still = g.kept pos (found ∙ ap some on) in ground (arith, at', still, ih)
      ]
    ]

set_bits_lem :
    (h : ℕ × ℕ) (i n : ℕ) (bf : BloomFilter)
    → IsSized bf
    → (bf' : BloomFilter) × (set_bits h i n bf ≡ some bf')
      × Grows bf bf'
      × (get_bits h i n bf' ≡ some true)
unfolding set_bits get_bits
set_bits_lem h i zero bf sized =
    (bf, refl, record { sized = sized; same_m = refl; same_k = refl; kept = λ pos set. set }, refl)
set_bits_lem h i (suc n) bf sized =
    let (pos, at, small) = position-lt h i bf.m sized.some_bits in
    let (bf1, first, g1, on) = set_bit_lem pos bf sized small in
    let (bf2, rest, g2, others) = set_bits_lem h (i + 1) n bf1 g1.sized in
    let at' : position h i bf2.m ≡ some pos = ap (position h i) (g2.same_m ∙ g1.same_m) ∙ at in
    let on' = g2.kept pos on in
    (
      bf2,
      ground (arith, at, first, rest),
      Grows-trans bf bf1 bf2 g1 g2,
      ground (arith, at', on', others),
    )

pub add_lem :
    (key : GoString) (bf : BloomFilter)
    → IsSized bf
    → (bf' : BloomFilter) × (add key bf ≡ some bf') × Grows bf bf' × (contains key bf' ≡ some true)
unfolding add contains set_bits_lem get_bit
add_lem key bf sized =
    let (bf1, done, g, all) = set_bits_lem (hash128 key) 0 bf.k bf sized in
    let bf2 : BloomFilter = record bf1 { count = u64 (bf1.count + 1) } in
    let counted : Grows bf1 bf2 = record {
      sized = record { some_bits = g.sized.some_bits; words = g.sized.words };
      same_m = refl;
      same_k = refl;
      kept = λ pos set. set;
    } in
    let still = get_bits-grows (hash128 key) 0 bf.k bf1 bf2 counted g.sized all in
    (
      bf2,
      ground (arith, done),
      Grows-trans bf bf1 bf2 g counted,
      ap (λ k. get_bits (hash128 key) 0 k bf2) g.same_k ∙ still,
    )

-- The filter after the keys were added, one after another.
pub add_all : List GoString → BloomFilter → Option BloomFilter
add_all [] bf = some bf
add_all (key ∷ keys) bf = elim (add key bf) [ none ↦ none | some bf' ↦ add_all keys bf' ]

abbrev pub AllContained : List GoString → BloomFilter → Type 0
AllContained [] bf = Unit {0}
AllContained (key ∷ keys) bf = (contains key bf ≡ some true) × AllContained keys bf

contains-grows :
    (key : GoString) (bf bf' : BloomFilter)
    → Grows bf bf'
    → IsSized bf
    → contains key bf ≡ some true
    → contains key bf' ≡ some true
unfolding contains
contains-grows key bf bf' g sized set =
    ap (λ n. get_bits (hash128 key) 0 n bf') g.same_k
    ∙ get_bits-grows (hash128 key) 0 bf.k bf bf' g sized set

AllContained-grows :
    (keys : List GoString) (bf bf' : BloomFilter)
    → Grows bf bf'
    → IsSized bf
    → AllContained keys bf
    → AllContained keys bf'
AllContained-grows [] bf bf' g sized set = tt
AllContained-grows (key ∷ keys) bf bf' g sized (here, set) =
    (contains-grows key bf bf' g sized here, AllContained-grows keys bf bf' g sized set)

add_all-Grows :
    (keys : List GoString) (bf : BloomFilter)
    → IsSized bf
    → (bf' : BloomFilter) × (add_all keys bf ≡ some bf') × Grows bf bf' × AllContained keys bf'
unfolding add_all
add_all-Grows [] bf sized =
    (bf, refl, record { sized = sized; same_m = refl; same_k = refl; kept = λ pos set. set }, tt)
add_all-Grows (key ∷ keys) bf sized =
    let (bf1, first, g, on) = add_lem key bf sized in
    let (bf2, rest, g', others) = add_all-Grows keys bf1 g.sized in
    (
      bf2,
      ground (arith, first, rest),
      Grows-trans bf bf1 bf2 g g',
      (contains-grows key bf1 bf2 g' g.sized on, others),
    )

-- Adding keys to a filter whose words hold its bits, of which there is one at least, does not panic,
-- and the filter afterwards contains every key that was added and those that it contained before.
pub add_all_lem :
    (keys old : List GoString) (bf : BloomFilter)
    → IsSized bf
    → AllContained old bf
    → (bf' : BloomFilter) × (add_all keys bf ≡ some bf')
      × IsSized bf'
      × AllContained keys bf'
      × AllContained old bf'
add_all_lem keys old bf sized set =
    let (bf', done, g, on) = add_all-Grows keys bf sized in
    (bf', done, g.sized, on, AllContained-grows old bf bf' g sized set)

set_bits-no_bits :
    (h : ℕ × ℕ) (i n : ℕ) (bf : BloomFilter) → bf.m ≡ 0 → set_bits h i (suc n) bf ≡ none
unfolding set_bits position
set_bits-no_bits (h1, h2) i n bf empty = ground (arith, empty)

-- A filter without bits, which has a hash at least, panics on every key.
pub add-no_bits : (key : GoString) (bf : BloomFilter) → bf.m ≡ 0 → 0 < bf.k → add key bf ≡ none
unfolding add set_bits position
add-no_bits key bf empty some' =
    let one : bf.k ≡ suc (bf.k - 1) = omega (arith, some') in
    ground (
      arith,
      ap (λ n. set_bits (hash128 key) 0 n bf) one,
      set_bits-no_bits (hash128 key) 0 (bf.k - 1) bf empty,
    )
