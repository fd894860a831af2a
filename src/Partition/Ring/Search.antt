-- ===== src/Partition/Ring/Search.antt =====
-- The search of a sorted ring, beside the first virtual node at or past a hash.
use hermes.Base.{
  ℕ, zero, suc, ◌≤◌, ◌<◌, ◌≡◌, ◌≢◌, refl, sym, subst, Bool, true, false, List, [], ◌∷◌, length, leb,
  ◌==◌, if◌then◌else◌, GoString, arith, Bool-cases, inl, inr, Option, none, some,
}
use hermes.Partition.Ring.{VirtualNode, Library, hash_at, id_at}

-- What `sort.Search` documents: for a test that stays true once it is true, the least index in range
-- that passes it, or the end of the range.
abbrev pub IsLeast : (ℕ → (ℕ → Bool) → ℕ) → Type 0
IsLeast search =
    (n : ℕ) (f : ℕ → Bool)
    → ((i j : ℕ) → i ≤ j → j < n → f i ≡ true → f j ≡ true)
    → (search n f ≤ n)
      × ((i : ℕ) → i < search n f → f i ≡ false)
      × (search n f < n → f (search n f) ≡ true)

-- A virtual node lies at or before every one of the list.
abbrev pub IsBefore : ℕ → List VirtualNode → Type 0
IsBefore h [] = Unit {0}
IsBefore h (v ∷ vs) = (h ≤ v.hash) × IsBefore h vs

abbrev pub IsSorted : List VirtualNode → Type 0
IsSorted [] = Unit {0}
IsSorted (v ∷ vs) = IsBefore v.hash vs × IsSorted vs

-- The index of the first virtual node at or past the hash, or the length.
pub position : ℕ → List VirtualNode → ℕ
position h [] = 0
position h (v ∷ vs) = let rest = position h vs in if leb h v.hash then 0 else suc rest

unfoldable pub first_at : ℕ → List VirtualNode → Option GoString
first_at h [] = none
first_at h (v ∷ vs) = let rest = first_at h vs in if leb h v.hash then some v.node_id else rest

first_at-position :
    (h : ℕ) (vs : List VirtualNode)
    → (id_at vs (position h vs) ≡ first_at h vs)
      × (position h vs < length vs → first_at h vs ≢ none)
      × (position h vs ≡ length vs → first_at h vs ≡ none)
unfolding position first_at
first_at-position h [] = (refl, λ small. absurd (omega (arith, small)), λ past. refl)
first_at-position h (v ∷ vs) =
    let ih = first_at-position h vs in
    elim (Bool-cases (leb h v.hash)) [
      | inl passes ↦ ground (arith, passes)
      | inr fails ↦ ground (arith, fails, ih)
    ]

before-hash_at :
    (h : ℕ) (vs : List VirtualNode) (i : ℕ) → IsBefore h vs → i < length vs → h ≤ hash_at vs i
unfolding hash_at
before-hash_at h [] i before small = absurd (omega (arith, small))
before-hash_at h (v ∷ vs) zero before small = before.0
before-hash_at h (v ∷ vs) (suc i) before small =
    before-hash_at h vs i before.1 (omega (arith, small))

hash_at-sorted :
    (vs : List VirtualNode) (i j : ℕ)
    → IsSorted vs
    → i ≤ j
    → j < length vs
    → hash_at vs i ≤ hash_at vs j
unfolding hash_at
hash_at-sorted [] i j sorted order small = absurd (omega (arith, small))
hash_at-sorted (v ∷ vs) zero zero sorted order small = omega arith
hash_at-sorted (v ∷ vs) zero (suc j) sorted order small =
    before-hash_at v.hash vs j sorted.0 (omega (arith, small))
hash_at-sorted (v ∷ vs) (suc i) zero sorted order small = absurd (omega (arith, order))
hash_at-sorted (v ∷ vs) (suc i) (suc j) sorted order small =
    hash_at-sorted vs i j sorted.1 (omega (arith, order)) (omega (arith, small))

position-le : (h : ℕ) (vs : List VirtualNode) → position h vs ≤ length vs
unfolding position
position-le h [] = omega arith
position-le h (v ∷ vs) = ground (arith, position-le h vs)

position-below :
    (h : ℕ) (vs : List VirtualNode) (i : ℕ) → i < position h vs → leb h (hash_at vs i) ≡ false
unfolding position hash_at
position-below h [] i small = absurd (omega (arith, small))
position-below h (v ∷ vs) zero small = ground (arith, small)
position-below h (v ∷ vs) (suc i) small = ground (arith, small, position-below h vs i)

position-passes :
    (h : ℕ) (vs : List VirtualNode)
    → position h vs < length vs
    → leb h (hash_at vs (position h vs)) ≡ true
unfolding position hash_at
position-passes h [] small = absurd (omega (arith, small))
position-passes h (v ∷ vs) small = elim (Bool-cases (leb h v.hash)) [
  | inl passes ↦ rw passes passes
  | inr fails ↦
      let step : position h (v ∷ vs) ≡ suc (position h vs) = ground (arith, fails) in
      subst (λ k. leb h (hash_at (v ∷ vs) k) ≡ true) (sym step)
        (position-passes h vs (omega (arith, small, step)))
]

-- On a sorted ring the search finds the position.
pub search-position :
    (lib : Library) (h : ℕ) (vs : List VirtualNode)
    → IsLeast lib.search
    → IsSorted vs
    → lib.search (length vs) (λ i. leb h (hash_at vs i)) ≡ position h vs
search-position lib h vs least sorted =
    let f = λ (i : ℕ). leb h (hash_at vs i) in
    let found = least (length vs) f (λ i j order small passes.
      ground (arith, passes, hash_at-sorted vs i j sorted order small)) in
    let s = lib.search (length vs) f in
    let p = position h vs in
    ground (
      arith,
      found.0,
      position-le h vs,
      position-below h vs s,
      position-passes h vs,
      found.1 p,
      found.2,
    )

-- The first virtual node at or past the hash, or else the first of the ring, and the node it is of.
unfoldable pub owner : ℕ → List VirtualNode → Option GoString
owner h vs = elim (first_at h vs) [ none ↦ id_at vs 0 | some id ↦ some id ]

pub owner-position :
    (h : ℕ) (vs : List VirtualNode)
    → id_at vs (if position h vs == length vs then 0 else position h vs) ≡ owner h vs
unfolding owner
owner-position h vs = elim (Bool-cases (position h vs == length vs)) [
  | inl past ↦ ground (arith, past, first_at-position h vs, position-le h vs)
  | inr within ↦ ground (arith, within, first_at-position h vs, position-le h vs)
]
