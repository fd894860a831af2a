-- ===== src/Partition/Ring/Counting.antt =====
-- How many nodes the ring has, and where its positions and nodes are found.
use hermes.Base.{
  ℕ, suc, ◌+◌, ◌-◌, ◌%◌, ◌≤◌, ◌<◌, ◌≡◌, ◌≢◌, refl, sym, ap, ◌∙◌, subst, Bool, true, List, [], ◌∷◌,
  length, leb, if◌then◌else◌, GoString, str_eq, str_eq_iff, string_eq, arith, Bool-cases, inl, inr,
  none, some,
}
use hermes.Base.Dict.{Dict, get, IsMap}
use hermes.Partition.Ring.Members.{on_ring}
use hermes.Partition.Ring.{hash_at, VirtualNode, Library, is_seen, id_at, start_of}

erase : GoString → List GoString → List GoString
erase k [] = []
erase k (n ∷ ns) = let rest = erase k ns in if str_eq n k then rest else n ∷ rest

erase_shorter :
    (k : GoString) (ns : List GoString)
    → (length (erase k ns) ≤ length ns) × (is_seen k ns ≡ true → length (erase k ns) < length ns)
unfolding erase is_seen
erase_shorter k [] = ground arith
erase_shorter k (n ∷ ns) = ground (arith, erase_shorter k ns)

is_seen-erase :
    (x k : GoString) (ns : List GoString) → x ≢ k → is_seen x (erase k ns) ≡ is_seen x ns
unfolding erase is_seen
is_seen-erase x k [] other = refl
is_seen-erase x k (n ∷ ns) other =
    ground (arith, is_seen-erase x k ns other, str_eq_iff n k, str_eq_iff n x, other)

-- A list that has seen every key of a map is at least as long as the map.
pub keys_fit :
    (m : Dict GoString Bool) (ns : List GoString)
    → IsMap m
    → ((id : GoString) → get id m ≢ none → is_seen id ns ≡ true)
    → length m ≤ length ns
unfolding get
keys_fit [] ns distinct seen = omega arith
keys_fit ((k, b) ∷ m) ns (fresh, distinct) seen =
    let first : is_seen k ns ≡ true = seen k (ground (arith, str_eq_iff k k)) in
    let rest : (id : GoString) → get id m ≢ none → is_seen id (erase k ns) ≡ true = λ id bound.
      let other : id ≢ k = λ e. bound (subst (λ j. get j m ≡ none) (sym e) fresh) in
      is_seen-erase id k ns other ∙ seen id (ground (arith, bound)) in
    omega (arith, keys_fit m (erase k ns) distinct rest, (erase_shorter k ns).1 first)

-- Every position is reached, one time around the ring after the start at the latest.
pub wraps : (start j n : ℕ) → j < n → start ≤ n → (start + (j + n - start)) % n ≡ j
wraps start j n small within =
    let shift : start + (j + n - start) ≡ n + j = omega (arith, within) in
    ap (λ k. k % n) shift ∙ grind (arith, small)

pub on_ring-index :
    (id : GoString) (vs : List VirtualNode)
    → on_ring id vs ≡ true
    → (j : ℕ) × (j < length vs) × (id_at vs j ≡ some id)
unfolding on_ring
on_ring-index id [] there = absurd (ground (arith, there))
on_ring-index id (v ∷ vs) there = elim (Bool-cases (str_eq v.node_id id)) [
  | inl here ↦ (0, omega arith, ap some ((str_eq_iff v.node_id id).0 here))
  | inr further ↦
      let (j, small, found) = on_ring-index id vs (ground (arith, there, further)) in
      (suc j, omega (arith, small), found)
]

pub start_of-le :
    (lib : Library) (key : GoString) (vs : List VirtualNode)
    → ((n : ℕ) (f : ℕ → Bool) → lib.search n f ≤ n)
    → start_of lib key vs ≤ length vs
unfolding start_of
start_of-le lib key vs bounded =
    ground (arith, bounded (length vs) (λ i. leb (lib.hash_key key) (hash_at vs i)))
