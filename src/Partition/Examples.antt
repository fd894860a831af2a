-- ===== src/Partition/Examples.antt =====
-- The theorems of this folder at a concrete ring, whose hash of a key is its first byte and whose
-- search tries one index after another.
use hermes.Base.{
  ◌∙◌, leb, ℕ, zero, suc, ◌+◌, ◌≤◌, ◌<◌, ◌≡◌, refl, ap, subst, sym, ◌==◌, Bool, true, false, some,
  List, [], ◌∷◌, length, min, if◌then◌else◌, bytes, GoString, arith, str_eq, string_eq, str_eq_iff,
  Bool-cases, inl, inr,
}
use hermes.Base.Dict.{get}
use hermes.Partition.Ring.{
  new_hash_ring, add_node, Library, HashRing, VirtualNode, get_node, get_nodes, remove_node, walk,
  start_of, hash_at,
}
use hermes.Partition.Ring.Search.{IsLeast, IsSorted, IsBefore}
use hermes.Partition.Ring.Members.{on_ring, Sorts, IsRing, operations-IsRing}
use hermes.Partition.Ring.Owner.{remove_node_moves_no_other}
use hermes.Partition.Ring.Walk.{AreDistinct, AreNodes, get_nodes_lem, walk_ends}

abbrev first_byte : GoString → ℕ
first_byte [] = 0
first_byte (b ∷ bs) = b

-- The least index from `i` on, of the next `n`, that passes the test, or the end.
least : ℕ → ℕ → (ℕ → Bool) → ℕ
least zero i f = i
least (suc n) i f = let rest = least n (suc i) f in if f i then i else rest

least_lem :
    (n i : ℕ) (f : ℕ → Bool)
    → (i ≤ least n i f)
      × (least n i f ≤ i + n)
      × ((j : ℕ) → i ≤ j → j < least n i f → f j ≡ false)
      × (least n i f < i + n → f (least n i f) ≡ true)
unfolding least
least_lem zero i f = (
  omega arith,
  omega arith,
  λ j low high. absurd (omega (arith, low, high)),
  λ small. absurd (omega (arith, small)),
)
least_lem (suc n) i f = elim (Bool-cases (f i)) [
  | inl passes ↦
      rw passes
        (omega arith, omega arith, λ j low high. absurd (omega (arith, low, high)), λ small. passes)
  | inr fails ↦
      let (a, b, c, d) = least_lem n (suc i) f in
      rw fails (
        omega (arith, a),
        omega (arith, b),
        λ j low high. elim (Bool-cases (j == i)) [
          | inl same ↦
              let e : j ≡ i = ground (arith, same) in subst (λ k. f k ≡ false) (sym e) fails
          | inr past ↦ c j (ground (arith, past, low)) high
        ],
        λ small. d (omega (arith, small)),
      )
]

-- Insertion by hash.
insert : VirtualNode → List VirtualNode → List VirtualNode
insert v [] = v ∷ []
insert v (w ∷ ws) = let rest = insert v ws in if leb v.hash w.hash then v ∷ (w ∷ ws) else w ∷ rest

insertion_sort : List VirtualNode → List VirtualNode
insertion_sort [] = []
insertion_sort (v ∷ vs) = insert v (insertion_sort vs)

abbrev lib : Library
lib = record {
  hash_key = first_byte;
  search = λ n f. least n 0 f;
  sort_by_hash = insertion_sort;
  decimal = λ n. [];
}

lib-IsLeast : IsLeast lib.search
lib-IsLeast n f stays =
    let (a, b, c, d) = least_lem n 0 f in
    (omega (arith, b), λ i small. c i (omega arith) small, λ small. d (omega (arith, small)))

abbrev vnode : ℕ → GoString → VirtualNode
vnode h id = record { hash = h; node_id = id; vnode_index = 0 }

abbrev ring : HashRing
ring = record {
  vnodes = vnode 10 (bytes "a") ∷ vnode 100 (bytes "b") ∷ vnode 200 (bytes "a") ∷ [];
  node_map = (bytes "a", true) ∷ (bytes "b", true) ∷ [];
  virtual_nodes = 2;
}

remove_node_moves_no_other_example :
    (get_node lib (bytes "A") (remove_node (bytes "a") ring) ≡ some (bytes "b"))
    × IsSorted (remove_node (bytes "a") ring).vnodes
unfolding least get_node start_of hash_at
remove_node_moves_no_other_example =
    remove_node_moves_no_other lib (bytes "A") (bytes "a") (bytes "b") ring lib-IsLeast
      (omega arith) (λ e. omega (arith, ap first_byte e)) refl

ring-IsRing : IsRing ring
unfolding get on_ring str_eq
ring-IsRing = record {
  distinct = (refl, (refl, record { lower = tt }));
  present = λ id bound. ground (arith, bound, str_eq_iff (bytes "a") id, str_eq_iff (bytes "b") id);
  members = λ id on. ground (arith, on, str_eq_iff (bytes "a") id, str_eq_iff (bytes "b") id);
  in_order = omega arith;
  some_vnodes = omega arith;
}

IsBefore-trans : (h k : ℕ) (vs : List VirtualNode) → h ≤ k → IsBefore k vs → IsBefore h vs
IsBefore-trans h k [] less before = tt
IsBefore-trans h k (v ∷ vs) less (here, before) =
    (omega (arith, less, here), IsBefore-trans h k vs less before)

insert-IsBefore :
    (h : ℕ) (v : VirtualNode) (vs : List VirtualNode)
    → h ≤ v.hash
    → IsBefore h vs
    → IsBefore h (insert v vs)
unfolding insert
insert-IsBefore h v [] less before = (less, tt)
insert-IsBefore h v (w ∷ ws) less (here, before) = elim (Bool-cases (leb v.hash w.hash)) [
  | inl first ↦ rw first (less, (here, before))
  | inr later ↦ rw later (here, insert-IsBefore h v ws less before)
]

insert-IsSorted : (v : VirtualNode) (vs : List VirtualNode) → IsSorted vs → IsSorted (insert v vs)
unfolding insert
insert-IsSorted v [] sorted = (tt, tt)
insert-IsSorted v (w ∷ ws) (before, sorted) = elim (Bool-cases (leb v.hash w.hash)) [
  | inl first ↦
      let less : v.hash ≤ w.hash = ground (arith, first) in
      rw first ((less, IsBefore-trans v.hash w.hash ws less before), (before, sorted))
  | inr later ↦
      rw later
        (insert-IsBefore w.hash v ws (ground (arith, later)) before, insert-IsSorted v ws sorted)
]

on_ring-insert :
    (id : GoString) (v : VirtualNode) (vs : List VirtualNode)
    → on_ring id (insert v vs) ≡ on_ring id (v ∷ vs)
unfolding insert on_ring
on_ring-insert id v [] = refl
on_ring-insert id v (w ∷ ws) = ground (arith, on_ring-insert id v ws)

insertion_sort-IsSorted : (vs : List VirtualNode) → IsSorted (insertion_sort vs)
unfolding insertion_sort
insertion_sort-IsSorted [] = tt
insertion_sort-IsSorted (v ∷ vs) =
    insert-IsSorted v (insertion_sort vs) (insertion_sort-IsSorted vs)

on_ring-insertion_sort :
    (id : GoString) (vs : List VirtualNode) → on_ring id (insertion_sort vs) ≡ on_ring id vs
unfolding insertion_sort on_ring
on_ring-insertion_sort id [] = refl
on_ring-insertion_sort id (v ∷ vs) =
    on_ring-insert id v (insertion_sort vs)
    ∙ ap (λ rest. if str_eq v.node_id id then true else rest) (on_ring-insertion_sort id vs)

lib-Sorts : Sorts lib.sort_by_hash
lib-Sorts = record { sorted = insertion_sort-IsSorted; same = on_ring-insertion_sort }

operations-IsRing_example :
    IsRing (new_hash_ring 2)
    × IsRing (add_node lib (bytes "c") ring)
    × IsRing (remove_node (bytes "a") ring)
operations-IsRing_example =
    operations-IsRing lib (bytes "c") (bytes "a") ring 2 lib-Sorts ring-IsRing

get_nodes_example :
    (ns : List GoString) × (get_nodes lib (bytes "A") 3 ring ≡ some ns)
    × AreDistinct ns
    × AreNodes ns ring
    × (length ns ≡ min 3 (length ring.node_map))
unfolding get str_eq
get_nodes_example =
    get_nodes_lem lib (bytes "A") 3 ring (λ n f. omega (arith, (least_lem n 0 f).1)) ring-IsRing
      (omega arith)

walk_ends_example : walk ring.vnodes 1 2 (8 + 5) 0 [] ≡ walk ring.vnodes 1 2 8 0 []
walk_ends_example = walk_ends ring.vnodes 1 2 8 5 0 [] (omega arith) (omega arith)
