-- ===== src/Partition/Ring/Owner.antt =====
-- Which node a key belongs to, and which keys move when a node leaves.
use hermes.Base.{
  Option-cases, string_eq, ℕ, ◌≡◌, ◌≢◌, refl, sym, ap, ◌∙◌, List, [], ◌∷◌, length, ◌==◌,
  if◌then◌else◌, GoString, str_eq, str_eq_iff, arith, Bool-cases, inl, inr, Option, none, some,
}
use hermes.Base.Dict.{delete}
use hermes.Partition.Ring.{
  HashRing, VirtualNode, Library, get_node, start_of, remove_node, without, id_at, has_node,
}
use hermes.Partition.Ring.Search.{
  IsLeast, IsSorted, IsBefore, search-position, first_at, owner, owner-position,
}

unless_empty :
    (h : ℕ) (vs : List VirtualNode) (x : Option GoString)
    → x ≡ owner h vs
    → (if length vs == 0 then none else x) ≡ owner h vs
unfolding owner first_at
unless_empty h [] x same = refl
unless_empty h (v ∷ vs) x same = ground (arith, same)

-- On a sorted ring a key belongs to the node of the first virtual node at or past the key's hash, and
-- if none is, to that of the first of the ring. The search is `sort.Search` as it is documented.
pub get_node-owner :
    (lib : Library) (key : GoString) (r : HashRing)
    → IsLeast lib.search
    → IsSorted r.vnodes
    → get_node lib key r ≡ owner (lib.hash_key key) r.vnodes
unfolding get_node start_of
get_node-owner lib key r least sorted =
    let h = lib.hash_key key in
    let found = search-position lib h r.vnodes least sorted in
    unless_empty h r.vnodes (id_at r.vnodes (start_of lib key r.vnodes)) (
      ap (λ i. id_at r.vnodes (if i == length r.vnodes then 0 else i)) found
      ∙ owner-position h r.vnodes)

first_at-without :
    (h : ℕ) (id n : GoString) (vs : List VirtualNode)
    → n ≢ id
    → (first_at h vs ≡ some n → first_at h (without id vs) ≡ some n)
      × (first_at h vs ≡ none → first_at h (without id vs) ≡ none)
unfolding first_at without
first_at-without h id n [] other = (λ e. e, λ e. e)
first_at-without h id n (v ∷ vs) other =
    ground (arith, first_at-without h id n vs other, str_eq_iff v.node_id id, other)

head-without :
    (id n : GoString) (vs : List VirtualNode)
    → n ≢ id
    → id_at vs 0 ≡ some n
    → id_at (without id vs) 0 ≡ some n
unfolding without
head-without id n [] other h = h
head-without id n (v ∷ vs) other h = ground (arith, h, other, str_eq_iff v.node_id id)

owner-without :
    (h : ℕ) (id n : GoString) (vs : List VirtualNode)
    → n ≢ id
    → owner h vs ≡ some n
    → owner h (without id vs) ≡ some n
unfolding owner
owner-without h id n vs other owns = elim (Option-cases (first_at h vs)) [
  | inl past ↦
      let head : id_at vs 0 ≡ some n = ground (arith, owns, past) in
      ground (arith, (first_at-without h id n vs other).1 past, head-without id n vs other head)
  | inr (m, found) ↦
      let here : first_at h vs ≡ some n = ground (arith, owns, found) in
      ground (arith, (first_at-without h id n vs other).0 here)
]

without-IsBefore :
    (h : ℕ) (id : GoString) (vs : List VirtualNode) → IsBefore h vs → IsBefore h (without id vs)
unfolding without
without-IsBefore h id [] before = before
without-IsBefore h id (v ∷ vs) (here, before) = elim (Bool-cases (str_eq v.node_id id)) [
  | inl same ↦ rw same (without-IsBefore h id vs before)
  | inr other ↦ rw other (here, without-IsBefore h id vs before)
]

pub without-IsSorted :
    (id : GoString) (vs : List VirtualNode) → IsSorted vs → IsSorted (without id vs)
unfolding without
without-IsSorted id [] sorted = sorted
without-IsSorted id (v ∷ vs) (here, sorted) = elim (Bool-cases (str_eq v.node_id id)) [
  | inl same ↦ rw same (without-IsSorted id vs sorted)
  | inr other ↦ rw other (without-IsBefore v.hash id vs here, without-IsSorted id vs sorted)
]

-- Where a node leaves a sorted ring, a key of another node stays where it is, and the ring stays
-- sorted. The search is `sort.Search` as it is documented.
pub remove_node_moves_no_other :
    (lib : Library) (key id n : GoString) (r : HashRing)
    → IsLeast lib.search
    → IsSorted r.vnodes
    → n ≢ id
    → get_node lib key r ≡ some n
    → (get_node lib key (remove_node id r) ≡ some n) × IsSorted (remove_node id r).vnodes
unfolding remove_node
remove_node_moves_no_other lib key id n r least sorted other belongs =
    let h = lib.hash_key key in
    let left : HashRing = record r {
      node_map = delete id r.node_map;
      vnodes = without id r.vnodes;
    } in
    let sorted' = without-IsSorted id r.vnodes sorted in
    let moved : get_node lib key left ≡ some n =
      get_node-owner lib key left least sorted'
      ∙ owner-without h id n r.vnodes other
          (sym (get_node-owner lib key r least sorted) ∙ belongs) in
    elim (Bool-cases (has_node id r.node_map)) [
      | inl present ↦ rw present (moved, sorted')
      | inr absent ↦ rw absent (belongs, sorted)
    ]
