-- ===== src/Partition/Ring/Members.antt =====
-- What joining and leaving do to the ring.
use hermes.Base.{
  ℕ, zero, suc, ◌+◌, ◌<◌, ◌≡◌, ◌≢◌, refl, sym, ◌∙◌, subst, Bool, true, false, List, [], ◌∷◌, ◌++◌,
  if◌then◌else◌, GoString, str_eq, str_eq_iff, string_eq, arith, Bool-cases, inl, inr, none,
}
use hermes.Base.Dict.{get, get-put, get-delete, IsMap, put-IsMap, delete-IsMap}
use hermes.Partition.Ring.{
  HashRing, VirtualNode, Library, new_hash_ring, add_node, remove_node, without, new_vnodes,
  has_node,
}
use hermes.Partition.Ring.Search.{IsSorted}
use hermes.Partition.Ring.Owner.{without-IsSorted}

-- Some virtual node is of the physical node.
unfoldable pub on_ring : GoString → List VirtualNode → Bool
on_ring id [] = false
on_ring id (v ∷ vs) = let rest = on_ring id vs in if str_eq v.node_id id then true else rest

-- What `sort.Slice` with the order of the ring documents: the result is sorted, and holds the same
-- virtual nodes.
pub record Sorts (sort : List VirtualNode → List VirtualNode) : Type 0 where
  pub sorted : (vs : List VirtualNode) → IsSorted (sort vs)
  pub same : (id : GoString) (vs : List VirtualNode) → on_ring id (sort vs) ≡ on_ring id vs

pub record IsRing (r : HashRing) : Type 0 where
  pub distinct : IsMap r.node_map
  pub present : (id : GoString) → get id r.node_map ≢ none → on_ring id r.vnodes ≡ true
  pub members : (id : GoString) → on_ring id r.vnodes ≡ true → get id r.node_map ≢ none
  pub in_order : IsSorted r.vnodes
  pub some_vnodes : 0 < r.virtual_nodes

on_ring-append :
    (id : GoString) (xs ys : List VirtualNode)
    → on_ring id (xs ++ ys) ≡ (if on_ring id xs then true else on_ring id ys)
unfolding on_ring
on_ring-append id [] ys = refl
on_ring-append id (x ∷ xs) ys = ground (arith, on_ring-append id xs ys)

on_ring-without :
    (id gone : GoString) (vs : List VirtualNode)
    → gone ≢ id
    → on_ring id (without gone vs) ≡ on_ring id vs
unfolding on_ring without
on_ring-without id gone [] other = refl
on_ring-without id gone (v ∷ vs) other = ground (
  arith,
  on_ring-without id gone vs other,
  str_eq_iff v.node_id gone,
  str_eq_iff v.node_id id,
  other,
)

on_ring-without_itself :
    (id : GoString) (vs : List VirtualNode) → on_ring id (without id vs) ≡ false
unfolding on_ring without
on_ring-without_itself id [] = refl
on_ring-without_itself id (v ∷ vs) = ground (arith, on_ring-without_itself id vs)

on_ring-others :
    (lib : Library) (id k : GoString) (i n : ℕ)
    → str_eq id k ≡ false
    → on_ring k (new_vnodes lib id i n) ≡ false
unfolding on_ring new_vnodes
on_ring-others lib id k i zero other = refl
on_ring-others lib id k i (suc n) other =
    ground (arith, other, on_ring-others lib id k (i + 1) n other)

on_ring-new_vnodes :
    (lib : Library) (id : GoString) (n : ℕ) → 0 < n → on_ring id (new_vnodes lib id 0 n) ≡ true
unfolding on_ring new_vnodes
on_ring-new_vnodes lib id zero some' = absurd (omega (arith, some'))
on_ring-new_vnodes lib id (suc n) some' = ground (arith, str_eq_iff id id)

add_node-IsRing :
    (lib : Library) (id : GoString) (r : HashRing)
    → Sorts lib.sort_by_hash
    → IsRing r
    → IsRing (add_node lib id r)
unfolding add_node
add_node-IsRing lib id r sorts ring = elim (Bool-cases (has_node id r.node_map)) [
  | inl there ↦ rw there ring
  | inr new ↦
      let added = new_vnodes lib id 0 r.virtual_nodes in
      rw new (record {
        distinct = put-IsMap id true r.node_map ring.distinct;
        present = λ k bound.
            sorts.same k (r.vnodes ++ added)
            ∙ on_ring-append k r.vnodes added
            ∙ (elim (Bool-cases (str_eq id k)) [
              | inl here ↦
                  let own : on_ring k added ≡ true =
                    subst (λ j. on_ring j added ≡ true) ((str_eq_iff id k).0 here)
                      (on_ring-new_vnodes lib id r.virtual_nodes ring.some_vnodes) in
                  ground (arith, own)
              | inr other ↦
                  let old : on_ring k r.vnodes ≡ true =
                    ring.present k (λ e. bound (get-put id k true r.node_map ∙ rw other e)) in
                  ground (arith, old)
            ]);
        members = λ k on gone. elim (Bool-cases (str_eq id k)) [
          | inl here ↦ ground (arith, gone, get-put id k true r.node_map, here)
          | inr other ↦
              let old : on_ring k r.vnodes ≡ true = ground (
                arith,
                on,
                sorts.same k (r.vnodes ++ added),
                on_ring-append k r.vnodes added,
                on_ring-others lib id k 0 r.virtual_nodes other,
              ) in
              ring.members k old (ground (arith, gone, get-put id k true r.node_map, other))
        ];
        in_order = sorts.sorted (r.vnodes ++ added);
        some_vnodes = ring.some_vnodes;
      })
]

remove_node-IsRing : (id : GoString) (r : HashRing) → IsRing r → IsRing (remove_node id r)
unfolding remove_node
remove_node-IsRing id r ring = elim (Bool-cases (has_node id r.node_map)) [
  | inr absent ↦ rw absent ring
  | inl there ↦ rw there (record {
    distinct = delete-IsMap id r.node_map ring.distinct;
    present = λ k bound. elim (Bool-cases (str_eq id k)) [
      | inl here ↦ absurd (bound (get-delete id k r.node_map ∙ rw here refl))
      | inr other ↦
          let apart : id ≢ k = λ e. ground (arith, other, str_eq_iff id k, e) in
          on_ring-without k id r.vnodes apart
          ∙ ring.present k (λ e. bound (get-delete id k r.node_map ∙ rw other e))
    ];
    members = λ k on gone. elim (Bool-cases (str_eq id k)) [
      | inl here ↦
          let same : id ≡ k = (str_eq_iff id k).0 here in
          let off : on_ring k (without id r.vnodes) ≡ false =
            subst (λ j. on_ring j (without id r.vnodes) ≡ false) same
              (on_ring-without_itself id r.vnodes) in
          ground (arith, on, off)
      | inr other ↦
          let apart : id ≢ k = λ e. ground (arith, other, str_eq_iff id k, e) in
          ring.members k (sym (on_ring-without k id r.vnodes apart) ∙ on)
            (ground (arith, gone, get-delete id k r.node_map, other))
    ];
    in_order = without-IsSorted id r.vnodes ring.in_order;
    some_vnodes = ring.some_vnodes;
  })
]

-- A new ring is sound, and stays so when nodes join and leave: no node is in the map twice, each has a
-- virtual node on the ring, each virtual node is of a node in the map, and the virtual nodes are
-- sorted. The sort is `sort.Slice` as it is
-- documented.
pub operations-IsRing :
    (lib : Library) (id gone : GoString) (r : HashRing) (n : ℕ)
    → Sorts lib.sort_by_hash
    → IsRing r
    → IsRing (new_hash_ring n) × IsRing (add_node lib id r) × IsRing (remove_node gone r)
unfolding new_hash_ring get on_ring
operations-IsRing lib id gone r n sorts ring = (
  record {
    distinct = record { lower = tt };
    present = λ k bound. absurd (bound refl);
    members = λ k on. ground (arith, on);
    in_order = tt;
    some_vnodes = ground arith;
  },
  add_node-IsRing lib id r sorts ring,
  remove_node-IsRing gone r ring,
)
