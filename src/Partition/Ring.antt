-- ===== src/Partition/Ring.antt =====
-- pkg/partition/consistent_hash.go. The hash, `sort.Search`, `sort.Slice` with the order of the ring,
-- and the `%d` of `fmt` are arguments. The percentages and the picture of the ring are left out.
pub mod Search
pub mod Owner
pub mod Walk
pub mod Counting
pub mod Members
use hermes.Base.{
  ℕ, zero, suc, ◌+◌, ◌-◌, ◌*◌, ◌%◌, Bool, true, false, not, Option, none, some, List, [], ◌∷◌, ◌++◌,
  length, get_elem?, leb, ltb, ◌==◌, if◌then◌else◌, map, GoString, bytes, str_eq, string_eq,
}
use hermes.Base.Dict.{Dict, get, put, delete}

abbrev default_virtual_nodes : ℕ
default_virtual_nodes = 150

pub record VirtualNode : Type 0 where
  pub hash : ℕ
  pub node_id : GoString
  pub vnode_index : ℕ

pub record HashRing : Type 0 where
  pub vnodes : List VirtualNode
  pub node_map : Dict GoString Bool
  pub virtual_nodes : ℕ

-- A number that is not above 0 stands for the default.
pub new_hash_ring : ℕ → HashRing
new_hash_ring virtual_nodes = record {
  vnodes = [];
  node_map = [];
  virtual_nodes = if virtual_nodes == 0 then default_virtual_nodes else virtual_nodes;
}

-- What the ring takes from libraries.
pub record Library : Type 0 where
  pub hash_key : GoString → ℕ
  pub search : ℕ → (ℕ → Bool) → ℕ
  pub sort_by_hash : List VirtualNode → List VirtualNode
  pub decimal : ℕ → List ℕ

-- `r.nodeMap[nodeID]`, false where the key is missing
abbrev pub has_node : GoString → Dict GoString Bool → Bool
has_node id nodes = elim (get id nodes) [ none ↦ false | some b ↦ b ]

-- The hash of the virtual node at a position, which is in range where the source asks for it.
unfoldable pub hash_at : List VirtualNode → ℕ → ℕ
hash_at [] i = 0
hash_at (v ∷ vs) zero = v.hash
hash_at (v ∷ vs) (suc i) = hash_at vs i

pub without : GoString → List VirtualNode → List VirtualNode
without id [] = []
without id (v ∷ vs) =
    let rest = without id vs in if not (str_eq v.node_id id) then v ∷ rest else rest

pub remove_node : GoString → HashRing → HashRing
remove_node id r =
    if not (has_node id r.node_map)
    then r
    else record r { node_map = delete id r.node_map; vnodes = without id r.vnodes }

abbrev pub id_at : List VirtualNode → ℕ → Option GoString
id_at vnodes i = elim (get_elem? vnodes i) [ none ↦ none | some v ↦ some v.node_id ]

module _ (lib : Library) where
  -- The virtual nodes from the index `i` on, so many.
  unfoldable pub new_vnodes : GoString → ℕ → ℕ → List VirtualNode
  new_vnodes id i zero = []
  new_vnodes id i (suc n) =
      record {
        hash = lib.hash_key (id ++ bytes "-vnode-" ++ lib.decimal i);
        node_id = id;
        vnode_index = i;
      }
      ∷ new_vnodes id (i + 1) n

  unfoldable pub add_node : GoString → HashRing → HashRing
  add_node id r = if has_node id r.node_map then r else record r {
    node_map = put id true r.node_map;
    vnodes = lib.sort_by_hash (r.vnodes ++ new_vnodes id 0 r.virtual_nodes);
  }

  -- The position on the ring where a key's walk starts.
  unfoldable pub start_of : GoString → List VirtualNode → ℕ
  start_of key vnodes =
      let n = length vnodes in
      let hash = lib.hash_key key in
      let i = lib.search n (λ i. leb hash (hash_at vnodes i)) in if i == n then 0 else i

  -- `none` is the error that the ring is empty.
  unfoldable pub get_node : GoString → HashRing → Option GoString
  get_node key r = if length r.vnodes == 0 then none else id_at r.vnodes (start_of key r.vnodes)

-- `seen[nodeID]`, for the nodes collected so far
pub is_seen : GoString → List GoString → Bool
is_seen id [] = false
is_seen id (n ∷ ns) = let rest = is_seen id ns in if str_eq n id then true else rest

abbrev pub collect : Option GoString → List GoString → List GoString
collect none nodes = nodes
collect (some id) nodes = if is_seen id nodes then nodes else nodes ++ id ∷ []

-- The walk from the round `i` on: it ends when enough nodes are collected, or after the round in which
-- `i` passes twice the length of the ring. The fuel bounds the rounds.
pub walk : List VirtualNode → ℕ → ℕ → ℕ → ℕ → List GoString → List GoString
walk vnodes start count zero i nodes = nodes
walk vnodes start count (suc fuel) i nodes =
    let nodes' = collect (id_at vnodes ((start + i) % length vnodes)) nodes in
    let rest = walk vnodes start count fuel (i + 1) nodes' in
    if leb count (length nodes) then nodes else if ltb (length vnodes * 2) i then nodes' else rest

-- Enough rounds for the walk.
abbrev pub rounds : List VirtualNode → ℕ
rounds vnodes = length vnodes * 2 + 2

-- `none` is the error that the ring is empty. A ring with nodes has virtual nodes, so the remainder
-- by their number is that of a division by a positive number.
pub get_nodes : Library → GoString → ℕ → HashRing → Option (List GoString)
get_nodes lib key count r =
    let physical = length r.node_map in
    let count' = if ltb physical count then physical else count in
    if physical == 0
    then none
    else some (walk r.vnodes (start_of lib key r.vnodes) count' (rounds r.vnodes) 0 [])

pub nodes : HashRing → List GoString
nodes r = map (λ b. b.0) r.node_map
