-- ===== src/Clock/Vector.antt =====
-- pkg/clock/vector_clock.go. A vector is a map from node to an `int64`, kept as its bit pattern; the
-- model visits a map's keys in the order of its list, which Go leaves open.
pub mod Compare
pub mod Receive
use hermes.Base.{
  ℕ, ◌+◌, Bool, true, false, ◌&&◌, Option, none, some, List, [], ◌∷◌, if◌then◌else◌, i64_lt, u64,
  GoString, string_eq,
}
use hermes.Base.Dict.{Dict, get, put}

abbrev pub Vector : Type 0
Vector = Dict GoString ℕ

pub record VectorClock : Type 0 where
  pub node_id : GoString
  pub vector : Vector

abbrev pub value_or_zero : Option ℕ → ℕ
value_or_zero none = 0
value_or_zero (some n) = n

-- `v[k]`, which is 0 for a missing key
pub at : GoString → Vector → ℕ
at k v = value_or_zero (get k v)

pub add_peers : List GoString → Vector → Vector
add_peers [] v = v
add_peers (p ∷ ps) v = add_peers ps (put p 0 v)

pub new_vector_clock : GoString → List GoString → VectorClock
unfolding add_peers
new_vector_clock id peers = record { node_id = id; vector = add_peers peers (put id 0 []) }

pub tick : VectorClock → VectorClock × Vector
unfolding at
tick c =
    let v = put c.node_id (u64 (at c.node_id c.vector + 1)) c.vector in (record c { vector = v }, v)

-- `Send` has the body of `Tick`.
pub send : VectorClock → VectorClock × Vector
unfolding at
send c =
    let v = put c.node_id (u64 (at c.node_id c.vector + 1)) c.vector in (record c { vector = v }, v)

abbrev pub newer : ℕ → Option ℕ → Bool
newer t none = true
newer t (some local) = i64_lt local t

pub merge_received : Vector → Vector → Vector
merge_received [] v = v
merge_received ((k, t) ∷ received) v =
    merge_received received (if newer t (get k v) then put k t v else v)

pub receive : VectorClock → Vector → VectorClock × Vector
unfolding merge_received at
receive c received =
    let v = merge_received received c.vector in
    let v' = put c.node_id (u64 (at c.node_id v + 1)) v in (record c { vector = v' }, v')

pub data Relation : Type 0 where
  before after concurrent equal : Relation

pub mark_keys : Vector → Dict GoString Bool → Dict GoString Bool
mark_keys [] seen = seen
mark_keys ((k, t) ∷ v) seen = mark_keys v (put k true seen)

-- The flags of `Compare` at one node.
abbrev pub less_flags : ℕ → ℕ → Bool × Bool → Bool × Bool
less_flags x y (a_less, b_less) =
    if i64_lt x y then (true, b_less) else if i64_lt y x then (a_less, true) else (a_less, b_less)

abbrev pub verdict : Bool × Bool → Relation
verdict (false, false) = equal
verdict (true, false) = before
verdict (false, true) = after
verdict (true, true) = concurrent

-- The loop of `Compare`, which stops once both flags are set.
pub compare_at : Vector → Vector → Dict GoString Bool → Bool × Bool → Relation
unfolding at
compare_at a b [] flags = verdict flags
compare_at a b ((k, seen) ∷ nodes) flags =
    let flags' = less_flags (at k a) (at k b) flags in
    elim (flags'.0 && flags'.1) [ true ↦ concurrent | false ↦ compare_at a b nodes flags' ]

pub compare : Vector → Vector → Relation
unfolding mark_keys compare_at
compare a b = compare_at a b (mark_keys b (mark_keys a [])) (false, false)

is_concurrent_relation : Relation → Bool
is_concurrent_relation concurrent = true
is_concurrent_relation _ = false

pub is_concurrent : Vector → Vector → Bool
unfolding is_concurrent_relation
is_concurrent a b = is_concurrent_relation (compare a b)
