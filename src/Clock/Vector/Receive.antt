-- ===== src/Clock/Vector/Receive.antt =====
-- What `Receive` leaves at each node of the vector.
use hermes.Base.{
  ℕ, ◌+◌, ◌≡◌, refl, ap, subst, sym, ◌∙◌, Option, none, some, [], ◌∷◌, inl, inr, Bool-cases,
  if◌then◌else◌, i64_lt, u64, GoString, string_eq, str_eq, str_eq_iff, arith,
}
use hermes.Base.Dict.{get, put, get-put, IsMap}
use hermes.Clock.Vector.{Vector, VectorClock, value_or_zero, at, newer, merge_received, receive}

-- The later of two entries as `int64`s, of which each may be missing.
abbrev pub joined : Option ℕ → Option ℕ → Option ℕ
joined none y = y
joined (some m) none = some m
joined (some m) (some n) = some (if i64_lt m n then n else m)

joined-none : (x : Option ℕ) → joined x none ≡ x
joined-none none = refl
joined-none (some m) = refl

get-update :
    (k j : GoString) (t : ℕ) (v : Vector)
    → get k (if newer t (get j v) then put j t v else v)
      ≡ (if str_eq j k then joined (get k v) (some t) else get k v)
get-update k j t v = elim (Bool-cases (str_eq j k)) [
  | inl here ↦
      let same : get j v ≡ get k v = ap (λ i. get i v) ((str_eq_iff j k).0 here) in
      ground (arith, get-put j k t v)
  | inr there ↦ ground (arith, get-put j k t v)
]

get-merge_received :
    (k : GoString) (received v : Vector)
    → IsMap received
    → get k (merge_received received v) ≡ joined (get k v) (get k received)
unfolding merge_received get
get-merge_received k [] v m = sym (joined-none (get k v))
get-merge_received k ((j, t) ∷ received) v (absent, m) =
    let v' : Vector = if newer t (get j v) then put j t v else v in
    let rest = get-merge_received k received v' m in
    elim (Bool-cases (str_eq j k)) [
      | inl here ↦
          let absent' : get k received ≡ none =
            subst (λ i. get i received ≡ none) ((str_eq_iff j k).0 here) absent in
          rest ∙ rw (absent', get-update k j t v, here) (joined-none (joined (get k v) (some t)))
      | inr there ↦ rest ∙ rw (get-update k j t v, there) refl
    ]

-- `Receive` of a map that binds no node twice keeps, for each node but its own, the later of its
-- entry and the message's, or the one that there is. Its own entry is one more than the later of the
-- two, as a 64-bit pattern, and the vector it returns is the one it keeps.
pub receive_lem :
    (k : GoString) (c : VectorClock) (received : Vector)
    → IsMap received
    → (get k (receive c received).1 ≡ (
        if str_eq c.node_id k
        then some
            (u64 (value_or_zero (joined (get c.node_id c.vector) (get c.node_id received)) + 1))
        else joined (get k c.vector) (get k received)))
      × ((receive c received).0.vector ≡ (receive c received).1)
unfolding receive at
receive_lem k c received m =
    let v : Vector = merge_received received c.vector in
    let own : ℕ = u64 (value_or_zero (get c.node_id v) + 1) in
    (
      get-put c.node_id k own v
          ∙ rw
              (
                get-merge_received c.node_id received c.vector m,
                get-merge_received k received c.vector m,
              )
              refl,
      refl,
    )
