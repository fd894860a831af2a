-- ===== src/Consistency/Counters/Merge.antt =====
-- The merge of counters, node by node.
use hermes.Base.{
  ℕ, ◌≡◌, refl, Option, none, some, [], ◌∷◌, max, if◌then◌else◌, GoString, string_eq, str_eq,
  str_eq_iff, arith, sym, ◌∙◌, Bool-cases, subst, ap, inl, inr,
}
use hermes.Base.Dict.{Dict, get, put, get-put, IsMap, put-IsMap}
use hermes.Consistency.Counters.{GCounter, merge, merge_counts, exceeds}

-- The greater of two counts, of which each may be missing.
abbrev pub join : Option ℕ → Option ℕ → Option ℕ
join none y = y
join (some m) none = some m
join (some m) (some n) = some (max m n)

join_comm : (x y : Option ℕ) → join x y ≡ join y x
join_comm none none = refl
join_comm none (some n) = refl
join_comm (some m) none = refl
join_comm (some m) (some n) = ground arith

join-none : (x : Option ℕ) → join x none ≡ x
join-none x = join_comm x none

join_assoc : (x y z : Option ℕ) → join (join x y) z ≡ join x (join y z)
join_assoc none y z = refl
join_assoc (some m) none z = refl
join_assoc (some m) (some n) none = refl
join_assoc (some m) (some n) (some o) = ground arith

join_idem : (x : Option ℕ) → join x x ≡ x
join_idem none = refl
join_idem (some m) = ground arith

-- The update of one count.
get-update :
    (k j : GoString) (n : ℕ) (mine : Dict GoString ℕ)
    → get k (if exceeds n (get j mine) then put j n mine else mine)
      ≡ (if str_eq j k then join (get k mine) (some n) else get k mine)
get-update k j n mine = elim (Bool-cases (str_eq j k)) [
  | inl here ↦
      let same : get j mine ≡ get k mine = ap (λ i. get i mine) ((str_eq_iff j k).0 here) in
      ground (arith, get-put j k n mine)
  | inr there ↦ ground (arith, get-put j k n mine)
]

merge_counts-IsMap : (other mine : Dict GoString ℕ) → IsMap mine → IsMap (merge_counts other mine)
unfolding merge_counts
merge_counts-IsMap [] mine m = m
merge_counts-IsMap ((j, n) ∷ other) mine m = elim (Bool-cases (exceeds n (get j mine))) [
  | inl yes' ↦ rw yes' (merge_counts-IsMap other (put j n mine) (put-IsMap j n mine m))
  | inr no' ↦ rw no' (merge_counts-IsMap other mine m)
]

get-merge_counts :
    (k : GoString) (other mine : Dict GoString ℕ)
    → IsMap other
    → get k (merge_counts other mine) ≡ join (get k mine) (get k other)
unfolding merge_counts get
get-merge_counts k [] mine m = sym (join-none (get k mine))
get-merge_counts k ((j, n) ∷ other) mine (absent, m) =
    let mine' : Dict GoString ℕ = if exceeds n (get j mine) then put j n mine else mine in
    let rest = get-merge_counts k other mine' m in
    elim (Bool-cases (str_eq j k)) [
      | inl here ↦
          let absent' : get k other ≡ none =
            subst (λ i. get i other ≡ none) ((str_eq_iff j k).0 here) absent in
          rest ∙ rw (absent', get-update k j n mine, here) (join-none (join (get k mine) (some n)))
      | inr there ↦ rest ∙ rw (get-update k j n mine, there) refl
    ]

-- The merge of two counters holds, for each node, the greater of their counts, or the count of the
-- one that has it. So merges commute and associate, and merging a counter with itself changes no
-- count. The counters' maps bind no key twice.
pub counters_join :
    (k : GoString) (a b c : GCounter)
    → IsMap a.counts
    → IsMap b.counts
    → IsMap c.counts
    → (get k (merge a b).counts ≡ join (get k a.counts) (get k b.counts))
      × (get k (merge a b).counts ≡ get k (merge b a).counts)
      × (get k (merge (merge a b) c).counts ≡ get k (merge a (merge b c)).counts)
      × (get k (merge a a).counts ≡ get k a.counts)
unfolding merge
counters_join k a b c ma mb mc =
    let x = get k a.counts in
    let y = get k b.counts in
    let z = get k c.counts in
    let ab = get-merge_counts k b.counts a.counts mb in
    let abc = get-merge_counts k c.counts (merge_counts b.counts a.counts) mc in
    let bc = get-merge_counts k c.counts b.counts mc in
    let abc' =
      get-merge_counts k (merge_counts c.counts b.counts) a.counts
        (merge_counts-IsMap c.counts b.counts mb) in
    (
      ab,
      ab ∙ join_comm x y ∙ sym (get-merge_counts k a.counts b.counts ma),
      abc ∙ ap (λ w. join w z) ab ∙ join_assoc x y z ∙ sym (abc' ∙ ap (join x) bc),
      get-merge_counts k a.counts a.counts ma ∙ join_idem x,
    )
