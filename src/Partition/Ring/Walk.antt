-- ===== src/Partition/Ring/Walk.antt =====
-- The walk along the ring: when it ends and which nodes it collects.
use hermes.Base.{
  min, ℕ, zero, suc, ◌+◌, ◌-◌, ◌*◌, ◌%◌, ◌≤◌, ◌<◌, ◌≡◌, ◌≢◌, ◌⊎◌, refl, sym, ap, ◌∙◌, subst, Bool,
  true, false, List, [], ◌∷◌, ◌++◌, length, length-append, leb, ltb, ◌==◌, if◌then◌else◌, GoString,
  str_eq, str_eq_iff, string_eq, arith, Bool-cases, Option-cases, inl, inr, Option, none, some,
}
use hermes.Base.Dict.{get}
use hermes.Partition.Ring.Members.{on_ring, IsRing}
use hermes.Partition.Ring.{
  HashRing, VirtualNode, Library, is_seen, collect, walk, id_at, get_nodes, start_of, rounds,
}
use hermes.Partition.Ring.Counting.{keys_fit, wraps, on_ring-index, start_of-le}

abbrev pub AreDistinct : List GoString → Type 0
AreDistinct [] = Unit {0}
AreDistinct (n ∷ ns) = (is_seen n ns ≡ false) × AreDistinct ns

is_seen-append :
    (x id : GoString) (ns : List GoString)
    → is_seen x (ns ++ id ∷ []) ≡ (if is_seen x ns then true else str_eq id x)
unfolding is_seen
is_seen-append x id [] = ground arith
is_seen-append x id (n ∷ ns) = ground (arith, is_seen-append x id ns)

AreDistinct-append :
    (id : GoString) (ns : List GoString)
    → AreDistinct ns
    → is_seen id ns ≡ false
    → AreDistinct (ns ++ id ∷ [])
unfolding is_seen
AreDistinct-append id [] distinct fresh = (refl, tt)
AreDistinct-append id (n ∷ ns) (here, distinct) fresh = (
  ground (arith, here, fresh, is_seen-append n id ns, str_eq_iff n id, str_eq_iff id n),
  AreDistinct-append id ns distinct (ground (arith, fresh)),
)

collect_lem :
    (o : Option GoString) (ns : List GoString)
    → AreDistinct ns
    → AreDistinct (collect o ns) × (length (collect o ns) ≤ length ns + 1)
collect_lem none ns distinct = (distinct, omega arith)
collect_lem (some id) ns distinct = elim (Bool-cases (is_seen id ns)) [
  | inl seen ↦ rw seen (distinct, omega arith)
  | inr fresh ↦
      rw fresh (AreDistinct-append id ns distinct fresh, omega (arith, length-append ns (id ∷ [])))
]

id_at-on_ring :
    (i : ℕ) (vs : List VirtualNode) (id : GoString) → id_at vs i ≡ some id → on_ring id vs ≡ true
unfolding on_ring
id_at-on_ring i [] id found = ground (arith, found)
id_at-on_ring zero (v ∷ vs) id found = ground (arith, found, str_eq_iff v.node_id id)
id_at-on_ring (suc i) (v ∷ vs) id found = ground (arith, id_at-on_ring i vs id found)

module _ (vs : List VirtualNode) (start count : ℕ) where
  walk_lem :
      (fuel i : ℕ) (ns : List GoString)
      → AreDistinct ns
      → length ns ≤ count
      → AreDistinct (walk vs start count fuel i ns)
        × (length (walk vs start count fuel i ns) ≤ count)
  unfolding walk
  walk_lem zero i ns distinct few = (distinct, few)
  walk_lem (suc fuel) i ns distinct few =
      let next = collect (id_at vs ((start + i) % length vs)) ns in
      let (distinct', longer) = collect_lem (id_at vs ((start + i) % length vs)) ns distinct in
      elim (Bool-cases (leb count (length ns))) [
        | inl enough ↦ rw enough (distinct, few)
        | inr more ↦
            let few' : length next ≤ count = ground (arith, more, longer) in
            elim (Bool-cases (ltb (length vs * 2) i)) [
              | inl last ↦ rw (more, last) (distinct', few')
              | inr on ↦ rw (more, on) (walk_lem fuel (i + 1) next distinct' few')
            ]
      ]

  -- From the round `i` on, with fuel for the rounds up to the last, one more than twice the length of
  -- the ring, any more fuel changes nothing: the walk has ended.
  pub walk_ends :
      (fuel extra i : ℕ) (ns : List GoString)
      → length vs * 2 + 2 ≤ fuel + i
      → i ≤ length vs * 2 + 1
      → walk vs start count (fuel + extra) i ns ≡ walk vs start count fuel i ns
  unfolding walk
  walk_ends zero extra i ns enough early = absurd (omega (arith, enough, early))
  walk_ends (suc fuel) extra i ns enough early =
      let next = collect (id_at vs ((start + i) % length vs)) ns in
      let shift : suc fuel + extra ≡ suc (fuel + extra) = omega arith in
      ap (λ f. walk vs start count f i ns) shift ∙ (elim (Bool-cases (ltb (length vs * 2) i)) [
        | inl last ↦ rw last refl
        | inr on ↦
            ap
              (λ rest.
                if leb count (length ns) then ns else if ltb (length vs * 2) i then next else rest)
              (walk_ends fuel extra (i + 1) next (omega (arith, enough)) (ground (arith, on)))
      ])

  -- A node that has been collected stays so.
  collect-seen :
      (x : GoString) (o : Option GoString) (ns : List GoString)
      → is_seen x ns ≡ true
      → is_seen x (collect o ns) ≡ true
  collect-seen x none ns seen = seen
  collect-seen x (some id) ns seen = ground (arith, seen, is_seen-append x id ns)

  collect-new : (x : GoString) (ns : List GoString) → is_seen x (collect (some x) ns) ≡ true
  collect-new x ns = ground (arith, is_seen-append x x ns, str_eq_iff x x)

  -- The nodes of the rounds before `i` have been collected.
  abbrev Collected : ℕ → List GoString → Type 0
  Collected i ns =
      (k : ℕ) (x : GoString)
      → k < i
      → id_at vs ((start + k) % length vs) ≡ some x
      → is_seen x ns ≡ true

  Collected-next :
      (i : ℕ) (ns : List GoString)
      → Collected i ns
      → Collected (i + 1) (collect (id_at vs ((start + i) % length vs)) ns)
  Collected-next i ns before k x small here = elim (Bool-cases (k == i)) [
    | inl same ↦
        let e : k ≡ i = ground (arith, same) in
        let now : id_at vs ((start + i) % length vs) ≡ some x =
          subst (λ j. id_at vs ((start + j) % length vs) ≡ some x) e here in
        rw now (collect-new x ns)
    | inr earlier ↦
        collect-seen x (id_at vs ((start + i) % length vs)) ns
          (before k x (ground (arith, small, earlier)) here)
  ]

  walk_collects :
      (fuel i : ℕ) (ns : List GoString)
      → length vs * 2 + 2 ≤ fuel + i
      → i ≤ length vs * 2 + 1
      → Collected i ns
      → (count ≤ length (walk vs start count fuel i ns))
        ⊎ Collected (length vs * 2 + 1) (walk vs start count fuel i ns)
  unfolding walk
  walk_collects zero i ns enough early before = absurd (omega (arith, enough, early))
  walk_collects (suc fuel) i ns enough early before =
      let next = collect (id_at vs ((start + i) % length vs)) ns in
      elim (Bool-cases (leb count (length ns))) [
        | inl full ↦ rw full (inl (ground (arith, full)))
        | inr more ↦ elim (Bool-cases (ltb (length vs * 2) i)) [
          | inl last ↦
              let e : i + 1 ≡ length vs * 2 + 2 = ground (arith, last, early) in
              rw (more, last)
                (inr (λ k x small. Collected-next i ns before k x (omega (arith, small, e))))
          | inr on ↦
              rw (more, on)
                (walk_collects fuel (i + 1) next (omega (arith, enough)) (ground (arith, on))
                  (Collected-next i ns before))
        ]
      ]

  -- Every string of a list names a virtual node of the ring.
  abbrev AllOn : List GoString → Type 0
  AllOn [] = Unit {0}
  AllOn (n ∷ ns) = (on_ring n vs ≡ true) × AllOn ns

  AllOn-append :
      (ns : List GoString) (id : GoString) → AllOn ns → on_ring id vs ≡ true → AllOn (ns ++ id ∷ [])
  AllOn-append [] id all on = (on, tt)
  AllOn-append (n ∷ ns) id (here, all) on = (here, AllOn-append ns id all on)

  AllOn-collect : (i : ℕ) (ns : List GoString) → AllOn ns → AllOn (collect (id_at vs i) ns)
  AllOn-collect i ns all = elim (Option-cases (id_at vs i)) [
    | inl past ↦ rw past all
    | inr (id, found) ↦ rw found (elim (Bool-cases (is_seen id ns)) [
      | inl seen ↦ rw seen all
      | inr fresh ↦ rw fresh (AllOn-append ns id all (id_at-on_ring i vs id found))
    ])
  ]

  walk-AllOn : (fuel i : ℕ) (ns : List GoString) → AllOn ns → AllOn (walk vs start count fuel i ns)
  unfolding walk
  walk-AllOn zero i ns all = all
  walk-AllOn (suc fuel) i ns all =
      let next = collect (id_at vs ((start + i) % length vs)) ns in
      let all' : AllOn next = AllOn-collect ((start + i) % length vs) ns all in
      elim (Bool-cases (leb count (length ns))) [
        | inl enough ↦ rw enough all
        | inr more ↦ elim (Bool-cases (ltb (length vs * 2) i)) [
          | inl last ↦ rw (more, last) all'
          | inr on ↦ rw (more, on) (walk-AllOn fuel (i + 1) next all')
        ]
      ]

-- Every string of a list is a node of the ring.
abbrev pub AreNodes : List GoString → HashRing → Type 0
AreNodes [] r = Unit {0}
AreNodes (n ∷ ns) r = (get n r.node_map ≢ none) × AreNodes ns r

AllOn-AreNodes :
    (r : HashRing) (start count : ℕ) (ns : List GoString)
    → IsRing r
    → AllOn r.vnodes start count ns
    → AreNodes ns r
AllOn-AreNodes r start count [] ring all = tt
AllOn-AreNodes r start count (n ∷ ns) ring (on, all) =
    (ring.members n on, AllOn-AreNodes r start count ns ring all)

-- On a sound ring with a node, a key gets as many different nodes of the ring as are asked for, or all
-- of them if these are fewer. The search stays in its range.
pub get_nodes_lem :
    (lib : Library) (key : GoString) (count : ℕ) (r : HashRing)
    → ((n : ℕ) (f : ℕ → Bool) → lib.search n f ≤ n)
    → IsRing r
    → 0 < length r.node_map
    → (ns : List GoString) × (get_nodes lib key count r ≡ some ns)
      × AreDistinct ns
      × AreNodes ns r
      × (length ns ≡ min count (length r.node_map))
unfolding get_nodes
get_nodes_lem lib key count r bounded ring inhabited =
    let physical = length r.node_map in
    let vs = r.vnodes in
    let start = start_of lib key vs in
    let count' = if ltb physical count then physical else count in
    let ns = walk vs start count' (rounds vs) 0 [] in
    let start_small : start ≤ length vs = start_of-le lib key vs bounded in
    let (different, few) = walk_lem vs start count' (rounds vs) 0 [] tt (omega arith) in
    let many : count' ≤ length ns =
      elim (walk_collects vs start count' (rounds vs) 0 [] (omega arith) (omega arith)
        (λ k x small. absurd (omega (arith, small)))) [
          | inl full ↦ full
          | inr all ↦
              let fit = keys_fit r.node_map ns ring.distinct (λ id bound.
                let (j, small, here) = on_ring-index id vs (ring.present id bound) in
                let back = wraps start j (length vs) small start_small in
                all (j + length vs - start) id (omega (arith, small, start_small))
                  (subst (λ k. id_at vs k ≡ some id) (sym back) here)) in
              ground (arith, fit)
        ] in
    (
      ns,
      ground (arith, inhabited),
      different,
      AllOn-AreNodes r start count' ns ring (walk-AllOn vs start count' (rounds vs) 0 [] tt),
      ground (arith, few, many),
    )
