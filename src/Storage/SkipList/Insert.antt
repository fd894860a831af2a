-- ===== src/Storage/SkipList/Insert.antt =====
-- A node inserted for a key that is missing.
use hermes.Base.{
  ℕ, suc, ◌+◌, ◌-◌, ◌<◌, ◌≤◌, ◌≡◌, ◌≢◌, sym, ap, ◌∙◌, subst, none, some, List, [], ◌∷◌, ◌++◌, inl,
  inr, length, length-append, length-take, take, if◌then◌else◌, ltb, Bool-cases, get_elem?, u64,
  arith,
}
use hermes.Storage.SkipList.{
  Entry, Node, Nodes, SkipList, max_level, forward_of, write, nils, heads, link, insert_node,
}
use hermes.Storage.SkipList.Chain.{
  Chain, height, Avoids, Distinct, Chain-same, Chain-frame, write-same, write-other,
  Avoids-append-left, Avoids-append-right,
}
use hermes.Storage.SkipList.Linking.{IsPath, LinkedFrom, link_lem}
use hermes.Storage.SkipList.Search.{tall, tall-in, tall-out, tall-append, path}
use hermes.Storage.SkipList.Sorted.{
  insert_entry, insert_entry-append, insert_entry-Above-all, insert_entry-Sorted, lookup,
  lookup-append, lookup-Above,
}
use hermes.Storage.SkipList.Represents.{
  Holds, Heights, Under, Represents, Located, hit, linked_at, tall_before-top,
}
use hermes.Storage.SkipList.Replace.{Holds-append, Holds-frame, hit-none}
use hermes.Storage.SkipList.Fresh.{
  length-nils, length-heads, Under-Avoids, Under-insert, Distinct-insert, Avoids-tall,
  Distinct-tall, tall-frame, Heights-insert, IsPath-heads, IsPath-take, IsPath-path, path-append,
  length-path,
}

module _ (new_level : ℕ) (sl : SkipList) (es : List Entry) (e : Entry) (r : Represents sl es)
    (l : Located sl.nodes r.nodes es e.key) (some' : 0 < new_level)
    (small : new_level ≤ max_level) where
  abbrev X : ℕ → List ℕ
  X j = tall sl.nodes j l.before

  abbrev Y : ℕ → List ℕ
  Y j = tall sl.nodes j l.behind

  node' : Node
  node' = record { entry = some e; forward = nils new_level }

  st1 : Nodes
  st1 = write sl.fresh node' sl.nodes

  all_distinct : Distinct (0 ∷ (l.before ++ l.behind))
  all_distinct = subst (λ xs. Distinct (0 ∷ xs)) l.nodes r.distinct

  all_under : Under sl.fresh (0 ∷ (l.before ++ l.behind))
  all_under = subst (λ xs. Under sl.fresh (0 ∷ xs)) l.nodes r.fresh

  all_avoid : Avoids sl.fresh (0 ∷ (l.before ++ l.behind))
  all_avoid = Under-Avoids sl.fresh (0 ∷ (l.before ++ l.behind)) all_under

  split : (j : ℕ) → tall sl.nodes j (l.before ++ l.behind) ≡ X j ++ Y j
  split j = tall-append sl.nodes j l.before l.behind

  distinct : (j : ℕ) → Distinct (0 ∷ (X j ++ Y j))
  distinct j =
      let (here, rest) = all_distinct in
      subst (λ xs. Distinct (0 ∷ xs)) (split j)
        (
          Avoids-tall sl.nodes j 0 (l.before ++ l.behind) here,
          Distinct-tall sl.nodes j (l.before ++ l.behind) rest,
        )

  avoids : (j : ℕ) → Avoids sl.fresh (0 ∷ (X j ++ Y j))
  avoids j =
      subst (λ xs. Avoids sl.fresh (0 ∷ xs)) (split j)
        (all_avoid.0, Avoids-tall sl.nodes j sl.fresh (l.before ++ l.behind) all_avoid.1)

  other_heights : (b : ℕ) → b ≢ sl.fresh → height st1 b ≡ height sl.nodes b
  unfolding st1
  other_heights b other = ap (λ n. length n.forward) (write-other sl.fresh node' sl.nodes b other)

  new_height : height st1 sl.fresh ≡ new_level
  unfolding st1 node'
  new_height =
      ap (λ n. length n.forward) (write-same sl.fresh node' sl.nodes) ∙ length-nils new_level

  -- The levels before the loop.
  chains : (j : ℕ) → j < max_level → Chain st1 j (0 ∷ (X j ++ Y j))
  unfolding st1 forward_of
  chains j low =
      Chain-frame sl.nodes st1 j sl.fresh sl.fresh (0 ∷ (X j ++ Y j))
        (λ a other again.
          ap (λ n. get_elem? n.forward j) (write-other sl.fresh node' sl.nodes a other))
        (avoids j) (avoids j) (linked_at sl es e.key r l j low)

  way : List ℕ
  way = take new_level (path sl.nodes l.before sl.level [] ++ heads (new_level - sl.level))

  length-way : length way ≡ new_level
  unfolding way
  length-way = omega (
    arith,
    length-take {0} new_level (path sl.nodes l.before sl.level [] ++ heads (new_level - sl.level)),
    length-append {0} (path sl.nodes l.before sl.level []) (heads (new_level - sl.level)),
    length-path sl.nodes l.before sl.level [],
    length-heads (new_level - sl.level),
  )

  way-IsPath : IsPath X 0 way
  unfolding way
  way-IsPath =
      IsPath-take X 0 new_level (path sl.nodes l.before sl.level [] ++ heads (new_level - sl.level))
        (subst (IsPath X 0)
          (sym (path-append sl.nodes l.before sl.level [] (heads (new_level - sl.level))))
          (IsPath-path sl.nodes l.before sl.level (heads (new_level - sl.level))
            (IsPath-heads X sl.level (new_level - sl.level) (tall_before-top sl es e.key r l))))

  linking :
      (st' : Nodes) × (link sl.fresh 0 way st1 ≡ some st')
      × LinkedFrom X Y sl.fresh distinct avoids st1 st' 0 new_level
  linking =
      let tall' : 0 + length way ≤ height st1 sl.fresh = omega (arith, length-way, new_height) in
      let (st', done, linked) =
        link_lem X Y sl.fresh distinct avoids 0 way st1 way-IsPath
          (λ j low high. chains j (omega (arith, high, length-way, small))) tall' in
      let all : 0 + length way ≡ new_level = omega (arith, length-way) in
      (st', done, subst (LinkedFrom X Y sl.fresh distinct avoids st1 st' 0) all linked)

  inserted_entries :
      hit e.key l.behind l.above ≡ none → insert_entry e es ≡ l.below ++ (e ∷ l.above)
  inserted_entries miss =
      let above =
        hit-none e.key sl.nodes l.behind l.above miss l.holds_above l.keys_above l.sorted_above in
      ap (insert_entry e) l.entries
      ∙ insert_entry-append e l.below l.above l.keys_below
      ∙ ap (λ fs. l.below ++ fs) (insert_entry-Above-all e l.above above)

  module _ (st' : Nodes)
      (linked : LinkedFrom X Y sl.fresh distinct avoids st1 st' 0 new_level) where
    outside : (b : ℕ) → b ≢ sl.fresh → height st' b ≡ height sl.nodes b
    outside b other = linked.heights b ∙ other_heights b other

    inside : height st' sl.fresh ≡ new_level
    inside = linked.heights sl.fresh ∙ new_height

    same_X : (j : ℕ) → tall st' j l.before ≡ X j
    same_X j =
        tall-frame sl.nodes st' j sl.fresh l.before outside
          (Avoids-append-left sl.fresh l.before l.behind all_avoid.1)

    same_Y : (j : ℕ) → tall st' j l.behind ≡ Y j
    same_Y j =
        tall-frame sl.nodes st' j sl.fresh l.behind outside
          (Avoids-append-right sl.fresh l.before l.behind all_avoid.1)

    linked' :
        (j : ℕ) → j < max_level → Chain st' j (0 ∷ tall st' j (l.before ++ (sl.fresh ∷ l.behind)))
    linked' j low = elim (Bool-cases (ltb j new_level)) [
      | inl reaches ↦
          let at : tall st' j (l.before ++ (sl.fresh ∷ l.behind)) ≡ X j ++ (sl.fresh ∷ Y j) =
            tall-append st' j l.before (sl.fresh ∷ l.behind)
            ∙ ap (λ xs. xs ++ tall st' j (sl.fresh ∷ l.behind)) (same_X j)
            ∙ ap (λ ys. X j ++ ys)
                (tall-in st' j sl.fresh l.behind (ground (arith, reaches, inside)))
            ∙ ap (λ ys. X j ++ (sl.fresh ∷ ys)) (same_Y j) in
          subst (λ xs. Chain st' j (0 ∷ xs)) (sym at)
            (linked.linked j (omega arith) (ground (arith, reaches)))
      | inr stays ↦
          let at : tall st' j (l.before ++ (sl.fresh ∷ l.behind)) ≡ X j ++ Y j =
            tall-append st' j l.before (sl.fresh ∷ l.behind)
            ∙ ap (λ xs. xs ++ tall st' j (sl.fresh ∷ l.behind)) (same_X j)
            ∙ ap (λ ys. X j ++ ys)
                (tall-out st' j sl.fresh l.behind (ground (arith, stays, inside)))
            ∙ ap (λ ys. X j ++ ys) (same_Y j) in
          subst (λ xs. Chain st' j (0 ∷ xs)) (sym at)
            (Chain-same st1 st' j (0 ∷ (X j ++ Y j))
              (λ a. linked.others a j (inr (ground (arith, stays)))) (chains j low))
    ]

    holds' : Holds st' (l.before ++ (sl.fresh ∷ l.behind)) (l.below ++ (e ∷ l.above))
    unfolding st1 node'
    holds' =
        let same : (b : ℕ) → b ≢ sl.fresh → (st' b).entry ≡ (sl.nodes b).entry = λ b other.
          linked.entries b ∙ ap (λ n. n.entry) (write-other sl.fresh node' sl.nodes b other) in
        let here : (st' sl.fresh).entry ≡ some e =
          linked.entries sl.fresh ∙ ap (λ n. n.entry) (write-same sl.fresh node' sl.nodes) in
        Holds-append st' l.before (sl.fresh ∷ l.behind) l.below (e ∷ l.above)
          (Holds-frame sl.nodes st' sl.fresh l.before l.below same
            (Avoids-append-left sl.fresh l.before l.behind all_avoid.1) l.holds_below)
          (
            here,
            Holds-frame sl.nodes st' sl.fresh l.behind l.above same
                (Avoids-append-right sl.fresh l.before l.behind all_avoid.1) l.holds_above,
          )

    abbrev after : SkipList
    after = record {
      nodes = st';
      fresh = suc sl.fresh;
      level = if ltb sl.level new_level then new_level else sl.level;
      length = suc sl.length;
      size = u64 (sl.size + (length e.key + length e.value + 64));
    }

    after-Represents : hit e.key l.behind l.above ≡ none → Represents after (insert_entry e es)
    after-Represents miss = record {
      nodes = l.before ++ (sl.fresh ∷ l.behind);
      holds =
          subst (Holds st' (l.before ++ (sl.fresh ∷ l.behind))) (sym (inserted_entries miss))
            holds';
      sorted = insert_entry-Sorted e es r.sorted;
      linked = linked';
      head_height = outside 0 (λ p. all_avoid.0 (sym p)) ∙ r.head_height;
      some_level = ground (arith, r.some_level, some');
      small_level = ground (arith, r.small_level, small);
      heights =
          Heights-insert sl.nodes st' sl.level
            (if ltb sl.level new_level then new_level else sl.level) sl.fresh l.before l.behind
            (ground arith) outside (omega (arith, inside, some')) (ground (arith, inside))
            all_avoid.1 (subst (Heights sl.nodes sl.level) l.nodes r.heights);
      distinct = Distinct-insert sl.fresh (0 ∷ l.before) l.behind all_avoid all_distinct;
      fresh = Under-insert sl.fresh (0 ∷ l.before) l.behind all_under;
      count = omega (
        arith,
        r.count,
        ap length l.entries,
        ap length (inserted_entries miss),
        length-append {0} l.below l.above,
        length-append {0} l.below (e ∷ l.above),
      );
    }

  -- Where the search has no hit, the node's insertion does not panic, and the list then stands for
  -- the entries with the new one.
  pub insert_node_lem :
      hit e.key l.behind l.above ≡ none
      → (sl' : SkipList) × (insert_node new_level (path sl.nodes l.before sl.level []) e sl
          ≡ some sl')
        × Represents sl' (insert_entry e es)
  unfolding insert_node way st1 node'
  insert_node_lem miss =
      let (st', done, linked) = linking in
      (after st' linked, ground (arith, done), after-Represents st' linked miss)

  pub lookup-miss : hit e.key l.behind l.above ≡ none → lookup e.key es ≡ none
  lookup-miss miss =
      ap (lookup e.key) l.entries
      ∙ lookup-append e.key l.below l.above l.keys_below
      ∙ lookup-Above e.key l.above
          (hit-none e.key sl.nodes l.behind l.above miss l.holds_above l.keys_above l.sorted_above)
