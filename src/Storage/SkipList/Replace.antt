-- ===== src/Storage/SkipList/Replace.antt =====
-- The entry of a key that is there replaced.
use hermes.Base.{
  ℕ, ◌≤◌, ◌≡◌, ◌≢◌, refl, sym, ap, ◌∙◌, subst, true, false, none, some, List, [], ◌∷◌, ◌++◌, inl,
  inr, length, length-append, GoString, str_eq, str_lt, Bool-cases, get_elem?, arith,
}
use hermes.Storage.SkipList.{Entry, Node, Nodes, SkipList, forward_of, write, set_entry}
use hermes.Storage.SkipList.Chain.{
  Chain, height, Avoids, Distinct, Chain-same, write-same, write-other, write-keeps,
  Avoids-append-right,
}
use hermes.Storage.SkipList.Search.{tall, tall-same}
use hermes.Storage.SkipList.Sorted.{
  Sorted, Keys, Above, Above-trans, insert_entry, insert_entry-append, insert_entry-Sorted,
  str_greater, lookup, lookup-append,
}
use hermes.Storage.SkipList.Represents.{Holds, Heights, Represents, Located, hit}

pub Holds-append :
    (st : Nodes) (xs ys : List ℕ) (es fs : List Entry)
    → Holds st xs es
    → Holds st ys fs
    → Holds st (xs ++ ys) (es ++ fs)
Holds-append st [] ys [] fs h k = k
Holds-append st [] ys (e ∷ es) fs h k = absurd h
Holds-append st (a ∷ xs) ys [] fs h k = absurd h
Holds-append st (a ∷ xs) ys (e ∷ es) fs (at, h) k = (at, Holds-append st xs ys es fs h k)

-- An entry outside the nodes may change.
pub Holds-frame :
    (st st' : Nodes) (u : ℕ) (xs : List ℕ) (es : List Entry)
    → ((b : ℕ) → b ≢ u → (st' b).entry ≡ (st b).entry)
    → Avoids u xs
    → Holds st xs es
    → Holds st' xs es
Holds-frame st st' u [] [] same avoids h = tt
Holds-frame st st' u [] (e ∷ es) same avoids h = absurd h
Holds-frame st st' u (a ∷ xs) [] same avoids h = absurd h
Holds-frame st st' u (a ∷ xs) (e ∷ es) same (u_a, avoids) (at, h) =
    (same a (λ p. u_a (sym p)) ∙ at, Holds-frame st st' u xs es same avoids h)

pub Heights-same :
    (st st' : Nodes) (n n' : ℕ) (xs : List ℕ)
    → n ≤ n'
    → ((b : ℕ) → height st' b ≡ height st b)
    → Heights st n xs
    → Heights st' n' xs
Heights-same st st' n n' [] more same h = tt
Heights-same st st' n n' (a ∷ xs) more same (low, high, h) = (
  omega (arith, low, same a),
  omega (arith, high, more, same a),
  Heights-same st st' n n' xs more same h,
)

-- A node between two lists is in neither.
Distinct-middle :
    (xs : List ℕ) (b : ℕ) (ys : List ℕ) → Distinct (xs ++ (b ∷ ys)) → Avoids b xs × Avoids b ys
Distinct-middle [] b ys (here, distinct) = (tt, here)
Distinct-middle (a ∷ xs) b ys (here, distinct) =
    let (left, right) = Distinct-middle xs b ys distinct in
    let (a_b, more) = Avoids-append-right a xs (b ∷ ys) here in (((λ e. a_b (sym e)), left), right)

-- What a hit says of the nodes and entries that are not below the key.
pub record Hit (key : GoString) (xs : List ℕ) (es : List Entry) (b : ℕ) (e : Entry) : Type 0 where
  pub nodes : List ℕ
  pub entries : List Entry
  pub is_nodes : xs ≡ b ∷ nodes
  pub is_entries : es ≡ e ∷ entries
  pub same_key : str_eq e.key key ≡ true

pub hit-some :
    (key : GoString) (xs : List ℕ) (es : List Entry) (b : ℕ) (e : Entry)
    → hit key xs es ≡ some (b, e)
    → Hit key xs es b e
hit-some key [] es b e h = absurd (ground (arith, h))
hit-some key (a ∷ xs) [] b e h = absurd (ground (arith, h))
hit-some key (a ∷ xs) (f ∷ es) b e h = elim (Bool-cases (str_eq f.key key)) [
  | inr other ↦ absurd (ground (arith, h, other))
  | inl same ↦
      let is_a : a ≡ b = ground (arith, h, same) in
      let is_f : f ≡ e = ground (arith, h, same) in
      record {
        nodes = xs;
        entries = es;
        is_nodes = ap (λ c. c ∷ xs) is_a;
        is_entries = ap (λ g. g ∷ es) is_f;
        same_key = ap (λ g. str_eq g.key key) (sym is_f) ∙ same;
      }
]

-- Without a hit, all that is not below the key is above it.
pub hit-none :
    (key : GoString) (st : Nodes) (xs : List ℕ) (es : List Entry)
    → hit key xs es ≡ none
    → Holds st xs es
    → Keys key false es
    → Sorted es
    → Above key es
hit-none key st [] [] miss h keys sorted = tt
hit-none key st [] (e ∷ es) miss h keys sorted = absurd h
hit-none key st (a ∷ xs) [] miss h keys sorted = absurd h
hit-none key st (a ∷ xs) (e ∷ es) miss (at, h) (high, keys) (above, sorted) =
    let other : str_eq e.key key ≡ false = ground (arith, miss) in
    let less = str_greater e.key key high other in (less, Above-trans key e.key es less above)

module _ (sl : SkipList) (es : List Entry) (e old : Entry) (b : ℕ) (r : Represents sl es)
    (l : Located sl.nodes r.nodes es e.key) (h : Hit e.key l.behind l.above b old) where
  node' : Node
  node' = record (sl.nodes b) { entry = some e }

  st' : Nodes
  st' = write b node' sl.nodes

  all_nodes : r.nodes ≡ l.before ++ (b ∷ h.nodes)
  all_nodes = l.nodes ∙ ap (λ xs. l.before ++ xs) h.is_nodes

  pub replaced_entries : insert_entry e es ≡ l.below ++ (e ∷ h.entries)
  unfolding insert_entry
  replaced_entries =
      let high : str_lt old.key e.key ≡ false =
        (subst (Keys e.key false) h.is_entries l.keys_above).0 in
      let first : insert_entry e (old ∷ h.entries) ≡ e ∷ h.entries = rw (high, h.same_key) refl in
      ap (insert_entry e) l.entries
      ∙ insert_entry-append e l.below l.above l.keys_below
      ∙ ap (λ fs. l.below ++ insert_entry e fs) h.is_entries
      ∙ ap (λ fs. l.below ++ fs) first

  holds' : Holds st' r.nodes (insert_entry e es)
  unfolding st' node'
  holds' =
      let (in_front, in_back) =
        Distinct-middle l.before b h.nodes (subst Distinct all_nodes r.distinct.1) in
      let same : (c : ℕ) → c ≢ b → (st' c).entry ≡ (sl.nodes c).entry =
        λ c other. ap (λ n. n.entry) (write-other b node' sl.nodes c other) in
      let rest : Holds sl.nodes (b ∷ h.nodes) (old ∷ h.entries) =
        subst (λ fs. Holds sl.nodes (b ∷ h.nodes) fs) h.is_entries
          (subst (λ xs. Holds sl.nodes xs l.above) h.is_nodes l.holds_above) in
      let behind = Holds-frame sl.nodes st' b h.nodes h.entries same in_back rest.1 in
      let front = Holds-frame sl.nodes st' b l.before l.below same in_front l.holds_below in
      let here : (st' b).entry ≡ some e = ap (λ n. n.entry) (write-same b node' sl.nodes) in
      subst (λ xs. Holds st' xs (insert_entry e es)) (sym all_nodes)
        (subst (Holds st' (l.before ++ (b ∷ h.nodes))) (sym replaced_entries)
          (Holds-append st' l.before (b ∷ h.nodes) l.below (e ∷ h.entries) front (here, behind)))

  same_heights : (c : ℕ) → height st' c ≡ height sl.nodes c
  unfolding st' node'
  same_heights = write-keeps (λ n. length n.forward) b node' sl.nodes refl

  same_forward : (i c : ℕ) → forward_of st' c i ≡ forward_of sl.nodes c i
  unfolding st' node' forward_of
  same_forward i = write-keeps (λ n. get_elem? n.forward i) b node' sl.nodes refl

  same_count : length es ≡ length (insert_entry e es)
  same_count = omega (
    arith,
    ap length l.entries,
    ap length h.is_entries,
    ap length replaced_entries,
    length-append {0} l.below l.above,
    length-append {0} l.below (e ∷ h.entries),
  )

  pub set_entry_lem : Represents (set_entry b e sl) (insert_entry e es)
  unfolding set_entry st' node'
  set_entry_lem = record {
    nodes = r.nodes;
    holds = holds';
    sorted = insert_entry-Sorted e es r.sorted;
    linked = λ i small.
        subst (λ xs. Chain st' i (0 ∷ xs)) (sym (tall-same sl.nodes st' i r.nodes same_heights))
          (Chain-same sl.nodes st' i (0 ∷ tall sl.nodes i r.nodes) (same_forward i)
            (r.linked i small));
    head_height = same_heights 0 ∙ r.head_height;
    some_level = r.some_level;
    small_level = r.small_level;
    heights =
        Heights-same sl.nodes st' sl.level sl.level r.nodes (omega arith) same_heights r.heights;
    distinct = r.distinct;
    fresh = r.fresh;
    count = r.count ∙ same_count;
  }

  pub lookup_lem : lookup e.key es ≡ some old
  unfolding lookup
  lookup_lem =
      ap (lookup e.key) l.entries
      ∙ lookup-append e.key l.below l.above l.keys_below
      ∙ ap (lookup e.key) h.is_entries
      ∙ rw h.same_key refl
