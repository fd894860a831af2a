-- ===== src/Storage/SkipList/Represents.antt =====
-- The entries that a skip list stands for, and what its search finds of them.
use hermes.Base.{
  ℕ, suc, ◌<◌, ◌≤◌, ◌≡◌, refl, ap, ◌∙◌, subst, Bool, true, false, Option, none, some, List, [], ◌∷◌,
  ◌++◌, inl, inr, length, length-append, if◌then◌else◌, GoString, str_eq, str_lt, Bool-cases, arith,
}
use hermes.Storage.SkipList.{
  Entry, Nodes, SkipList, max_level, next_of, matching, search_from_head, find, descend,
}
use hermes.Storage.SkipList.Chain.{head, last, Chain, height, Distinct, Chain-last, Chain-right}
use hermes.Storage.SkipList.Search.{tall, tall-in, tall-out, tall-append, Sides, path, descend_lem}
use hermes.Storage.SkipList.Sorted.{Sorted, Keys, Above-Keys}

-- The nodes hold the entries, one each.
abbrev pub Holds : Nodes → List ℕ → List Entry → Type 0
Holds st [] [] = Unit {0}
Holds st [] (e ∷ es) = ⊥
Holds st (a ∷ xs) [] = ⊥
Holds st (a ∷ xs) (e ∷ es) = ((st a).entry ≡ some e) × Holds st xs es

-- Every node has a pointer at least and at most so many.
abbrev pub Heights : Nodes → ℕ → List ℕ → Type 0
Heights st n [] = Unit {0}
Heights st n (a ∷ xs) = (0 < height st a) × (height st a ≤ n) × Heights st n xs

abbrev pub Under : ℕ → List ℕ → Type 0
Under n [] = Unit {0}
Under n (a ∷ xs) = (a < n) × Under n xs

pub record Represents (sl : SkipList) (es : List Entry) : Type 0 where
  pub nodes : List ℕ
  pub holds : Holds sl.nodes nodes es
  pub sorted : Sorted es
  pub linked : (i : ℕ) → i < max_level → Chain sl.nodes i (0 ∷ tall sl.nodes i nodes)
  pub head_height : height sl.nodes 0 ≡ max_level
  pub some_level : 0 < sl.level
  pub small_level : sl.level ≤ max_level
  pub heights : Heights sl.nodes sl.level nodes
  pub distinct : Distinct (0 ∷ nodes)
  pub fresh : Under sl.fresh (0 ∷ nodes)
  pub count : sl.length ≡ length es

pub length-Holds :
    (st : Nodes) (xs : List ℕ) (es : List Entry) → Holds st xs es → length xs ≡ length es
length-Holds st [] [] h = refl
length-Holds st [] (e ∷ es) h = absurd h
length-Holds st (a ∷ xs) [] h = absurd h
length-Holds st (a ∷ xs) (e ∷ es) (at, h) = ap suc (length-Holds st xs es h)

Holds-Sides :
    (st : Nodes) (key : GoString) (b : Bool) (xs : List ℕ) (es : List Entry)
    → Holds st xs es
    → Keys key b es
    → Sides st key b xs
Holds-Sides st key b [] [] h keys = tt
Holds-Sides st key b [] (e ∷ es) h keys = absurd h
Holds-Sides st key b (a ∷ xs) [] h keys = absurd h
Holds-Sides st key b (a ∷ xs) (e ∷ es) (at, h) (here, keys) =
    ((e, at, here), Holds-Sides st key b xs es h keys)

tall-none : (st : Nodes) (n i : ℕ) (xs : List ℕ) → Heights st n xs → n ≤ i → tall st i xs ≡ []
unfolding tall
tall-none st n i [] h top = refl
tall-none st n i (a ∷ xs) (low, high, h) top =
    tall-out st i a xs (omega (arith, high, top)) ∙ tall-none st n i xs h top

pub tall-every : (st : Nodes) (n : ℕ) (xs : List ℕ) → Heights st n xs → tall st 0 xs ≡ xs
unfolding tall
tall-every st n [] h = refl
tall-every st n (a ∷ xs) (low, high, h) =
    tall-in st 0 a xs low ∙ ap (λ ys. a ∷ ys) (tall-every st n xs h)

Heights-left : (st : Nodes) (n : ℕ) (xs ys : List ℕ) → Heights st n (xs ++ ys) → Heights st n xs
Heights-left st n [] ys h = tt
Heights-left st n (a ∷ xs) ys (low, high, h) = (low, high, Heights-left st n xs ys h)

Heights-right : (st : Nodes) (n : ℕ) (xs ys : List ℕ) → Heights st n (xs ++ ys) → Heights st n ys
Heights-right st n [] ys h = h
Heights-right st n (a ∷ xs) ys (low, high, h) = Heights-right st n xs ys h

-- The nodes and the entries below a key, and those that are not.
pub record Located (st : Nodes) (xs : List ℕ) (es : List Entry) (key : GoString) : Type 0 where
  pub before : List ℕ
  pub behind : List ℕ
  pub below : List Entry
  pub above : List Entry
  pub nodes : xs ≡ before ++ behind
  pub entries : es ≡ below ++ above
  pub holds_below : Holds st before below
  pub holds_above : Holds st behind above
  pub keys_below : Keys key true below
  pub keys_above : Keys key false above
  pub sorted_above : Sorted above

pub locate :
    (st : Nodes) (xs : List ℕ) (es : List Entry) (key : GoString)
    → Holds st xs es
    → Sorted es
    → Located st xs es key
locate st [] [] key h sorted = record {
  before = [];
  behind = [];
  below = [];
  above = [];
  nodes = refl;
  entries = refl;
  holds_below = tt;
  holds_above = tt;
  keys_below = tt;
  keys_above = tt;
  sorted_above = tt;
}
locate st [] (e ∷ es) key h sorted = absurd h
locate st (a ∷ xs) [] key h sorted = absurd h
locate st (a ∷ xs) (e ∷ es) key (at, h) (above, sorted) = elim (Bool-cases (str_lt e.key key)) [
  | inl low ↦
      let l = locate st xs es key h sorted in
      record {
        before = a ∷ l.before;
        behind = l.behind;
        below = e ∷ l.below;
        above = l.above;
        nodes = ap (λ ys. a ∷ ys) l.nodes;
        entries = ap (λ fs. e ∷ fs) l.entries;
        holds_below = (at, l.holds_below);
        holds_above = l.holds_above;
        keys_below = (low, l.keys_below);
        keys_above = l.keys_above;
        sorted_above = l.sorted_above;
      }
  | inr high ↦ record {
    before = [];
    behind = a ∷ xs;
    below = [];
    above = e ∷ es;
    nodes = refl;
    entries = refl;
    holds_below = tt;
    holds_above = (at, h);
    keys_below = tt;
    keys_above = (high, Above-Keys e.key key es high above);
    sorted_above = (above, sorted);
  }
]

-- The entry of the key, which is the first of those not below it.
abbrev pub hit : GoString → List ℕ → List Entry → Option (ℕ × Entry)
hit key [] es = none
hit key (a ∷ xs) [] = none
hit key (a ∷ xs) (e ∷ es) = if str_eq e.key key then some (a, e) else none

matching_lem :
    (key : GoString) (st : Nodes) (xs : List ℕ) (es : List Entry)
    → Holds st xs es
    → matching key (head xs) st ≡ some (hit key xs es)
unfolding matching
matching_lem key st [] es h = refl
matching_lem key st (a ∷ xs) [] h = absurd h
matching_lem key st (a ∷ xs) (e ∷ es) (at, h) = ground (arith, at)

module _ (sl : SkipList) (es : List Entry) (key : GoString) (r : Represents sl es)
    (l : Located sl.nodes r.nodes es key) where
  -- The chain of a level, in front of the key and behind it.
  pub linked_at :
      (i : ℕ)
      → i < max_level
      → Chain sl.nodes i (0 ∷ (tall sl.nodes i l.before ++ tall sl.nodes i l.behind))
  linked_at i small =
      subst (λ xs. Chain sl.nodes i (0 ∷ xs))
        (ap (tall sl.nodes i) l.nodes ∙ tall-append sl.nodes i l.before l.behind) (r.linked i small)

  nodes-Heights : Heights sl.nodes sl.level (l.before ++ l.behind)
  nodes-Heights = subst (Heights sl.nodes sl.level) l.nodes r.heights

  pub tall_before-top : (i : ℕ) → sl.level ≤ i → tall sl.nodes i l.before ≡ []
  tall_before-top i top =
      tall-none sl.nodes sl.level i l.before
        (Heights-left sl.nodes sl.level l.before l.behind nodes-Heights) top

  pub search_lem :
      search_from_head key sl
      ≡ some (last 0 (tall sl.nodes 0 l.before), path sl.nodes l.before sl.level [])
  unfolding search_from_head
  search_lem =
      let short : length l.before < suc sl.length = omega (
        arith,
        r.count,
        ap length l.entries,
        length-append {0} l.below l.above,
        length-Holds sl.nodes l.before l.below l.holds_below,
      ) in
      let start : last 0 (tall sl.nodes sl.level l.before) ≡ 0 =
        ap (last 0) (tall_before-top sl.level (omega arith)) in
      let down =
        descend_lem (suc sl.length) sl.nodes key l.before l.behind short
          (Holds-Sides sl.nodes key true l.before l.below l.holds_below l.keys_below)
          (Holds-Sides sl.nodes key false l.behind l.above l.holds_above l.keys_above) sl.level []
          (λ i small. linked_at i (omega (arith, small, r.small_level))) in
      subst
        (λ c.
          descend (suc sl.length) sl.nodes key sl.level c []
          ≡ some (last 0 (tall sl.nodes 0 l.before), path sl.nodes l.before sl.level []))
        start down

  pub behind-Chain : Chain sl.nodes 0 l.behind
  behind-Chain =
      subst (Chain sl.nodes 0)
        (tall-every sl.nodes sl.level l.behind
          (Heights-right sl.nodes sl.level l.before l.behind nodes-Heights))
        (Chain-right sl.nodes 0 (0 ∷ tall sl.nodes 0 l.before) (tall sl.nodes 0 l.behind)
          (linked_at 0 (omega arith)))

  pub next_lem : next_of sl.nodes (last 0 (tall sl.nodes 0 l.before)) ≡ some (head l.behind)
  unfolding next_of
  next_lem =
      Chain-last sl.nodes 0 0 (tall sl.nodes 0 l.before) (tall sl.nodes 0 l.behind)
        (linked_at 0 (omega arith))
      ∙ ap (λ xs. some (head xs))
          (tall-every sl.nodes sl.level l.behind
            (Heights-right sl.nodes sl.level l.before l.behind nodes-Heights))

  pub find_lem : find key sl ≡ some (path sl.nodes l.before sl.level [], hit key l.behind l.above)
  unfolding find
  find_lem =
      let matched = matching_lem key sl.nodes l.behind l.above l.holds_above in
      ground (arith, search_lem, next_lem, matched)
