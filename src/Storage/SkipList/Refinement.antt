-- ===== src/Storage/SkipList/Refinement.antt =====
-- The methods of a skip list as functions of the entries that it stands for.
use hermes.Base.{
  ℕ, zero, suc, ◌<◌, ◌≤◌, ◌≡◌, refl, ap, ◌∙◌, subst, true, false, none, some, List, [], ◌∷◌,
  get_elem?, ◌⊎◌, inl, inr, length, length-append, GoString, str_eq_iff, Option-cases, arith,
}
use hermes.Storage.SkipList.{
  Entry, Nodes, SkipList, max_level, new_skip_list, nils, insert_node, forward_of, next_of, find,
  put_entry, put, tombstone, delete_found, mark_deleted, delete, get, collect, scan, set_entry,
}
use hermes.Storage.SkipList.Chain.{head, Chain}
use hermes.Storage.SkipList.Search.{tall, path}
use hermes.Storage.SkipList.Sorted.{
  insert_entry, insert_entry-twice, lookup, lookup-insert_entry, from_key, from_key-append,
  until_key,
}
use hermes.Storage.SkipList.Represents.{
  Holds, Represents, locate, hit, find_lem, search_lem, next_lem, behind-Chain, length-Holds,
}
use hermes.Storage.SkipList.Replace.{hit-some, set_entry_lem, lookup_lem}
use hermes.Storage.SkipList.Insert.{insert_node_lem, lookup-miss}

nils-get : (n i : ℕ) → i < n → get_elem? (nils n) i ≡ some none
nils-get zero i small = absurd (omega (arith, small))
nils-get (suc n) zero small = refl
nils-get (suc n) (suc i) small = nils-get n i (omega (arith, small))

pub new_skip_list-Represents : Represents new_skip_list []
unfolding new_skip_list forward_of tall
new_skip_list-Represents = record {
  nodes = [];
  holds = tt;
  sorted = tt;
  linked = λ i small. (nils-get max_level i small, tt);
  head_height = refl;
  some_level = omega arith;
  small_level = omega arith;
  heights = tt;
  distinct = (tt, tt);
  fresh = (omega arith, tt);
  count = refl;
}

-- The search either reaches the node with the key's entry or finds that there is none.
pub find_cases :
    (sl : SkipList) (es : List Entry) (e : Entry)
    → (r : Represents sl es)
    → ((update : List ℕ) × (b : ℕ) × (old : Entry) × (find e.key sl ≡ some (update, some (b, old)))
        × (lookup e.key es ≡ some old)
        × Represents (set_entry b e sl) (insert_entry e es))
      ⊎ ((update : List ℕ) × (find e.key sl ≡ some (update, none))
          × (lookup e.key es ≡ none)
          × ((n : ℕ)
              → 0 < n
              → n ≤ max_level
              → (sl' : SkipList) × (insert_node n update e sl ≡ some sl')
                × Represents sl' (insert_entry e es)))
find_cases sl es e r =
    let l = locate sl.nodes r.nodes es e.key r.holds r.sorted in
    let found = find_lem sl es e.key r l in
    elim (Option-cases (hit e.key l.behind l.above)) [
      | inl miss ↦ inr (
        path sl.nodes l.before sl.level [],
        found ∙ ap (λ h. some (path sl.nodes l.before sl.level [], h)) miss,
        lookup-miss 1 sl es e r l (omega arith) (omega arith) miss,
        λ n some' small. insert_node_lem n sl es e r l some' small miss,
      )
      | inr ((b, old), at) ↦
          let h = hit-some e.key l.behind l.above b old at in
          inl (
            path sl.nodes l.before sl.level [],
            b,
            old,
            found ∙ ap (λ h. some (path sl.nodes l.before sl.level [], h)) at,
            lookup_lem sl es e old b r l h,
            set_entry_lem sl es e old b r l h,
          )
    ]

pub put_entry_lem :
    (n : ℕ) (sl : SkipList) (es : List Entry) (e : Entry)
    → 0 < n
    → n ≤ max_level
    → Represents sl es
    → (sl' : SkipList) × (put_entry n e sl ≡ some sl') × Represents sl' (insert_entry e es)
unfolding put_entry
put_entry_lem n sl es e some' small r = elim (find_cases sl es e r) [
  | inl (update, b, old, found, at, after) ↦ (set_entry b e sl, ground (arith, found), after)
  | inr (update, found, missing, insert) ↦
      let (sl', done, after) = insert n some' small in (sl', ground (arith, found, done), after)
]

-- With the level drawn from 1 to 12, `Put` on a skip list that stands for sorted entries does not
-- panic, and the list then stands for them with the new one in its place: for the one of its key if
-- there is one, else in the order of the keys. All levels are linked as the order says.
pub put_lem :
    (n : ℕ) (key : GoString) (value : List ℕ) (ts seq : ℕ) (sl : SkipList) (es : List Entry)
    → 0 < n
    → n ≤ max_level
    → Represents sl es
    → (sl' : SkipList) × (put n key value ts seq sl ≡ some sl')
      × Represents sl' (
          insert_entry
            (record { key = key; value = value; timestamp = ts; deleted = false; sequence = seq })
            es)
unfolding put
put_lem n key value ts seq sl es some' small r =
    put_entry_lem n sl es
      (record { key = key; value = value; timestamp = ts; deleted = false; sequence = seq }) some'
      small r

-- `Get` on a skip list that stands for sorted entries returns the entry of the key, if there is one,
-- and does not panic.
pub get_lem :
    (key : GoString) (sl : SkipList) (es : List Entry)
    → Represents sl es
    → get key sl ≡ some (lookup key es)
unfolding get
get_lem key sl es r = elim (find_cases sl es (tombstone key 0 0) r) [
  | inl (update, b, old, found, at, after) ↦ ground (arith, found, at)
  | inr (update, found, missing, insert) ↦ ground (arith, found, missing)
]

pub mark_deleted_lem :
    (key : GoString) (ts seq : ℕ) (sl : SkipList) (es : List Entry) (e : Entry)
    → e.key ≡ key
    → lookup key es ≡ some e
    → record e { deleted = true; value = [] } ≡ tombstone key ts seq
    → Represents sl es
    → (sl' : SkipList) × (mark_deleted key sl ≡ some sl')
      × Represents sl' (insert_entry (tombstone key ts seq) es)
unfolding mark_deleted
mark_deleted_lem key ts seq sl es e same there made r =
    elim (find_cases sl es (tombstone key ts seq) r) [
      | inr (update, found, missing, insert) ↦ absurd (ground (arith, there, missing))
      | inl (update, b, old, found, at, after) ↦
          let is_e : old ≡ e = ground (arith, there, at) in
          let marked : record old { deleted = true; value = [] } ≡ tombstone key ts seq =
            ap (λ (f : Entry). record f { deleted = true; value = [] }) is_e ∙ made in
          (set_entry b (tombstone key ts seq) sl, ground (arith, found, marked), after)
    ]

-- `Delete`, not interrupted, does not panic and leaves a tombstone for the key, in place of its entry
-- if there is one.
pub delete_lem :
    (n : ℕ) (key : GoString) (ts seq : ℕ) (sl : SkipList) (es : List Entry)
    → 0 < n
    → n ≤ max_level
    → Represents sl es
    → (sl' : SkipList) × (delete n key ts seq sl ≡ some sl')
      × Represents sl' (insert_entry (tombstone key ts seq) es)
unfolding delete delete_found
delete_lem n key ts seq sl es some' small r = elim (find_cases sl es (tombstone key ts seq) r) [
  | inl (update, b, old, found, at, after) ↦
      (set_entry b (tombstone key ts seq) sl, ground (arith, found), after)
  | inr (update, found, missing, insert) ↦
      let e : Entry = record {
        key = key;
        value = [];
        timestamp = ts;
        deleted = false;
        sequence = seq;
      } in
      let (sl1, first, r1) = put_lem n key [] ts seq sl es some' small r in
      let there : lookup key (insert_entry e es) ≡ some e =
        ground (arith, lookup-insert_entry key e es r.sorted, str_eq_iff key key) in
      let (sl2, second, r2) =
        mark_deleted_lem key ts seq sl1 (insert_entry e es) e refl there refl r1 in
      (
        sl2,
        ground (arith, found, first, second),
        subst (Represents sl2) (insert_entry-twice e (tombstone key ts seq) es refl) r2,
      )
]

collect_lem :
    (n : ℕ) (st : Nodes) (end : GoString) (xs : List ℕ) (es : List Entry)
    → length xs ≤ n
    → Holds st xs es
    → Chain st 0 xs
    → collect n st end (head xs) ≡ some (until_key end es)
unfolding collect next_of until_key
collect_lem zero st end [] [] enough h chain = refl
collect_lem (suc n) st end [] [] enough h chain = refl
collect_lem n st end [] (e ∷ es) enough h chain = absurd h
collect_lem n st end (a ∷ xs) [] enough h chain = absurd h
collect_lem zero st end (a ∷ xs) (e ∷ es) enough h chain = absurd (omega (arith, enough))
collect_lem (suc n) st end (a ∷ xs) (e ∷ es) enough (at, h) (next, chain) =
    ground (arith, at, next, collect_lem n st end xs es (omega (arith, enough)) h chain)

-- `Scan` returns the entries whose keys are not below the start and, unless the end is empty, are
-- below the end, in the order of their keys.
pub scan_lem :
    (start end : GoString) (sl : SkipList) (es : List Entry)
    → Represents sl es
    → scan start end sl ≡ some (until_key end (from_key start es))
unfolding scan
scan_lem start end sl es r =
    let l = locate sl.nodes r.nodes es start r.holds r.sorted in
    let selected : from_key start es ≡ l.above =
      ap (from_key start) l.entries
      ∙ from_key-append start l.below l.above l.keys_below l.keys_above in
    let short : length l.behind ≤ suc sl.length = omega (
      arith,
      r.count,
      ap length l.entries,
      length-append {0} l.below l.above,
      length-Holds sl.nodes l.behind l.above l.holds_above,
    ) in
    let walked =
      collect_lem (suc sl.length) sl.nodes end l.behind l.above short l.holds_above
        (behind-Chain sl es start r l) in
    ground (
      arith,
      search_lem sl es start r l,
      next_lem sl es start r l,
      walked,
      ap (until_key end) selected,
    )
