-- ===== src/Storage/SkipList.antt =====
-- pkg/storage/memtable/skiplist.go. Nodes stand at addresses, the head at 0, and the fresh addresses
-- begin at `fresh`. The level that `randomLevel` draws is an argument. `none` stands for a panic: a nil
-- dereferenced or an index out of range. The lock makes every method atomic but `Delete`, whose three
-- parts between its unlocking and locking are functions of their own.
pub mod Chain
pub mod Linking
pub mod Search
pub mod Sorted
pub mod Represents
pub mod Replace
pub mod Fresh
pub mod Insert
pub mod Refinement
pub mod Calls
pub mod Races
use hermes.Base.{
  ℕ, zero, suc, ◌+◌, ◌-◌, ◌≡◌, Bool, true, false, not, ◌&&◌, Option, none, some, List, [], ◌∷◌,
  ◌++◌, ltb, ◌==◌, if◌then◌else◌, length, get_elem?, take, GoString, str_eq, str_lt, u64,
}
use hermes.Base.Partial.{◌>>=◌}
use hermes.Clock.Hybrid.{after}

abbrev pub max_level : ℕ
max_level = 12

pub record Entry : Type 0 where
  pub key : GoString
  pub value : List ℕ
  pub timestamp : ℕ
  pub deleted : Bool
  pub sequence : ℕ

-- `nil` is `none`.
abbrev pub Ptr : Type 0
Ptr = Option ℕ

pub record Node : Type 0 where
  pub entry : Option Entry
  pub forward : List Ptr

abbrev pub Nodes : Type 0
Nodes = ℕ → Node

pub write : ℕ → Node → Nodes → Nodes
write a n st b = if b == a then n else st b

pub record SkipList : Type 0 where
  pub nodes : Nodes
  pub fresh : ℕ
  pub level : ℕ
  pub length : ℕ
  pub size : ℕ

-- `make([]*node, n)`
abbrev pub nils : ℕ → List Ptr
nils zero = []
nils (suc n) = none ∷ nils n

pub new_skip_list : SkipList
new_skip_list = record {
  nodes = λ a. record { entry = none; forward = nils max_level };
  fresh = 1;
  level = 1;
  length = 0;
  size = 0;
}

-- `p[i] = v`
pub set_elem : ℕ → Ptr → List Ptr → Option (List Ptr)
set_elem i v [] = none
set_elem zero v (p ∷ ps) = some (v ∷ ps)
set_elem (suc i) v (p ∷ ps) = elim (set_elem i v ps) [ none ↦ none | some qs ↦ some (p ∷ qs) ]

-- `current.forward[i]`
pub forward_of : Nodes → ℕ → ℕ → Option Ptr
forward_of st a i = get_elem? (st a).forward i

-- `current.forward[i] = v`
pub set_forward : ℕ → ℕ → Ptr → Nodes → Option Nodes
unfolding set_elem write
set_forward a i v st = elim (set_elem i v (st a).forward) [
  | none ↦ none
  | some ps ↦ some (write a (record (st a) { forward = ps }) st)
]

-- The inner loop of a search: along level `i` while the next key is smaller, on fuel.
pub walk : ℕ → Nodes → GoString → ℕ → ℕ → Option ℕ
unfolding forward_of
walk zero st key i current = none
walk (suc n) st key i current = elim (forward_of st current i) [
  | none ↦ none
  | some none ↦ some current
  | some (some next) ↦ elim (st next).entry [
    | none ↦ none
    | some e ↦ elim (str_lt e.key key) [ true ↦ walk n st key i next | false ↦ some current ]
  ]
]

-- The outer loop, over so many levels downwards; `update` collects where each ends.
pub descend : ℕ → Nodes → GoString → ℕ → ℕ → List ℕ → Option (ℕ × List ℕ)
unfolding walk
descend fuel st key zero current update = some (current, update)
descend fuel st key (suc i) current update = elim (walk fuel st key i current) [
  | none ↦ none
  | some there ↦ descend fuel st key i there (there ∷ update)
]

-- The search of every method, from the head; no walk takes more steps than there are entries.
pub search_from_head : GoString → SkipList → Option (ℕ × List ℕ)
unfolding descend
search_from_head key sl = descend (suc sl.length) sl.nodes key sl.level 0 []

-- `next := current.forward[0]`
pub next_of : Nodes → ℕ → Option Ptr
unfolding forward_of
next_of st a = forward_of st a 0

-- `next != nil && next.entry.Key == key`: the address and the entry, when it is so.
pub matching : GoString → Ptr → Nodes → Option (Option (ℕ × Entry))
matching key none st = some none
matching key (some a) st = elim (st a).entry [
  | none ↦ none
  | some e ↦ some (if str_eq e.key key then some (a, e) else none)
]

-- What the search finds: where it ends, the path, and the entry of the key if there is one.
pub find : GoString → SkipList → Option (List ℕ × Option (ℕ × Entry))
unfolding search_from_head next_of matching
find key sl = do
  (current, update) ← search_from_head key sl
  next ← next_of sl.nodes current
  found ← matching key next sl.nodes
  some (update, found)

abbrev pub heads : ℕ → List ℕ
heads zero = []
heads (suc n) = 0 ∷ heads n

-- The loop that links the node `new` in, from level `i` on.
pub link : ℕ → ℕ → List ℕ → Nodes → Option Nodes
unfolding forward_of set_forward
link new i [] st = some st
link new i (u ∷ us) st = do
  next ← forward_of st u i
  st1 ← set_forward new i next st
  st2 ← set_forward u i (some new) st1
  link new (i + 1) us st2

pub set_entry : ℕ → Entry → SkipList → SkipList
unfolding write
set_entry a e sl = record sl { nodes = write a (record (sl.nodes a) { entry = some e }) sl.nodes }

-- The rest of `Put` where the key is missing, with the level that was drawn.
pub insert_node : ℕ → List ℕ → Entry → SkipList → Option SkipList
unfolding write link
insert_node new_level update e sl =
    let new = sl.fresh in
    let st = write new (record { entry = some e; forward = nils new_level }) sl.nodes in
    let path = take new_level (update ++ heads (new_level - sl.level)) in
    elim (link new 0 path st) [
      | none ↦ none
      | some st' ↦ some (record {
        nodes = st';
        fresh = suc new;
        level = if ltb sl.level new_level then new_level else sl.level;
        length = suc sl.length;
        size = u64 (sl.size + (length e.key + length e.value + 64));
      })
    ]

-- The body of `Put` once the entry is made, also the first part of `Delete`.
pub put_entry : ℕ → Entry → SkipList → Option SkipList
unfolding find set_entry insert_node
put_entry new_level e sl = do
  (update, found) ← find e.key sl
  elim found [ some (a, old) ↦ some (set_entry a e sl) | none ↦ insert_node new_level update e sl ]

pub put : ℕ → GoString → List ℕ → ℕ → ℕ → SkipList → Option SkipList
unfolding put_entry
put new_level key value ts seq sl =
    put_entry new_level
      (record { key = key; value = value; timestamp = ts; deleted = false; sequence = seq }) sl

abbrev pub tombstone : GoString → ℕ → ℕ → Entry
tombstone key ts seq = record {
  key = key;
  value = [];
  timestamp = ts;
  deleted = true;
  sequence = seq;
}

-- `Delete` up to its unlocking: the list and whether it is done.
pub delete_found : GoString → ℕ → ℕ → SkipList → Option (SkipList × Bool)
unfolding find set_entry
delete_found key ts seq sl = do
  (update, found) ← find key sl
  elim found [
    | some (a, old) ↦ some (set_entry a (tombstone key ts seq) sl, true)
    | none ↦ some (sl, false)
  ]

-- `Delete` from its second locking on.
pub mark_deleted : GoString → SkipList → Option SkipList
unfolding find set_entry
mark_deleted key sl = do
  (update, found) ← find key sl
  elim found [
    | some (a, e) ↦ some (set_entry a (record e { deleted = true; value = [] }) sl)
    | none ↦ some sl
  ]

-- `Delete` that no other call interrupts.
pub delete : ℕ → GoString → ℕ → ℕ → SkipList → Option SkipList
unfolding delete_found put mark_deleted
delete new_level key ts seq sl = do
  (sl1, done) ← delete_found key ts seq sl
  elim done [
    | true ↦ some sl1
    | false ↦ do sl2 ← put new_level key [] ts seq sl1; mark_deleted key sl2
  ]

-- The inner `none` is that the key is not found.
pub get : GoString → SkipList → Option (Option Entry)
unfolding find
get key sl = do
  (update, found) ← find key sl
  some (elim found [ none ↦ none | some (a, e) ↦ some e ])

pub get_at_timestamp : GoString → ℕ → SkipList → Option (Option Entry)
unfolding get
get_at_timestamp key read_ts sl = do
  found ← get key sl
  some (elim found [ none ↦ none | some e ↦ if after e.timestamp read_ts then none else some e ])

-- `endKey != "" && current.entry.Key >= endKey`
pub is_past : GoString → GoString → Bool
is_past end_key key = not (str_eq end_key []) && not (str_lt key end_key)

-- The loop of `Scan` along the lowest level, on fuel.
pub collect : ℕ → Nodes → GoString → Ptr → Option (List Entry)
unfolding next_of is_past
collect n st end_key none = some []
collect zero st end_key (some a) = none
collect (suc n) st end_key (some a) = elim (st a).entry [
  | none ↦ none
  | some e ↦ elim (is_past end_key e.key) [
    | true ↦ some []
    | false ↦ elim (next_of st a) [
      | none ↦ none
      | some next ↦ elim (collect n st end_key next) [ none ↦ none | some es ↦ some (e ∷ es) ]
    ]
  ]
]

pub scan : GoString → GoString → SkipList → Option (List Entry)
unfolding search_from_head next_of collect
scan start_key end_key sl = do
  (current, update) ← search_from_head start_key sl
  next ← next_of sl.nodes current
  collect (suc sl.length) sl.nodes end_key next

pub all : SkipList → Option (List Entry)
unfolding scan
all sl = scan [] [] sl
