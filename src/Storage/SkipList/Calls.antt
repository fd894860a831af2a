-- ===== src/Storage/SkipList/Calls.antt =====
-- Calls that change a skip list, one after another.
use hermes.Base.{
  ℕ, ◌≡◌, refl, ap, ◌∙◌, ◌<◌, ◌≤◌, false, Option, none, some, List, [], ◌∷◌, if◌then◌else◌,
  GoString, str_eq, str_lt, arith,
}
use hermes.Storage.SkipList.{
  Entry, SkipList, max_level, put, tombstone, delete, get, all, is_past, new_skip_list,
}
use hermes.Storage.SkipList.Sorted.{
  Sorted, insert_entry, lookup, lookup-insert_entry, from_key, until_key,
}
use hermes.Storage.SkipList.Represents.{Represents}
use hermes.Storage.SkipList.Refinement.{
  put_lem, delete_lem, get_lem, scan_lem, new_skip_list-Represents,
}

-- A call, with the level that `randomLevel` draws if the key is missing.
pub data Call : Type 0 where
  putting : (level : ℕ) (key : GoString) (value : List ℕ) (ts seq : ℕ) → Call
  deleting : (level : ℕ) (key : GoString) (ts seq : ℕ) → Call

abbrev pub entry_of : Call → Entry
entry_of (putting n key value ts seq) = record {
  key = key;
  value = value;
  timestamp = ts;
  deleted = false;
  sequence = seq;
}
entry_of (deleting n key ts seq) = tombstone key ts seq

abbrev pub level_of : Call → ℕ
level_of (putting n key value ts seq) = n
level_of (deleting n key ts seq) = n

-- The levels are those that `randomLevel` can draw.
abbrev pub AllDrawn : List Call → Type 0
AllDrawn [] = Unit {0}
AllDrawn (c ∷ cs) = (0 < level_of c) × (level_of c ≤ max_level) × AllDrawn cs

pub call : Call → SkipList → Option SkipList
call (putting n key value ts seq) sl = put n key value ts seq sl
call (deleting n key ts seq) sl = delete n key ts seq sl

pub run : List Call → SkipList → Option SkipList
run [] sl = some sl
run (c ∷ cs) sl = elim (call c sl) [ none ↦ none | some sl' ↦ run cs sl' ]

-- The entry of the last call on the key; `before` where there is none.
unfoldable pub latest : GoString → Option Entry → List Call → Option Entry
latest key before [] = before
latest key before (c ∷ cs) =
    latest key (if str_eq (entry_of c).key key then some (entry_of c) else before) cs

call_lem :
    (c : Call) (sl : SkipList) (es : List Entry)
    → 0 < level_of c
    → level_of c ≤ max_level
    → Represents sl es
    → (sl' : SkipList) × (call c sl ≡ some sl') × Represents sl' (insert_entry (entry_of c) es)
unfolding call
call_lem (putting n key value ts seq) sl es some' small r =
    put_lem n key value ts seq sl es some' small r
call_lem (deleting n key ts seq) sl es some' small r = delete_lem n key ts seq sl es some' small r

run_lem :
    (cs : List Call) (sl : SkipList) (es : List Entry)
    → AllDrawn cs
    → Represents sl es
    → (sl' : SkipList) × (fs : List Entry) × (run cs sl ≡ some sl')
      × Represents sl' fs
      × ((key : GoString) → lookup key fs ≡ latest key (lookup key es) cs)
unfolding run latest
run_lem [] sl es drawn r = (sl, es, refl, r, λ key. refl)
run_lem (c ∷ cs) sl es (some', small, drawn) r =
    let (sl1, first, r1) = call_lem c sl es some' small r in
    let (sl2, fs, rest, r2, same) = run_lem cs sl1 (insert_entry (entry_of c) es) drawn r1 in
    (
      sl2,
      fs,
      ground (arith, first, rest),
      r2,
      λ key.
          same key
          ∙ ap (λ before. latest key before cs) (lookup-insert_entry key (entry_of c) es r.sorted),
    )

until_key-open : (es : List Entry) → until_key [] es ≡ es
unfolding until_key is_past str_eq
until_key-open [] = refl
until_key-open (e ∷ es) = ground (arith, until_key-open es)

-- No string is below the empty one.
not_below : (k : GoString) → str_lt k [] ≡ false
unfolding str_lt
not_below [] = refl
not_below (b ∷ bs) = refl

from_key-open : (es : List Entry) → from_key [] es ≡ es
unfolding from_key
from_key-open [] = refl
from_key-open (e ∷ es) = rw (not_below e.key) refl

-- `All` lists the entries.
pub all_lem : (sl : SkipList) (es : List Entry) → Represents sl es → all sl ≡ some es
unfolding all
all_lem sl es r =
    scan_lem [] [] sl es r
    ∙ ap (λ fs. some (until_key [] fs)) (from_key-open es)
    ∙ ap some (until_key-open es)

-- However the levels are drawn, a sequence of `Put`s and `Delete`s on a new skip list does not panic.
-- `Get` then returns, for each key, the entry of the last call on it (for a `Delete` a tombstone) or
-- finds nothing where there was none, and `All` returns what `Get` can find, one entry for each key,
-- in the strict order of the keys.
pub run-Lists :
    (cs : List Call)
    → AllDrawn cs
    → (sl : SkipList) × (es : List Entry) × (run cs new_skip_list ≡ some sl)
      × (all sl ≡ some es)
      × Sorted es
      × ((key : GoString) → get key sl ≡ some (latest key none cs))
      × ((key : GoString) → get key sl ≡ some (lookup key es))
unfolding lookup
run-Lists cs drawn =
    let (sl, es, done, r, same) = run_lem cs new_skip_list [] drawn new_skip_list-Represents in
    (
      sl,
      es,
      done,
      all_lem sl es r,
      r.sorted,
      λ key. get_lem key sl es r ∙ ap some (same key),
      λ key. get_lem key sl es r,
    )
