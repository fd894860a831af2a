-- ===== src/Storage/SkipList/Races.antt =====
-- Calls of others between the parts of a `Delete`.
use hermes.Base.{
  ℕ, ◌≡◌, refl, ap, ◌∙◌, ◌<◌, ◌≤◌, false, some, none, List, [], GoString, str_eq_iff, inl, inr,
  arith,
}
use hermes.Storage.SkipList.{
  Entry, SkipList, max_level, put, tombstone, delete_found, mark_deleted, get,
}
use hermes.Storage.SkipList.Sorted.{insert_entry, lookup, lookup-insert_entry}
use hermes.Storage.SkipList.Represents.{Represents}
use hermes.Storage.SkipList.Refinement.{find_cases, put_lem, get_lem, mark_deleted_lem}

delete_found-missing :
    (key : GoString) (ts seq : ℕ) (sl : SkipList) (es : List Entry)
    → Represents sl es
    → lookup key es ≡ none
    → delete_found key ts seq sl ≡ some (sl, false)
unfolding delete_found
delete_found-missing key ts seq sl es r gone = elim (find_cases sl es (tombstone key ts seq) r) [
  | inl (update, b, old, found, at, after) ↦ absurd (ground (arith, gone, at))
  | inr (update, found, missing, insert) ↦ ground (arith, found)
]

-- Where the key of a `Delete` is missing and another `Put` of the key runs between the `Delete`'s own
-- `Put` and its second locking, that `Put` is lost: the list then has a tombstone with its timestamp
-- and without its value.
pub delete-Put_lost :
    (n n' : ℕ) (key : GoString) (value : List ℕ) (ts seq ts' seq' : ℕ) (sl : SkipList)
    (es : List Entry)
    → (0 < n) × (n ≤ max_level)
    → (0 < n') × (n' ≤ max_level)
    → Represents sl es
    → lookup key es ≡ none
    → (sl1 sl2 sl3 : SkipList) × (delete_found key ts seq sl ≡ some (sl, false))
      × (put n key [] ts seq sl ≡ some sl1)
      × (put n' key value ts' seq' sl1 ≡ some sl2)
      × (mark_deleted key sl2 ≡ some sl3)
      × (get key sl3 ≡ some (some (tombstone key ts' seq')))
delete-Put_lost n n' key value ts seq ts' seq' sl es (some', small) (some'', small') r gone =
    let e : Entry = record {
      key = key;
      value = [];
      timestamp = ts;
      deleted = false;
      sequence = seq;
    } in
    let f : Entry = record {
      key = key;
      value = value;
      timestamp = ts';
      deleted = false;
      sequence = seq';
    } in
    let (sl1, first, r1) = put_lem n key [] ts seq sl es some' small r in
    let fs = insert_entry e es in
    let (sl2, second, r2) = put_lem n' key value ts' seq' sl1 fs some'' small' r1 in
    let there : lookup key (insert_entry f fs) ≡ some f =
      ground (arith, lookup-insert_entry key f fs r1.sorted, str_eq_iff key key) in
    let (sl3, third, r3) =
      mark_deleted_lem key ts' seq' sl2 (insert_entry f fs) f refl there refl r2 in
    let last : lookup key (insert_entry (tombstone key ts' seq') (insert_entry f fs))
        ≡ some (tombstone key ts' seq') =
      ground (
        arith,
        lookup-insert_entry key (tombstone key ts' seq') (insert_entry f fs) r2.sorted,
        str_eq_iff key key,
      ) in
    (
      sl1,
      sl2,
      sl3,
      delete_found-missing key ts seq sl es r gone,
      first,
      second,
      third,
      get_lem key sl3 (insert_entry (tombstone key ts' seq') (insert_entry f fs)) r3 ∙ ap some last,
    )
