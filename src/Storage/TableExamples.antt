-- ===== src/Storage/TableExamples.antt =====
-- The theorems on filters, skip lists and table files at concrete inputs.
use hermes.Base.{
  str_eq, ℕ, ◌<◌, ◌≡◌, refl, true, false, none, some, List, [], ◌∷◌, GoString, suc, length, arith,
}
use hermes.Storage.Bloom.{BloomFilter, serialize, deserialize}
use hermes.Storage.Bloom.Membership.{IsSized, AllContained, add_all, add_all_lem}
use hermes.Storage.Bloom.Bytes.{deserialize-serialize}
use hermes.Storage.SkipList.{
  Entry, SkipList, new_skip_list, put, scan, all, get, delete_found, mark_deleted, tombstone,
}
use hermes.Storage.SkipList.Sorted.{Sorted, insert_entry, lookup, from_key, until_key}
use hermes.Storage.SkipList.Represents.{Represents}
use hermes.Storage.SkipList.Refinement.{new_skip_list-Represents, put_lem, scan_lem}
use hermes.Storage.SkipList.Calls.{Call, run, latest, run-Lists}
use hermes.Storage.SkipList.Races.{delete-Put_lost}
use hermes.Storage.SsTable.{SsTableMeta, Writer, new_writer, encode_entry}
use hermes.Storage.Command.{put_uint32}
use hermes.Clock.Hybrid.{to_bytes}
use hermes.Storage.SsTable.Files.{open_reader, finish, drain}
use hermes.Storage.SsTable.Blocks.{AllFit, encode_all, all_stored}
use hermes.Storage.SsTable.Writing.{Room}
use hermes.Storage.SsTable.Adding as Adding
use hermes.Storage.SsTable.Reopened.{open_reader-finish}

abbrev small_filter : BloomFilter
small_filter = record { bitset = 5 ∷ 0 ∷ []; m = 128; k = 3; count = 0 }

add_all_example :
    (bf' : BloomFilter) × (add_all ((97 ∷ []) ∷ (98 ∷ 99 ∷ []) ∷ []) small_filter ≡ some bf')
    × IsSized bf'
    × AllContained ((97 ∷ []) ∷ (98 ∷ 99 ∷ []) ∷ []) bf'
    × AllContained [] bf'
add_all_example =
    add_all_lem ((97 ∷ []) ∷ (98 ∷ 99 ∷ []) ∷ []) [] small_filter
      (record { some_bits = omega arith; words = refl }) tt

deserialize-serialize_example :
    deserialize (serialize small_filter) ≡ some (record small_filter { count = 0 })
deserialize-serialize_example = deserialize-serialize small_filter (record {
  words = (omega arith, (omega arith, tt));
  small_m = omega arith;
  small_k = omega arith;
  filled = refl;
})

abbrev some_calls : List Call
some_calls =
    Call.putting 1 (98 ∷ []) (1 ∷ []) 10 1
    ∷ Call.putting 3 (97 ∷ []) (2 ∷ []) 11 2
    ∷ Call.deleting 2 (98 ∷ []) 12 3
    ∷ []

run-Lists_example :
    (sl : SkipList) × (es : List Entry) × (run some_calls new_skip_list ≡ some sl)
    × (all sl ≡ some es)
    × Sorted es
    × ((key : GoString) → get key sl ≡ some (latest key none some_calls))
    × ((key : GoString) → get key sl ≡ some (lookup key es))
run-Lists_example =
    run-Lists some_calls
      (omega arith, omega arith, (omega arith, omega arith, (omega arith, omega arith, tt)))

abbrev first_entry : Entry
first_entry = record {
  key = 98 ∷ [];
  value = 7 ∷ [];
  timestamp = 10;
  deleted = false;
  sequence = 1;
}

-- A list of one entry.
abbrev one_list :
    (sl : SkipList) × (put 3 (98 ∷ []) (7 ∷ []) 10 1 new_skip_list ≡ some sl)
    × Represents sl (insert_entry first_entry [])
one_list =
    put_lem 3 (98 ∷ []) (7 ∷ []) 10 1 new_skip_list [] (omega arith) (omega arith)
      new_skip_list-Represents

put_example :
    (sl' : SkipList) × (put 2 (97 ∷ []) (9 ∷ []) 11 2 one_list.0 ≡ some sl')
    × Represents sl' (
        insert_entry
          (record { key = 97 ∷ []; value = 9 ∷ []; timestamp = 11; deleted = false; sequence = 2 })
          (insert_entry first_entry []))
put_example =
    put_lem 2 (97 ∷ []) (9 ∷ []) 11 2 one_list.0 (insert_entry first_entry []) (omega arith)
      (omega arith) one_list.2

scan_example :
    scan (97 ∷ []) (99 ∷ []) one_list.0
    ≡ some (until_key (99 ∷ []) (from_key (97 ∷ []) (insert_entry first_entry [])))
scan_example = scan_lem (97 ∷ []) (99 ∷ []) one_list.0 (insert_entry first_entry []) one_list.2

lookup_other : lookup (97 ∷ []) (insert_entry first_entry []) ≡ none
unfolding lookup insert_entry str_eq
lookup_other = refl

delete-Put_lost_example :
    (sl1 sl2 sl3 : SkipList) × (delete_found (97 ∷ []) 20 5 one_list.0 ≡ some (one_list.0, false))
    × (put 1 (97 ∷ []) [] 20 5 one_list.0 ≡ some sl1)
    × (put 2 (97 ∷ []) (4 ∷ []) 21 6 sl1 ≡ some sl2)
    × (mark_deleted (97 ∷ []) sl2 ≡ some sl3)
    × (get (97 ∷ []) sl3 ≡ some (some (tombstone (97 ∷ []) 21 6)))
delete-Put_lost_example =
    delete-Put_lost 1 2 (97 ∷ []) (4 ∷ []) 20 5 21 6 one_list.0 (insert_entry first_entry [])
      (omega arith, omega arith) (omega arith, omega arith) one_list.2 lookup_other

abbrev no_checksum : List ℕ → ℕ
no_checksum bs = 0

small_checksum : (bs : List ℕ) → no_checksum bs < 4294967296
small_checksum bs = omega arith

abbrev two_entries : List Entry
two_entries =
    record { key = 97 ∷ []; value = 9 ∷ []; timestamp = 11; deleted = false; sequence = 2 }
    ∷ record { key = 98 ∷ []; value = []; timestamp = 12; deleted = true; sequence = 3 }
    ∷ []

two_entries-AllFit : AllFit two_entries
two_entries-AllFit = (
  record { key = omega arith; value = omega arith; timestamp = omega arith },
  (record { key = omega arith; value = omega arith; timestamp = omega arith }, tt),
)

two_entries-Room : Room two_entries
unfolding encode_all encode_entry put_uint32 to_bytes
two_entries-Room = omega arith

open_reader-finish_example :
    (w : Writer) × (meta : SsTableMeta) × (Adding.add_all no_checksum two_entries
        (new_writer 20 (λ m. 7))
      ≡ some w)
    × (open_reader (finish no_checksum w).0 ≡ some meta)
    × (drain no_checksum (suc (length two_entries)) (finish no_checksum w).0 meta.index []
        ≡ some (all_stored two_entries))
open_reader-finish_example =
    open_reader-finish no_checksum small_checksum 20 (λ m. 7) two_entries (omega arith)
      (omega arith) two_entries-AllFit two_entries-Room
