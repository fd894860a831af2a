-- ===== src/Storage/EngineExamples.antt =====
-- The theorems on the engine at concrete inputs.
use hermes.Base.{
  inr, str_eq, ℕ, ◌<◌, ◌≡◌, refl, false, Option, none, some, List, [], ◌∷◌, GoString, arith,
}
use hermes.Clock.Hybrid.{Hlc, to_bytes}
use hermes.Storage.Command.{put_uint32}
use hermes.Storage.SkipList.{Entry, SkipList, new_skip_list, put}
use hermes.Storage.SkipList.Sorted.{insert_entry, lookup}
use hermes.Storage.SkipList.Represents.{Represents}
use hermes.Storage.SkipList.Refinement.{new_skip_list-Represents, put_lem}
use hermes.Storage.SkipList.Calls.{Call, latest}
use hermes.Storage.SsTable.{SsTableMeta, Writer, new_writer, encode_entry}
use hermes.Storage.SsTable.Files.{finish, open_reader, drain}
use hermes.Storage.SsTable.Adding.{add_all}
use hermes.Storage.SsTable.Reopened.{open_reader-finish}
use hermes.Base.Dict as Dict
use hermes.Storage.SsTable.Blocks.{stored, encode_all}
use hermes.Storage.SsTable.Writing.{Room}
use hermes.Storage.Engine.{
  Config, MemTable, Table, Engine, new_engine, empty_levels, replay_wal, get_value, answer,
  flush_mem_table,
}
use hermes.Storage.Engine.Tables.{Holding}
use hermes.Storage.Engine.Memory.{run_engine, get_value-run_engine, new_engine-Holding}
use hermes.Storage.Engine.Replay.{restart-writes_lost}
use hermes.Storage.Wal.Record.{stamped}
use hermes.Storage.Wal.Recovery.{log_of, read_all-log}
use hermes.Storage.Wal.Log.{Wal, open_wal, recover_files, max_sequence, read_from}
use hermes.Storage.Wal.Examples.{os, os-Works, record_of, record_of-IsSound}
use hermes.Storage.Engine.Flushes.{flush-value_lost}
use hermes.Storage.Engine.Compaction.{
  k_way_merge, merge_tables, merge_entries, merge_entry, sort_entries, compact, compact-no_bits,
}

-- A table is rotated after every second write.
abbrev small_config : Config
small_config = record { mem_table_size = 100; max_level0_sstables = 4 }

abbrev some_writes : List Call
some_writes =
    Call.putting 1 (98 ∷ []) (1 ∷ []) 10 1
    ∷ Call.putting 3 (97 ∷ []) (2 ∷ []) 11 2
    ∷ Call.deleting 2 (98 ∷ []) 12 3
    ∷ []

abbrev no_checksum : List ℕ → ℕ
no_checksum bs = 0

small_checksum : (bs : List ℕ) → no_checksum bs < 4294967296
small_checksum bs = omega arith

get_value-run_engine_example :
    (e : Engine) × (run_engine some_writes (new_engine small_config) ≡ some e)
    × ((key : GoString)
        → get_value no_checksum key 0 e
          ≡ some (elim (latest key none some_writes) [ none ↦ none | some entry ↦ answer entry ]))
get_value-run_engine_example =
    get_value-run_engine no_checksum small_config some_writes
      (omega arith, omega arith, (omega arith, omega arith, (omega arith, omega arith, tt)))

abbrev two : ℕ → ℕ
two i = 2

-- The file of a log with one record.
abbrev old_files : List (List ℕ)
old_files = log_of os.checksum (record_of 1 ∷ []) ∷ []

abbrev clock : Hlc
clock = record { l = 0; c = 0; max_skew_ms = 500 }

recovered : recover_files os 0 old_files ≡ inr 2
unfolding recover_files max_sequence stamped
recovered = ground (
  arith,
  read_all-log os.checksum (λ bs. omega arith) (record_of 1 ∷ [])
      (record_of-IsSound 1 (omega arith), tt),
)

restart-writes_lost_example :
    (w : Wal) × (open_wal os 200 clock old_files ≡ inr w)
    × (read_from os 1 w ≡ [])
    × (replay_wal os two w (new_engine small_config) ≡ some (new_engine small_config))
    × ((key : GoString) → get_value no_checksum key 0 (new_engine small_config) ≡ some none)
restart-writes_lost_example =
    restart-writes_lost os two no_checksum small_config clock 200 2 old_files os-Works (omega arith)
      recovered refl

abbrev flushed_entry : Entry
flushed_entry = record {
  key = 98 ∷ [];
  value = 7 ∷ [];
  timestamp = 10;
  deleted = false;
  sequence = 1;
}

abbrev flushed_list :
    (sl : SkipList) × (put 3 (98 ∷ []) (7 ∷ []) 10 1 new_skip_list ≡ some sl)
    × Represents sl (insert_entry flushed_entry [])
flushed_list =
    put_lem 3 (98 ∷ []) (7 ∷ []) 10 1 new_skip_list [] (omega arith) (omega arith)
      new_skip_list-Represents

abbrev rotated_table : MemTable
rotated_table = record { id = 0; list = flushed_list.0 }

abbrev rotated_engine : Engine
rotated_engine = record (new_engine small_config) { immutable = rotated_table ∷ [] }

rotated_engine-Holding : Holding rotated_engine [] ((flushed_entry ∷ []) ∷ [])
unfolding insert_entry
rotated_engine-Holding =
    let h = new_engine-Holding small_config in
    record { mem = h.mem; immutable = (flushed_list.2, tt); levels = h.levels; is_open = h.is_open }

flushed_entry-Room : Room (flushed_entry ∷ [])
unfolding encode_all encode_entry put_uint32 to_bytes
flushed_entry-Room = omega arith

none_there : lookup (98 ∷ []) [] ≡ none
unfolding lookup
none_there = refl

one_there : lookup (98 ∷ []) (flushed_entry ∷ []) ≡ some flushed_entry
unfolding lookup str_eq
one_there = refl

flush-value_lost_example :
    (e' : Engine) × (get_value no_checksum (98 ∷ []) 0 rotated_engine ≡ some (some (7 ∷ [])))
    × (flush_mem_table no_checksum 5 20 two rotated_table rotated_engine ≡ some e')
    × (get_value no_checksum (98 ∷ []) 0 e' ≡ some none)
flush-value_lost_example =
    flush-value_lost no_checksum small_checksum 5 20 two (98 ∷ []) rotated_table rotated_engine []
      flushed_entry [] flushed_entry (omega arith) (omega arith)
      (record { key = omega arith; value = omega arith; timestamp = omega arith }, tt)
      flushed_entry-Room (λ e. ground (arith, e)) refl rotated_engine-Holding none_there one_there
      refl

-- A table on disk with one entry.
abbrev finished :
    (w : Writer) × (meta : SsTableMeta) × (add_all no_checksum
        (flushed_entry ∷ [])
        (new_writer 20 two)
      ≡ some w)
    × (open_reader (finish no_checksum w).0 ≡ some meta)
    × (drain no_checksum 2 (finish no_checksum w).0 meta.index []
        ≡ some (stored flushed_entry ∷ []))
finished =
    open_reader-finish no_checksum small_checksum 20 two (flushed_entry ∷ []) (omega arith)
      (omega arith) (record { key = omega arith; value = omega arith; timestamp = omega arith }, tt)
      flushed_entry-Room

abbrev table_on_disk : Table
table_on_disk = record { path = 1; meta = (finish no_checksum finished.0).1 }

abbrev one_file : ℕ → Option (List ℕ)
one_file path = some (finish no_checksum finished.0).0

abbrev disk_engine : Engine
disk_engine = record (new_engine small_config) {
  levels = (table_on_disk ∷ []) ∷ empty_levels 6;
  files = one_file;
}

table_merged :
    (file : List ℕ) (files : ℕ → Option (List ℕ)) (t : Table) (meta : SsTableMeta)
    → files t.path ≡ some file
    → open_reader file ≡ some meta
    → drain no_checksum 2 file meta.index [] ≡ some (stored flushed_entry ∷ [])
    → k_way_merge no_checksum 2 files (t ∷ []) ≡ some (stored flushed_entry ∷ [])
unfolding k_way_merge merge_tables merge_entries merge_entry sort_entries insert_entry Dict.get
    Dict.put
table_merged file files t meta stored' opens drained = ground (arith, stored', opens, drained)

compact-no_bits_example : compact no_checksum 2 9 0 two 0 disk_engine ≡ none
compact-no_bits_example =
    compact-no_bits no_checksum 2 9 0 two table_on_disk [] (stored flushed_entry ∷ [])
      (stored flushed_entry) [] disk_engine (omega arith) refl
      (table_merged (finish no_checksum finished.0).0 one_file table_on_disk finished.1 refl
        finished.3 finished.4)
      refl
