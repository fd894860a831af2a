-- ===== src/Storage/Engine.antt =====
-- pkg/storage/engine.go: writes, reads, rotation and flushes. What `wal.Write` returns, the drawn level
-- of a new node, the number of a new file and the floating point of `bloom.New` are arguments. A
-- table in memory carries a number that stands for its address. The files are a function of their
-- numbers. `none` stands for an error that a method returns and for a panic. The counts of reads and
-- of flushes are left out.
pub mod Tables
pub mod Writes
pub mod Memory
pub mod Flushes
pub mod Replay
mod Levels
pub mod Compaction
use hermes.Base.{
  ℕ, zero, suc, ◌+◌, ◌/◌, get_elem?, Bool, true, false, not, ◌&&◌, ◌||◌, Option, none, some, List,
  [], ◌∷◌, ◌++◌, ltb, leb, ◌==◌, if◌then◌else◌, i64_lt, length, GoString, str_eq, str_lt,
}
use hermes.Base.Partial.{◌>>=◌}
use hermes.Storage.Command.{encode_command, decode_command}
use hermes.Storage.SkipList.{
  Entry, SkipList, new_skip_list, put, delete, get, get_at_timestamp, scan, all,
}
use hermes.Storage.SkipList.Sorted.{insert_entry}
use hermes.Storage.Wal.Log.{Os, Wal, WalEntry, read_from}
use hermes.Storage.SsTable.{IndexEntry, SsTableMeta, Writer, new_writer, add_entry, might_contain}
use hermes.Storage.SsTable.Files.{open_reader, finish, get_from, drain}

pub record Config : Type 0 where
  pub mem_table_size : ℕ
  pub max_level0_sstables : ℕ

pub record MemTable : Type 0 where
  pub id : ℕ
  pub list : SkipList

pub record Table : Type 0 where
  pub path : ℕ
  pub meta : SsTableMeta

-- What the engine gave to the write-ahead log, and what the log made of it.
pub record LogEntry : Type 0 where
  pub payload : List ℕ
  pub timestamp : ℕ
  pub sequence : ℕ

-- The oldest of the immutable tables, and of those of a level, stands first. `log` is what this
-- engine has given to the write-ahead log since it was opened.
pub record Engine : Type 0 where
  pub config : Config
  pub log : List LogEntry
  pub mem_table : MemTable
  pub immutable : List MemTable
  pub levels : List (List Table)
  pub files : ℕ → Option (List ℕ)
  pub flush_ch : List MemTable
  pub compact_ch : List ℕ
  pub sequence : ℕ
  pub write_count : ℕ
  pub closed : Bool

-- the capacities of the channels
abbrev pub flush_room : ℕ
flush_room = 4

abbrev pub compact_room : ℕ
compact_room = 10

-- What the log made of a command: its timestamp and its sequence.
pub record Logged : Type 0 where
  pub timestamp : ℕ
  pub sequence : ℕ

abbrev pub empty_levels : ℕ → List (List Table)
empty_levels zero = []
empty_levels (suc n) = [] ∷ empty_levels n

-- `Open` where the directories hold no tables, before the log is replayed
pub new_engine : Config → Engine
new_engine config = record {
  config = config;
  log = [];
  mem_table = record { id = 0; list = new_skip_list };
  immutable = [];
  levels = empty_levels 7;
  files = λ path. none;
  flush_ch = [];
  compact_ch = [];
  sequence = 0;
  write_count = 0;
  closed = false;
}

-- Under the lock: the write to the table, and the rotation if the table is full.
pub apply : ℕ → GoString → List ℕ → Bool → Logged → Engine → Option (Engine × Bool)
apply new_level key value deleted entry e = do
  list ←
      if deleted
      then delete new_level key entry.timestamp entry.sequence e.mem_table.list
      else put new_level key value entry.timestamp entry.sequence e.mem_table.list
  let table : MemTable = record { id = e.mem_table.id; list = list }
  let full = not (i64_lt list.size e.config.mem_table_size)
  let fresh : MemTable = record { id = suc e.mem_table.id; list = new_skip_list }
  some (
    if full
        then record e { immutable = e.immutable ++ (table ∷ []); mem_table = fresh }
        else record e { mem_table = table },
    full,
  )

-- The table just rotated goes to the flush worker, unless the channel is full.
abbrev pub request_flush : MemTable → Engine → Engine
request_flush table e =
    if ltb (length e.flush_ch) flush_room
    then record e { flush_ch = e.flush_ch ++ (table ∷ []) }
    else e

abbrev pub newest : MemTable → List MemTable → MemTable
newest t [] = t
newest t (u ∷ ts) = newest u ts

abbrev pub log_entry : List ℕ → Logged → LogEntry
log_entry cmd entry = record {
  payload = cmd;
  timestamp = entry.timestamp;
  sequence = entry.sequence;
}

-- `putWithTimestamp`; no entry of the log is its error.
pub put_with_timestamp : ℕ → GoString → List ℕ → Bool → Option Logged → Engine → Option Engine
put_with_timestamp new_level key value deleted logged e = if e.closed then none else do
  entry ← logged
  let cmd = encode_command key value deleted
  let e1 = record e { log = e.log ++ (log_entry cmd entry ∷ []) }
  (e', full) ← apply new_level key value deleted entry e1
  let e2 = if full then request_flush (newest e'.mem_table e'.immutable) e' else e'
  some (record e2 { write_count = suc e2.write_count })

-- The loop of `replayWAL`, from the entry number `i` on; `draw` gives the levels of the new nodes.
pub replay_from : (ℕ → ℕ) → ℕ → List WalEntry → Engine → Option Engine
replay_from draw i [] e = some e
replay_from draw i (entry ∷ log) e = do
  (key, value, deleted) ← decode_command entry.payload
  list ←
      if deleted
      then delete (draw i) key entry.timestamp entry.sequence e.mem_table.list
      else put (draw i) key value entry.timestamp entry.sequence e.mem_table.list
  replay_from draw (i + 1) log (record e {
    mem_table = record { id = e.mem_table.id; list = list };
    sequence = if ltb e.sequence entry.sequence then entry.sequence else e.sequence;
  })

-- `replayWAL` reads the segments that the opened log has, which are not those of older files.
pub replay_wal : Os → (ℕ → ℕ) → Wal → Engine → Option Engine
replay_wal os draw w e = replay_from draw 0 (read_from os 1 w) e

-- `Get` or `GetAtTimestamp` on a table in memory
abbrev pub read_list : ℕ → GoString → SkipList → Option (Option Entry)
read_list read_ts key sl = if read_ts == 0 then get key sl else get_at_timestamp key read_ts sl

-- An entry that is found ends the search.
abbrev pub answer : Entry → Option (List ℕ)
answer e = if e.deleted then none else some e.value

-- The immutable tables from the newest on, given from the newest on.
pub read_lists : ℕ → GoString → List MemTable → Option (Option Entry)
read_lists read_ts key [] = some none
read_lists read_ts key (t ∷ ts) =
    let rest = read_lists read_ts key ts in
    elim (read_list read_ts key t.list) [
      | none ↦ none
      | some none ↦ rest
      | some (some e) ↦ some (some e)
    ]

abbrev pub reversed {ℓ} : {A : Type ℓ} → List A → List A → List A
reversed [] ys = ys
reversed (x ∷ xs) ys = reversed xs (x ∷ ys)

-- the table without the first one of that address
pub without_table : ℕ → List MemTable → List MemTable
without_table id [] = []
without_table id (t ∷ ts) = let rest = without_table id ts in if t.id == id then ts else t ∷ rest

abbrev pub add_to_level0 : Table → List (List Table) → List (List Table)
add_to_level0 t [] = []
add_to_level0 t (level0 ∷ levels) = (level0 ++ (t ∷ [])) ∷ levels

abbrev pub request_compaction : Engine → Engine
request_compaction e = elim e.levels [
  | [] ↦ e
  | level0 ∷ levels ↦
      if leb e.config.max_level0_sstables (length level0) && ltb (length e.compact_ch) compact_room
      then record e { compact_ch = e.compact_ch ++ (0 ∷ []) }
      else e
]

-- The test of `readFromLevel` on the table at a position, which is in range where it is asked for.
abbrev pub reaches : GoString → List Table → ℕ → Bool
reaches key ts i = elim (get_elem? ts i) [ none ↦ false | some t ↦ not (str_lt t.meta.max_key key) ]

-- `sort.Search` halves the range from `lo` up to `hi`; with as much fuel as the range is long it ends.
pub search_between : GoString → List Table → ℕ → ℕ → ℕ → ℕ
search_between key ts zero lo hi = lo
search_between key ts (suc fuel) lo hi =
    let middle = (lo + hi) / 2 in
    let above = search_between key ts fuel (middle + 1) hi in
    let below = search_between key ts fuel lo middle in
    if ltb lo hi then (if reaches key ts middle then below else above) else lo

pub search_level : GoString → List Table → ℕ
search_level key ts = search_between key ts (length ts) 0 (length ts)

module _ (checksum : List ℕ → ℕ) where
  -- `readFromSSTable`
  unfoldable pub read_table : (ℕ → Option (List ℕ)) → GoString → Table → Option (Option Entry)
  read_table files key t = do
    might ← might_contain key t.meta
    elim might [
      | false ↦ some none
      | true ↦ do file ← files t.path; meta ← open_reader file; get_from checksum key file meta
    ]

  -- The tables of level 0, given from the newest on.
  unfoldable pub read_tables : (ℕ → Option (List ℕ)) → GoString → List Table → Option (Option Entry)
  read_tables files key [] = some none
  read_tables files key (t ∷ ts) =
      let rest = read_tables files key ts in
      elim (read_table files key t) [
        | none ↦ none
        | some none ↦ rest
        | some (some e) ↦ some (some e)
      ]

  -- `readFromLevel`; what `sort.Search` finds depends on the order of the level.
  unfoldable pub read_from_level :
      (ℕ → Option (List ℕ)) → GoString → List Table → Option (Option Entry)
  read_from_level files key ts = elim (get_elem? ts (search_level key ts)) [
    | none ↦ some none
    | some t ↦
        if str_lt key t.meta.min_key || str_lt t.meta.max_key key
        then some none
        else read_table files key t
  ]

  unfoldable pub read_levels :
      (ℕ → Option (List ℕ)) → GoString → List (List Table) → Option (Option Entry)
  read_levels files key [] = some none
  read_levels files key (ts ∷ levels) =
      let rest = read_levels files key levels in
      elim (read_from_level files key ts) [
        | none ↦ none
        | some none ↦ rest
        | some (some e) ↦ some (some e)
      ]

  unfoldable pub read_disk :
      (ℕ → Option (List ℕ)) → GoString → List (List Table) → Option (Option Entry)
  read_disk files key [] = some none
  read_disk files key (level0 ∷ levels) = do
    newest ← read_tables files key (reversed level0 [])
    elim newest [ some e ↦ some (some e) | none ↦ read_levels files key levels ]

  -- `getAtTimestamp`, which takes 0 for the latest
  unfoldable pub get_value : GoString → ℕ → Engine → Option (Option (List ℕ))
  get_value key read_ts e = if e.closed then none else do
    found ← read_lists read_ts key (e.mem_table ∷ reversed e.immutable [])
    elim found [
      | some entry ↦ some (answer entry)
      | none ↦ do
        stored ← read_disk e.files key e.levels
        some (elim stored [ none ↦ none | some entry ↦ answer entry ])
    ]

  unfoldable pub add_entries : List Entry → Writer → Option Writer
  add_entries [] w = some w
  add_entries (e ∷ es) w = elim (add_entry checksum e w) [
    | none ↦ none
    | some w' ↦ add_entries es w'
  ]

  -- `flushMemTable` into the file `path`
  unfoldable pub flush_mem_table : ℕ → ℕ → (ℕ → ℕ) → MemTable → Engine → Option Engine
  flush_mem_table path m hashes table e = do
    entries ← all table.list
    elim entries [
      | [] ↦ some e
      | first ∷ rest ↦ do
        w ← add_entries (first ∷ rest) (new_writer m hashes)
        let written = finish checksum w
        some (
            request_compaction (record e {
              files = λ p. if p == path then some written.0 else e.files p;
              levels = add_to_level0 (record { path = path; meta = written.1 }) e.levels;
              immutable = without_table table.id e.immutable;
            }))
    ]
