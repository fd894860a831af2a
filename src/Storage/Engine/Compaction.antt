-- ===== src/Storage/Engine/Compaction.antt =====
-- pkg/storage/engine.go: `Scan`, `kWayMerge` and `compact`. Go's random order over a map is that of its
-- list here, and the results are sorted behind it. An iterator has a given number of rounds. A
-- compaction is one step: no flush runs between its parts.
use hermes.Base.{
  ℕ, zero, suc, ◌+◌, ◌-◌, ◌<◌, ◌≡◌, refl, ap, ◌∙◌, Bool, false, not, ◌&&◌, ◌||◌, Option, none, some,
  List, [], ◌∷◌, ◌++◌, ltb, leb, ◌==◌, if◌then◌else◌, length, get_elem?, string_eq, GoString,
  str_lt, arith,
}
use hermes.Base.Dict.{Dict, get, put}
use hermes.Base.Partial.{◌>>=◌}
use hermes.Clock.Hybrid.{after}
use hermes.Storage.Bloom.{new_filter, add}
use hermes.Storage.Bloom.Membership.{add-no_bits}
use hermes.Storage.SkipList as SkipList
use hermes.Storage.SkipList.{Entry, is_past}
use hermes.Storage.SkipList.Sorted.{insert_entry}
use hermes.Storage.SsTable.{
  IndexEntry, new_writer, add_entry, start_block, block_size, encode_entry,
}
use hermes.Storage.SsTable.Files.{open_reader, finish, next, drain}
use hermes.Storage.Engine.{Table, Engine, add_entries, reversed}

-- `sort.Slice` by the keys, which differ
unfoldable pub sort_entries : List Entry → List Entry
sort_entries [] = []
sort_entries (e ∷ es) = insert_entry e (sort_entries es)

abbrev values_of : Dict GoString Entry → List Entry
values_of [] = []
values_of ((key, e) ∷ seen) = e ∷ values_of seen

pub put_all : List Entry → Dict GoString Entry → Dict GoString Entry
put_all [] seen = seen
put_all (e ∷ es) seen = put_all es (put e.key e seen)

abbrev within : GoString → GoString → List Entry → List Entry
within start end [] = []
within start end (e ∷ es) =
    let rest = within start end es in
    if not (str_lt e.key start) && not (is_past end e.key) then e ∷ rest else rest

abbrev live : List Entry → List Entry
live [] = []
live (e ∷ es) = let rest = live es in if e.deleted then rest else e ∷ rest

-- the later timestamp of a key wins
unfoldable pub merge_entry : Entry → Dict GoString Entry → Dict GoString Entry
merge_entry e seen = elim (get e.key seen) [
  | none ↦ put e.key e seen
  | some old ↦ if after e.timestamp old.timestamp then put e.key e seen else seen
]

unfoldable pub merge_entries : List Entry → Dict GoString Entry → Dict GoString Entry
merge_entries [] seen = seen
merge_entries (e ∷ es) seen = merge_entries es (merge_entry e seen)

-- the tombstones go where the next level is the last
abbrev pub kept : Bool → List Entry → List Entry
kept last [] = []
kept last (e ∷ es) = let rest = kept last es in if e.deleted && last then rest else e ∷ rest

abbrev set_level : ℕ → List Table → List (List Table) → List (List Table)
set_level i ts [] = []
set_level zero ts (l ∷ ls) = ts ∷ ls
set_level (suc i) ts (l ∷ ls) = l ∷ set_level i ts ls

abbrev is_source : ℕ → List Table → Bool
is_source path [] = false
is_source path (t ∷ ts) = (path == t.path) || is_source path ts

-- Go's conversion gives whatever number of hashes; it is cut to at least 1.
new_filter-no_bits : (hashes : ℕ → ℕ) (key : GoString) → add key (new_filter 0 hashes) ≡ none
unfolding new_filter
new_filter-no_bits hashes key = add-no_bits key (new_filter 0 hashes) refl (ground arith)

module _ (checksum : List ℕ → ℕ) where
  -- The loop of `Scan` over an iterator, which an error ends too.
  pub entries_until_error : ℕ → List ℕ → List IndexEntry → List Entry → List Entry
  entries_until_error zero file is es = []
  entries_until_error (suc n) file is es = elim (next checksum file is es) [
    | none ↦ []
    | some none ↦ []
    | some (some (e, is', es')) ↦ e ∷ entries_until_error n file is' es'
  ]

  -- The entries of a table within the range; a table that does not open has none.
  pub scan_table : ℕ → (ℕ → Option (List ℕ)) → GoString → GoString → Table → List Entry
  scan_table n files start end t =
      if str_lt t.meta.max_key start || str_lt end t.meta.min_key then [] else elim (files t.path) [
        | none ↦ []
        | some file ↦ elim (open_reader file) [
          | none ↦ []
          | some meta ↦ within start end (entries_until_error n file meta.index [])
        ]
      ]

  pub scan_tables :
      ℕ
      → (ℕ → Option (List ℕ))
      → GoString
      → GoString
      → List Table
      → Dict GoString Entry
      → Dict GoString Entry
  scan_tables n files start end [] seen = seen
  scan_tables n files start end (t ∷ ts) seen =
      scan_tables n files start end ts (put_all (scan_table n files start end t) seen)

  -- The levels, given from the last one on.
  pub scan_levels :
      ℕ
      → (ℕ → Option (List ℕ))
      → GoString
      → GoString
      → List (List Table)
      → Dict GoString Entry
      → Dict GoString Entry
  scan_levels n files start end [] seen = seen
  scan_levels n files start end (l ∷ ls) seen =
      scan_levels n files start end ls (scan_tables n files start end l seen)

  -- `Engine.Scan`
  pub scan : ℕ → GoString → GoString → Engine → Option (List Entry)
  scan n start end e = do
    in_memory ← SkipList.scan start end e.mem_table.list
    let stored = scan_levels n e.files start end (reversed e.levels []) []
    some (sort_entries (live (values_of (put_all in_memory stored))))

  -- The entries of the tables that open, merged.
  unfoldable pub merge_tables :
      ℕ → (ℕ → Option (List ℕ)) → List Table → Dict GoString Entry → Option (Dict GoString Entry)
  merge_tables n files [] seen = some seen
  merge_tables n files (t ∷ ts) seen =
      let skipped = merge_tables n files ts seen in
      elim (files t.path) [
        | none ↦ skipped
        | some file ↦ elim (open_reader file) [
          | none ↦ skipped
          | some meta ↦ do
            es ← drain checksum n file meta.index []
            merge_tables n files ts (merge_entries es seen)
        ]
      ]

  unfoldable pub k_way_merge : ℕ → (ℕ → Option (List ℕ)) → List Table → Option (List Entry)
  k_way_merge n files ts = do
    seen ← merge_tables n files ts []
    some (sort_entries (values_of seen))

  -- `compact` of a level into the file `path`, with what the floating point of `bloom.New` gives for 0
  -- keys
  pub compact : ℕ → ℕ → ℕ → (ℕ → ℕ) → ℕ → Engine → Option Engine
  compact n path m hashes level e =
      let next_level = suc level in
      let last = next_level == length e.levels - 1 in
      if leb (length e.levels - 1) level then some e else elim (get_elem? e.levels level) [
        | none ↦ some e
        | some [] ↦ some e
        | some (t ∷ ts) ↦ do
          merged ← k_way_merge n e.files (t ∷ ts)
          w ← add_entries checksum (kept last merged) (new_writer m hashes)
          below ← get_elem? e.levels next_level
          let written = finish checksum w
          let table : Table = record { path = path; meta = written.1 }
          let cleared = set_level level [] e.levels
          some (record e {
            files = λ p.
                if is_source p (t ∷ ts)
                then none
                else if p == path
                then some written.0
                else e.files p;
            levels = set_level next_level (below ++ (table ∷ [])) cleared;
          })
      ]

  add_entry-no_bits :
      (hashes : ℕ → ℕ) (e : Entry) → add_entry checksum e (new_writer 0 hashes) ≡ none
  unfolding add_entry new_writer start_block
  add_entry-no_bits hashes e =
      let w = new_writer 0 hashes in
      let not_full : (ltb block_size (length w.block_buf + length (encode_entry e))
            && ltb 0 (length w.block_buf))
          ≡ false =
        ground arith in
      ground (arith, not_full, new_filter-no_bits hashes e.key)

  -- A compaction of a level below the last, whose tables merge into entries of which one is kept at
  -- least, panics if `bloom.New` gives no bits, as it does for the 0 keys that `compact` expects.
  pub compact-no_bits :
      (n path level : ℕ) (hashes : ℕ → ℕ) (t : Table) (ts : List Table) (merged : List Entry)
      (first : Entry) (rest : List Entry) (e : Engine)
      → level < length e.levels - 1
      → get_elem? e.levels level ≡ some (t ∷ ts)
      → k_way_merge n e.files (t ∷ ts) ≡ some merged
      → kept (suc level == length e.levels - 1) merged ≡ first ∷ rest
      → compact n path 0 hashes level e ≡ none
  unfolding compact add_entries
  compact-no_bits n path level hashes t ts merged first rest e below tables merges keeps =
      let go : leb (length e.levels - 1) level ≡ false = ground (arith, below) in
      let fails : add_entries checksum (kept (suc level == length e.levels - 1) merged)
            (new_writer 0 hashes)
          ≡ none =
        ap (λ es. add_entries checksum es (new_writer 0 hashes)) keeps
        ∙ ground (arith, add_entry-no_bits hashes first) in
      ground (arith, go, tables, merges, fails)
