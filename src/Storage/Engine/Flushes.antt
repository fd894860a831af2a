-- ===== src/Storage/Engine/Flushes.antt =====
-- A read behind a flush.
use hermes.Base.{
  ℕ, ◌<◌, ◌≡◌, ◌≢◌, refl, sym, ap, ◌∙◌, subst, Bool, false, Option, none, some, List, [], ◌∷◌, inl,
  inr, if◌then◌else◌, ◌==◌, GoString, Bool-cases, Option-cases, str_lt, ◌||◌, arith,
}
use hermes.Storage.Bloom.Membership.{IsSized}
use hermes.Storage.Bloom.Totality.{contains-some}
use hermes.Storage.SkipList.{Entry}
use hermes.Storage.SkipList.Sorted.{lookup}
use hermes.Storage.SkipList.Represents.{Represents}
use hermes.Storage.SkipList.Calls.{all_lem}
use hermes.Storage.SsTable.{SsTableMeta, Writer, new_writer, might_contain, add_entry}
use hermes.Storage.SsTable.Files.{open_reader, finish, get_from}
use hermes.Storage.SsTable.Blocks.{AllFit}
use hermes.Storage.SsTable.Writing.{Room}
use hermes.Storage.SsTable.Adding.{add_all}
use hermes.Storage.SsTable.Reopened.{reopened}
use hermes.Storage.Engine.{
  MemTable, Table, Engine, empty_levels, read_lists, reversed, read_table, read_tables,
  read_from_level, read_levels, read_disk, get_value, add_entries, without_table,
  request_compaction, add_to_level0, flush_mem_table,
}
use hermes.Storage.Engine.Tables.{AllRepresent, Holding, read_lists_lem, first_in}
use hermes.Storage.Engine.Memory.{get_value_lem}

might_contain-some :
    (key : GoString) (m : SsTableMeta)
    → IsSized m.filter
    → (b : Bool) × (might_contain key m ≡ some b)
unfolding might_contain
might_contain-some key m sized =
    let (b, asked) = contains-some key m.filter sized in
    elim (Bool-cases (str_lt key m.min_key || str_lt m.max_key key)) [
      | inl out ↦ (false, ground (arith, out))
      | inr inside ↦ (b, ground (arith, inside, asked))
    ]

-- A request to compact changes the channel alone.
record Requested (e e' : Engine) : Type 0 where
  mem_table : e'.mem_table ≡ e.mem_table
  immutable : e'.immutable ≡ e.immutable
  levels : e'.levels ≡ e.levels
  files : e'.files ≡ e.files
  closed : e'.closed ≡ e.closed

request_compaction_lem : (e : Engine) → Requested e (request_compaction e)
request_compaction_lem e = record {
  mem_table = ground arith;
  immutable = ground arith;
  levels = ground arith;
  files = ground arith;
  closed = ground arith;
}

module _ (checksum : List ℕ → ℕ) (small : (bs : List ℕ) → checksum bs < 4294967296) where
  add_entries-add_all :
      (es : List Entry) (w : Writer) → add_entries checksum es w ≡ add_all checksum es w
  unfolding add_entries add_all
  add_entries-add_all [] w = refl
  add_entries-add_all (e ∷ es) w = elim (Option-cases (add_entry checksum e w)) [
    | inl failed ↦ ground (arith, failed)
    | inr (w', added) ↦ ground (arith, added, add_entries-add_all es w')
  ]

  -- A table whose file, opened again, gives nothing.
  read_table-lost :
      (files : ℕ → Option (List ℕ)) (key : GoString) (t : Table) (file : List ℕ)
      (meta : SsTableMeta)
      → files t.path ≡ some file
      → open_reader file ≡ some meta
      → get_from checksum key file meta ≡ some none
      → IsSized t.meta.filter
      → read_table checksum files key t ≡ some none
  unfolding read_table
  read_table-lost files key t file meta stored opens lost sized =
      let (b, might) = might_contain-some key t.meta sized in
      elim (Bool-cases b) [
        | inl on ↦ ground (arith, might, on, stored, opens, lost)
        | inr off ↦ ground (arith, might, off)
      ]

  read_disk-one :
      (files : ℕ → Option (List ℕ)) (key : GoString) (t : Table)
      → read_table checksum files key t ≡ some none
      → read_disk checksum files key (add_to_level0 t (empty_levels 7)) ≡ some none
  unfolding read_disk read_tables read_levels read_from_level
  read_disk-one files key t lost = ground (arith, lost)

  -- The flushed engine.
  abbrev flushed : ℕ → Writer → MemTable → Engine → Engine
  flushed path w t e = request_compaction (record e {
    files = λ p. if p == path then some (finish checksum w).0 else e.files p;
    levels = add_to_level0 (record { path = path; meta = (finish checksum w).1 }) e.levels;
    immutable = without_table t.id e.immutable;
  })

  flush_lem :
      (path m : ℕ) (hashes : ℕ → ℕ) (t : MemTable) (e : Engine) (first : Entry) (rest : List Entry)
      (w : Writer)
      → Represents t.list (first ∷ rest)
      → add_all checksum (first ∷ rest) (new_writer m hashes) ≡ some w
      → flush_mem_table checksum path m hashes t e ≡ some (flushed path w t e)
  unfolding flush_mem_table
  flush_lem path m hashes t e first rest w r added =
      let entries = all_lem t.list (first ∷ rest) r in
      let added' = add_entries-add_all (first ∷ rest) (new_writer m hashes) ∙ added in
      ground (arith, entries, added')

  -- A read of an engine with one table on disk, which gives nothing.
  get_value-after :
      (key : GoString) (e : Engine) (now : List Entry) (t : Table)
      → e.closed ≡ false
      → Represents e.mem_table.list now
      → lookup key now ≡ none
      → e.immutable ≡ []
      → e.levels ≡ add_to_level0 t (empty_levels 7)
      → read_table checksum e.files key t ≡ some none
      → get_value checksum key 0 e ≡ some none
  unfolding get_value first_in
  get_value-after key e now t is_open r absent none_left one lost =
      let lists : read_lists 0 key (e.mem_table ∷ reversed e.immutable []) ≡ some none =
        ap (λ ts. read_lists 0 key (e.mem_table ∷ reversed ts [])) none_left
        ∙ read_lists_lem key (e.mem_table ∷ []) (now ∷ []) (r, tt)
        ∙ ground (arith, absent) in
      let disk : read_disk checksum e.files key e.levels ≡ some none =
        ap (read_disk checksum e.files key) one ∙ read_disk-one e.files key t lost in
      ground (arith, is_open, lists, disk)

  without_table-only : (t : MemTable) → without_table t.id (t ∷ []) ≡ []
  unfolding without_table
  without_table-only t = ground arith

  -- Where the only immutable table has a value for a key that is not empty, no other table in memory
  -- has an entry of the key and no level has a table, `Get` returns the value. The flush of the
  -- immutable table succeeds, and after it `Get` finds nothing: the value is in a file that no read
  -- looks into.
  pub flush-value_lost :
      (path m : ℕ) (hashes : ℕ → ℕ) (key : GoString) (t : MemTable) (e : Engine) (now : List Entry)
      (first : Entry) (rest : List Entry) (found : Entry)
      → 0 < m
      → m < 18446744073709551552
      → AllFit (first ∷ rest)
      → Room (first ∷ rest)
      → key ≢ []
      → e.immutable ≡ t ∷ []
      → Holding e now ((first ∷ rest) ∷ [])
      → lookup key now ≡ none
      → lookup key (first ∷ rest) ≡ some found
      → found.deleted ≡ false
      → (e' : Engine) × (get_value checksum key 0 e ≡ some (some found.value))
        × (flush_mem_table checksum path m hashes t e ≡ some e')
        × (get_value checksum key 0 e' ≡ some none)
  unfolding first_in
  flush-value_lost path m hashes key t e now first rest found some' few fits room filled only h
        absent there live =
      let (w, meta, added, opens, drained, lost, sized) =
        reopened checksum small m hashes (first ∷ rest) some' few fits room in
      let r : Represents t.list (first ∷ rest) =
        (subst (λ ts. AllRepresent (reversed ts []) ((first ∷ rest) ∷ [])) only h.immutable).0 in
      let e' = flushed path w t e in
      let before = get_value_lem checksum key e now ((first ∷ rest) ∷ []) h in
      let before' : get_value checksum key 0 e ≡ some (some found.value) =
        ground (arith, before, absent, there, live) in
      let e1 : Engine = record e {
        files = λ p. if p == path then some (finish checksum w).0 else e.files p;
        levels = add_to_level0 (record { path = path; meta = (finish checksum w).1 }) e.levels;
        immutable = without_table t.id e.immutable;
      } in
      let same = request_compaction_lem e1 in
      let table : Table = record { path = path; meta = (finish checksum w).1 } in
      let stored : e'.files path ≡ some (finish checksum w).0 =
        ap (λ (f : ℕ → Option (List ℕ)). f path) same.files ∙ ground arith in
      let none_left : e'.immutable ≡ [] =
        same.immutable ∙ ap (without_table t.id) only ∙ without_table-only t in
      let after =
        get_value-after key e' now table (same.closed ∙ h.is_open)
          (subst (λ u. Represents u.list now) (sym same.mem_table) h.mem) absent none_left
          (same.levels ∙ ap (add_to_level0 table) h.levels)
          (read_table-lost e'.files key table (finish checksum w).0 meta stored opens
            (lost key filled) sized) in
      (e', before', flush_lem path m hashes t e first rest w r added, after)
