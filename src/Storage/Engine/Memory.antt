-- ===== src/Storage/Engine/Memory.antt =====
-- Reads over the tables in memory.
use mathlib.Core.List.{append-nil, append_assoc}
use hermes.Base.{
  ℕ, ◌<◌, ◌≤◌, ◌≡◌, refl, sym, ap, ◌∙◌, true, false, Option, none, some, List, [], ◌∷◌, ◌++◌,
  GoString, arith,
}
use hermes.Storage.SkipList.{Entry, max_level, tombstone}
use hermes.Storage.SkipList.Sorted.{lookup}
use hermes.Storage.SkipList.Refinement.{put_lem, delete_lem, new_skip_list-Represents}
use hermes.Storage.SkipList.Calls.{Call, entry_of, level_of, AllDrawn, latest}
use hermes.Storage.Engine.{
  Config, Engine, LogEntry, new_engine, empty_levels, put_with_timestamp, answer, reversed,
  read_from_level, read_tables, read_levels, read_disk, get_value,
}
use hermes.Storage.Engine.Tables.{first_in, Holding, read_lists_lem}
use hermes.Storage.Engine.Writes.{logged_of, Written, put_with_timestamp_lem}

-- A call of the engine, with what the log returned.
pub engine_call : Call → Engine → Option Engine
engine_call (Call.putting n key value ts seq) e =
    put_with_timestamp n key value false (some (record { timestamp = ts; sequence = seq })) e
engine_call (Call.deleting n key ts seq) e =
    put_with_timestamp n key [] true (some (record { timestamp = ts; sequence = seq })) e

pub run_engine : List Call → Engine → Option Engine
run_engine [] e = some e
run_engine (c ∷ cs) e = elim (engine_call c e) [ none ↦ none | some e' ↦ run_engine cs e' ]

engine_call_lem :
    (c : Call) (e : Engine) (now : List Entry) (old : List (List Entry))
    → 0 < level_of c
    → level_of c ≤ max_level
    → Holding e now old
    → (e' : Engine) × (engine_call c e ≡ some e')
      × (e'.log ≡ e.log ++ (logged_of (entry_of c) ∷ []))
      × Written e' (entry_of c) now old
unfolding engine_call
engine_call_lem (Call.putting n key value ts seq) e now old some' small h =
    let (list, done, r) = put_lem n key value ts seq e.mem_table.list now some' small h.mem in
    put_with_timestamp_lem n key value false (record { timestamp = ts; sequence = seq })
      (record { key = key; value = value; timestamp = ts; deleted = false; sequence = seq }) list e
      now old done r h
engine_call_lem (Call.deleting n key ts seq) e now old some' small h =
    let (list, done, r) = delete_lem n key ts seq e.mem_table.list now some' small h.mem in
    put_with_timestamp_lem n key [] true (record { timestamp = ts; sequence = seq })
      (tombstone key ts seq) list e now old done r h

abbrev pub log_of : List Call → List LogEntry
log_of [] = []
log_of (c ∷ cs) = logged_of (entry_of c) ∷ log_of cs

pub run_engine_lem :
    (cs : List Call) (e : Engine) (now : List Entry) (old : List (List Entry))
    → AllDrawn cs
    → Holding e now old
    → (e' : Engine) × (now' : List Entry) × (old' : List (List Entry)) × (run_engine cs e ≡ some e')
      × (e'.log ≡ e.log ++ log_of cs)
      × Holding e' now' old'
      × ((key : GoString) → first_in key (now' ∷ old') ≡ latest key (first_in key (now ∷ old)) cs)
unfolding run_engine latest
run_engine_lem [] e now old drawn h = (e, now, old, refl, sym (append-nil e.log), h, λ key. refl)
run_engine_lem (c ∷ cs) e now old (some', small, drawn) h =
    let (e1, first, logged, w) = engine_call_lem c e now old some' small h in
    let (e2, now2, old2, rest, log2, h2, same) =
      run_engine_lem cs e1 w.now' w.old' drawn w.holding in
    (
      e2,
      now2,
      old2,
      ground (arith, first, rest),
      log2
          ∙ ap (λ l. l ++ log_of cs) logged
          ∙ append_assoc e.log (logged_of (entry_of c) ∷ []) (log_of cs),
      h2,
      λ key. same key ∙ ap (λ before. latest key before cs) (w.found key),
    )

pub new_engine-Holding : (config : Config) → Holding (new_engine config) [] []
unfolding new_engine
new_engine-Holding config = record {
  mem = new_skip_list-Represents;
  immutable = tt;
  levels = refl;
  is_open = refl;
}

pub new_engine-log : (config : Config) → (new_engine config).log ≡ []
unfolding new_engine
new_engine-log config = refl

module _ (checksum : List ℕ → ℕ) where
  read_disk-empty :
      (files : ℕ → Option (List ℕ)) (key : GoString)
      → read_disk checksum files key (empty_levels 7) ≡ some none
  unfolding read_disk read_tables read_levels read_from_level
  read_disk-empty files key = refl

  pub get_value_lem :
      (key : GoString) (e : Engine) (now : List Entry) (old : List (List Entry))
      → Holding e now old
      → get_value checksum key 0 e
        ≡ some (elim (first_in key (now ∷ old)) [ none ↦ none | some entry ↦ answer entry ])
  unfolding get_value
  get_value_lem key e now old h =
      let lists =
        read_lists_lem key (e.mem_table ∷ reversed e.immutable []) (now ∷ old)
          (h.mem, h.immutable) in
      let disk = ap (read_disk checksum e.files key) h.levels ∙ read_disk-empty e.files key in
      ground (arith, h.is_open, lists, disk)

  -- On an engine opened on empty directories, whose flushes have not run yet, the writes that the log
  -- takes succeed, and `Get` returns for each key the value of the last write of it, and nothing
  -- where this is a `Delete` or there is none, however often the table in memory was rotated.
  pub get_value-run_engine :
      (config : Config) (cs : List Call)
      → AllDrawn cs
      → (e : Engine) × (run_engine cs (new_engine config) ≡ some e)
        × ((key : GoString)
            → get_value checksum key 0 e
              ≡ some (elim (latest key none cs) [ none ↦ none | some entry ↦ answer entry ]))
  unfolding first_in lookup
  get_value-run_engine config cs drawn =
      let (e, now, old, done, log, h, same) =
        run_engine_lem cs (new_engine config) [] [] drawn (new_engine-Holding config) in
      (
        e,
        done,
        λ key.
            get_value_lem key e now old h
            ∙ ap (λ (o : Option Entry). some (elim o [ none ↦ none | some entry ↦ answer entry ]))
                (same key),
      )
