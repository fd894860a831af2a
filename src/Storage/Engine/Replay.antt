-- ===== src/Storage/Engine/Replay.antt =====
-- The engine opened where there is a log.
use mathlib.Core.List.{append-nil}
use hermes.Base.{
  ◌∷◌, inl, false, ℕ, ◌≤◌, ◌<◌, ◌≡◌, ap, ◌∙◌, none, some, List, [], inr, GoString, u64_mod, arith,
}
use hermes.Clock.Hybrid.{Hlc}
use hermes.Storage.Wal.Segment.{read_all}
use hermes.Storage.Wal.Log.Checkpoints.{sum_cases}
use hermes.Storage.Wal.Log.{
  max_sequence, Os, Wal, open_wal, recover_files, read_from, read_segments,
}
use hermes.Storage.Wal.Log.Entries.{Works, entries_of}
use hermes.Storage.Wal.Log.Rotation.{create_lem, fresh, fresh_lem}
use hermes.Storage.SkipList.Sorted.{lookup}
use hermes.Storage.Engine.{Config, new_engine, replay_from, replay_wal, get_value}
use hermes.Storage.Engine.Tables.{first_in}
use hermes.Storage.Engine.Memory.{new_engine-Holding, get_value_lem}

recovered-small :
    (os : Os) (max next : ℕ) (files : List (List ℕ))
    → recover_files os max files ≡ inr next
    → next < u64_mod
unfolding recover_files
recovered-small os max next [] found = ground (arith, found)
recovered-small os max next (file ∷ files) found = elim (sum_cases (read_all os.checksum file)) [
  | inl (e, corrupt) ↦ ground (arith, found, corrupt)
  | inr (rs, whole) ↦
      recovered-small os (max_sequence max rs) next files (ground (arith, found, whole))
]

-- An engine that is opened where there is a log, but no table, starts empty, whatever entries the files
-- of the log hold: the opened log reads none of them, the replay of it changes nothing, and `Get`
-- finds no key. The files are read without an error, a segment has room for its header, no file
-- has the ID of the new segment yet, and the operating system does what it is asked.
pub restart-writes_lost :
    (os : Os) (draw : ℕ → ℕ) (checksum : List ℕ → ℕ) (config : Config) (clock : Hlc)
    (segment_size next : ℕ) (files : List (List ℕ))
    → Works os
    → 48 ≤ segment_size
    → recover_files os 0 files ≡ inr next
    → os.opens next ≡ some []
    → (w : Wal) × (open_wal os segment_size clock files ≡ inr w)
      × (read_from os 1 w ≡ [])
      × (replay_wal os draw w (new_engine config) ≡ some (new_engine config))
      × ((key : GoString) → get_value checksum key 0 (new_engine config) ≡ some none)
unfolding open_wal replay_wal replay_from read_from read_segments entries_of first_in lookup
restart-writes_lost os draw checksum config clock segment_size next files works room found new =
    let small : next < u64_mod = recovered-small os 0 next files found in
    let made = create_lem os next segment_size works small room new in
    let w : Wal = record {
      active = fresh os next segment_size;
      sealed = [];
      next_seq = next;
      clock = clock;
      segment_size = segment_size;
      pending_sync = [];
      timer_runs = false;
      closed = false;
      bytes_written = 0;
      records_written = 0;
      sync_count = 0;
    } in
    let empty : read_from os 1 w ≡ [] =
      append-nil (entries_of os 1 (fresh os next segment_size).file)
      ∙ (fresh_lem os next segment_size works small).1 1 in
    (
      w,
      ground (arith, found, made),
      empty,
      ap (λ log. replay_from draw 0 log (new_engine config)) empty,
      λ key. get_value_lem checksum key (new_engine config) [] [] (new_engine-Holding config),
    )
