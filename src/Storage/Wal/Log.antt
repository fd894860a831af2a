-- ===== src/Storage/Wal/Log.antt =====
-- pkg/storage/wal/wal.go. The mutex makes each call one step; a writer that waits for the sync of its
-- group is a sequence number in `pending_sync`, and the flush that the timer starts answers it. A
-- segment that cannot be opened for reading does not occur, and no context is cancelled.
pub mod Entries
pub mod Rotation
pub mod Refinement
pub mod Checkpoints
use hermes.Base.{
  ℕ, ◌+◌, Bool, true, false, ◌&&◌, ◌||◌, not, List, [], ◌∷◌, ◌++◌, ltb, leb, ◌==◌, ◌⊎◌, inl, inr,
  Option, none, some, if◌then◌else◌, length, take, drop, u64, bytes,
}
use hermes.Clock.Hybrid.{Hlc, now, to_bytes, hlc_timestamp_from_bytes}
use hermes.Storage.Wal.Record.{
  WalRecord, WalError, segment_full, wal_closed, io_failed, record_data, record_checkpoint,
  header_size,
}
use hermes.Storage.Wal.Segment.{
  Segment, Written, write_record, read_all, new_segment, sync_segment, close_segment,
}

pub record WalEntry : Type 0 where
  pub sequence : ℕ
  pub timestamp : ℕ
  pub payload : List ℕ
  pub type : ℕ

pub record Wal : Type 0 where
  pub active : Segment
  pub sealed : List Segment
  pub next_seq : ℕ
  pub clock : Hlc
  pub segment_size : ℕ
  pub pending_sync : List ℕ
  pub timer_runs : Bool
  pub closed : Bool
  pub bytes_written : ℕ
  pub records_written : ℕ
  pub sync_count : ℕ

-- What the log relies on: the operating system's outcome for each call, with the bytes that a file
-- holds already when a segment with this ID is created; the checksum; and the `%d` of `fmt`.
pub record Os : Type 0 where
  pub writes : WalRecord → Segment → Written
  pub syncs : Segment → Bool
  pub opens : ℕ → Option (List ℕ)
  pub checksum : List ℕ → ℕ
  pub decimal : ℕ → List ℕ

pub encode_entry_data : ℕ → List ℕ → List ℕ
encode_entry_data ts payload = to_bytes ts ++ payload

pub decode_entry_data : List ℕ → ℕ × List ℕ
decode_entry_data encoded = elim (hlc_timestamp_from_bytes encoded) [
  | none ↦ (0, encoded)
  | some ts ↦ (ts, drop 8 encoded)
]

-- The counts that a write into the active segment adds to.
abbrev pub counted : WalRecord → Wal → Wal
counted r w = record w {
  bytes_written = u64 (w.bytes_written + header_size + length r.payload);
  records_written = u64 (w.records_written + 1);
}

-- What stands in the log, from the oldest segment on.
abbrev pub segments : Wal → List Segment
segments w = w.sealed ++ w.active ∷ []

-- "checkpoint_seq=" and the number
abbrev pub checkpoint_record : (ℕ → List ℕ) → ℕ → WalRecord
checkpoint_record decimal seq = record {
  crc = 0;
  type = record_checkpoint;
  sequence = seq;
  payload = bytes "checkpoint_seq=" ++ decimal seq;
}

-- The sealed segments whose last record is behind the checkpoint.
pub remaining : ℕ → List Segment → List Segment
remaining seq [] = []
remaining seq (s ∷ sealed) =
    let rest = remaining seq sealed in if leb s.last_seq seq then rest else s ∷ rest

-- The largest sequence of the data records.
unfoldable pub max_sequence : ℕ → List WalRecord → ℕ
max_sequence max [] = max
max_sequence max (r ∷ rs) =
    max_sequence (if (r.type == record_data) && ltb max r.sequence then r.sequence else max) rs

pub entries_from : ℕ → List WalRecord → List WalEntry
entries_from start [] = []
entries_from start (r ∷ rs) =
    let (ts, payload) = decode_entry_data r.payload in
    let rest = entries_from start rs in
    let entry : WalEntry = record {
      sequence = r.sequence;
      timestamp = ts;
      payload = payload;
      type = r.type;
    } in
    if not (r.type == record_data) || ltb r.sequence start then rest else entry ∷ rest

-- The records that `ReadAll` returns; `nil` with an error.
abbrev pub records_of : WalError ⊎ List WalRecord → List WalRecord
records_of (inl e) = []
records_of (inr rs) = rs

module _ (os : Os) where
  -- `newSegment`, which opens the file and writes the header. A file that exists already is opened with
  -- its bytes; where it is that of a segment of this log, the two have their own bytes from then on.
  unfoldable pub create : ℕ → ℕ → WalError ⊎ Segment
  create id max_size = elim (os.opens id) [
    | none ↦ inl io_failed
    | some existing ↦ new_segment os.checksum os.decimal os.writes id max_size existing
  ]

  -- A segment that was synced is sealed, also where the new one cannot be made.
  unfoldable pub rotate_segment : Wal → Option WalError × Wal
  rotate_segment w =
      let (err, synced) = sync_segment (os.syncs w.active) w.active in
      let w' = record w { active = synced; sealed = w.sealed ++ synced ∷ [] } in
      elim err [
        | some e ↦ (some e, record w { active = synced })
        | none ↦ elim (create (u64 (length w'.sealed + 1)) w.segment_size) [
          | inl e ↦ (some e, w')
          | inr new ↦ (none, record w' { active = new })
        ]
      ]

  -- The second try, in the segment that the rotation made, is not counted.
  unfoldable pub write_to_active : WalRecord → Wal → Option WalError × Wal
  write_to_active r w =
      let (err, written) = write_record os.checksum (os.writes r w.active) r w.active in
      let (rotation_err, rotated) = rotate_segment w in
      let (err', written') =
        write_record os.checksum (os.writes r rotated.active) r rotated.active in
      elim err [
        | none ↦ (none, counted r (record w { active = written }))
        | some segment_full ↦ elim rotation_err [
          | some e ↦ (some e, rotated)
          | none ↦ (err', record rotated { active = written' })
        ]
        | some e ↦ (some e, record w { active = written })
      ]

  -- `Write`, up to where the writer waits for the sync. A failed write leaves its sequence unused.
  unfoldable pub write : ℕ → List ℕ → Wal → (WalError ⊎ WalEntry) × Wal
  write pt payload w =
      let (clock', ts) = now pt w.clock in
      let seq = w.next_seq in
      let r : WalRecord = record {
        crc = 0;
        type = record_data;
        sequence = seq;
        payload = encode_entry_data ts payload;
      } in
      let entry : WalEntry = record {
        sequence = seq;
        timestamp = ts;
        payload = payload;
        type = record_data;
      } in
      let (err, w') = write_to_active r (record w { next_seq = u64 (seq + 1); clock = clock' }) in
      if w.closed then (inl wal_closed, w) else elim err [
        | some e ↦ (inl e, w')
        | none ↦
            (inr entry, record w' { pending_sync = w'.pending_sync ++ seq ∷ []; timer_runs = true })
      ]

  -- The writers that get an answer, and the answer.
  unfoldable pub flush_pending_sync : Wal → List ℕ × Option WalError × Wal
  flush_pending_sync w =
      let w' = record w { pending_sync = []; timer_runs = false } in
      let (err, synced) = sync_segment (os.syncs w.active) w.active in
      elim w.pending_sync [
        | [] ↦ ([], none, w')
        | seq ∷ seqs ↦
            (seq ∷ seqs, err, record w' { active = synced; sync_count = u64 (w.sync_count + 1) })
      ]

  unfoldable pub checkpoint : ℕ → Wal → Option WalError × Wal
  checkpoint seq w =
      let (err, w') = write_to_active (checkpoint_record os.decimal seq) w in
      let (err', synced) = sync_segment (os.syncs w'.active) w'.active in
      elim err [
        | some e ↦ (some e, w')
        | none ↦ elim err' [
          | some e ↦ (some e, record w' { active = synced })
          | none ↦ (none, record w' { active = synced; sealed = remaining seq w'.sealed })
        ]
      ]

  unfoldable pub read_segments : ℕ → List Segment → List WalEntry
  read_segments start [] = []
  read_segments start (s ∷ ss) =
      entries_from start (records_of (read_all os.checksum s.file)) ++ read_segments start ss

  unfoldable pub read_from : ℕ → Wal → List WalEntry
  read_from start w = read_segments start (segments w)

  -- The next sequence after the files in the order of their names, or the error that one is corrupt.
  unfoldable pub recover_files : ℕ → List (List ℕ) → WalError ⊎ ℕ
  recover_files max [] = inr (u64 (max + 1))
  recover_files max (file ∷ files) = elim (read_all os.checksum file) [
    | inl e ↦ inl e
    | inr rs ↦ recover_files (max_sequence max rs) files
  ]

  -- A log in a directory with these files; with none, the first sequence is 1.
  unfoldable pub open_wal : ℕ → Hlc → List (List ℕ) → WalError ⊎ Wal
  open_wal segment_size clock files = elim (recover_files 0 files) [
    | inl e ↦ inl e
    | inr next ↦ elim (create next segment_size) [
      | inl e ↦ inl e
      | inr s ↦ inr (record {
        active = s;
        sealed = [];
        next_seq = next;
        clock = clock;
        segment_size = segment_size;
        pending_sync = [];
        timer_runs = false;
        closed = false;
        bytes_written = 0;
        records_written = 0;
        sync_count = 0;
      })
    ]
  ]

  unfoldable pub close_all : List Segment → List Segment
  close_all [] = []
  close_all (s ∷ ss) = (close_segment (os.syncs s) s).1 ∷ close_all ss

  -- The writers that get the error that the log is closed, and what closing the active segment gives.
  unfoldable pub close_wal : Wal → List ℕ × Option WalError × Wal
  close_wal w =
      let (err, active) = close_segment (os.syncs w.active) w.active in
      if w.closed then ([], none, w) else (
        w.pending_sync,
        err,
        record w { active = active; sealed = close_all w.sealed; pending_sync = []; closed = true },
      )
