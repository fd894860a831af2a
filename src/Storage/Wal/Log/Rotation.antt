-- ===== src/Storage/Wal/Log/Rotation.antt =====
-- What a rotation does to the segments and to the entries of the log.
use hermes.Base.{
  ℕ, ◌+◌, ◌≤◌, ◌<◌, ◌≡◌, refl, sym, ap, subst, ◌∙◌, true, false, List, [], ◌∷◌, ◌++◌, ltb, inr,
  length, length-append, arith, none, some, u64, u64_mod,
}
use mathlib.Core.List.{append_assoc, append-nil}
use hermes.Storage.Wal.Record.{segment_full, WalRecord, stamped, encode, max_record_size}
use hermes.Storage.Wal.Segment.{
  Segment, write_record, appended, new_segment, sync_segment, segment_header,
}
use hermes.Storage.Wal.Recovery.{read_all-log}
use hermes.Storage.Wal.Record.RoundTrip.{IsSound, length-encode}
use hermes.Storage.Wal.Log.{
  Wal, Os, create, rotate_segment, read_from, read_segments, entries_from, records_of,
}
use hermes.Storage.Wal.Log.Entries.{Works, IsLog, entries_of, appended_lem}

module _ (os : Os) where
  abbrev pub AreLogs : List Segment → Type 0
  AreLogs [] = Unit {0}
  AreLogs (s ∷ ss) = IsLog os s × AreLogs ss

  AreLogs-append :
      (ss : List Segment) (s : Segment) → AreLogs ss → IsLog os s → AreLogs (ss ++ s ∷ [])
  AreLogs-append [] s h k = (k, tt)
  AreLogs-append (t ∷ ss) s (here, h) k = (here, AreLogs-append ss s h k)

  -- The log is open, and every segment's file holds whole records.
  pub record IsReady (w : Wal) : Type 0 where
    pub sealed_logs : AreLogs w.sealed
    pub active_log : IsLog os w.active
    pub limit : w.segment_size ≤ max_record_size
    pub open_still : w.closed ≡ false
    pub next_small : w.next_seq < u64_mod

  read_segments-append :
      (start : ℕ) (ss : List Segment) (s : Segment)
      → read_segments os start (ss ++ s ∷ [])
        ≡ read_segments os start ss ++ entries_of os start s.file
  unfolding read_segments entries_of
  read_segments-append start [] s = append-nil (entries_of os start s.file)
  read_segments-append start (t ∷ ss) s =
      ap (λ es. entries_of os start t.file ++ es) (read_segments-append start ss s)
      ∙ sym (
          append_assoc (entries_of os start t.file) (read_segments os start ss)
            (entries_of os start s.file))

  pub write_record-fits :
      (r : WalRecord) (s : Segment)
      → Works os
      → s.size + length (encode os.checksum r) ≤ s.max_size
      → write_record os.checksum (os.writes r s) r s ≡ (none, appended os.checksum r s)
  unfolding write_record
  write_record-fits r s works fits = ground (arith, works.writes_all r s, fits)

  pub write_record-full :
      (r : WalRecord) (s : Segment)
      → ltb s.max_size (s.size + length (encode os.checksum r)) ≡ true
      → write_record os.checksum (os.writes r s) r s ≡ (some segment_full, s)
  unfolding write_record
  write_record-full r s full = rw full refl

  abbrev pub blank : ℕ → ℕ → Segment
  blank id max_size = record {
    id = id;
    file = [];
    size = 0;
    max_size = max_size;
    first_seq = 0;
    last_seq = 0;
    closed = false;
    sync_needed = false;
  }

  abbrev pub fresh : ℕ → ℕ → Segment
  fresh id max_size = appended os.checksum (segment_header os.decimal id) (blank id max_size)

  length-header :
      (id : ℕ) → Works os → id < u64_mod → length (segment_header os.decimal id).payload ≤ 31
  length-header id works small = omega (arith, works.decimal_short id small)

  pub fresh-size :
      (id max_size : ℕ)
      → Works os
      → id < u64_mod
      → ((fresh id max_size).size ≤ 48) × ((fresh id max_size).max_size ≡ max_size)
  unfolding appended
  fresh-size id max_size works small = (
    omega (
      arith,
      length-encode os.checksum (segment_header os.decimal id),
      length-header id works small,
    ),
    refl,
  )

  pub create_lem :
      (id max_size : ℕ)
      → Works os
      → id < u64_mod
      → 48 ≤ max_size
      → os.opens id ≡ some []
      → create os id max_size ≡ inr (fresh id max_size)
  unfolding create new_segment
  create_lem id max_size works small room new =
      let header = segment_header os.decimal id in
      let written =
        write_record-fits header (blank id max_size) works
          (omega (arith, length-encode os.checksum header, length-header id works small, room)) in
      ground (arith, new, written)

  -- The ID that a rotation gives to its new segment.
  abbrev pub next_id : Wal → ℕ
  next_id w = u64 (length w.sealed + 2)

  -- The synced segment is sealed, and a fresh one is active.
  abbrev pub rotated : Wal → Wal
  rotated w =
      let synced = (sync_segment true w.active).1 in
      record w {
        sealed = w.sealed ++ synced ∷ [];
        active = fresh (u64 (length (w.sealed ++ synced ∷ []) + 1)) w.segment_size;
      }

  pub rotate_segment_lem :
      (w : Wal)
      → Works os
      → os.opens (next_id w) ≡ some []
      → 48 ≤ w.segment_size
      → rotate_segment os w ≡ (none, rotated w)
  unfolding rotate_segment sync_segment
  rotate_segment_lem w works new room =
      let synced = (sync_segment true w.active).1 in
      let id = u64 (length (w.sealed ++ synced ∷ []) + 1) in
      let same : next_id w ≡ id = ap u64 (omega (arith, length-append w.sealed (synced ∷ []))) in
      let new' : os.opens id ≡ some [] = ap os.opens (sym same) ∙ new in
      ground (
        arith,
        works.syncs_all w.active,
        create_lem id w.segment_size works (omega arith) room new',
      )

  sync_segment-file : (s : Segment) → (sync_segment true s).1.file ≡ s.file
  unfolding sync_segment
  sync_segment-file s = ground arith

  -- How a write of the record `r` leaves the log.
  pub record Extends (r : WalRecord) (w w' : Wal) : Type 0 where
    pub ready : IsReady w'
    pub adds :
        (start : ℕ)
        → read_from os start w'
          ≡ read_from os start w ++ entries_from start (stamped os.checksum r ∷ [])

  pub Extends-active :
      (r : WalRecord) (w : Wal)
      → Works os
      → IsReady w
      → IsSound r
      → Extends r w (record w { active = appended os.checksum r w.active })
  unfolding read_from
  Extends-active r w works ready sound =
      let added = appended_lem os works r w.active ready.active_log sound in
      record {
        ready = record {
          sealed_logs = ready.sealed_logs;
          active_log = added.0;
          limit = ready.limit;
          open_still = ready.open_still;
          next_small = ready.next_small;
        };
        adds = λ start.
            read_segments-append start w.sealed (appended os.checksum r w.active)
            ∙ ap (λ es. read_segments os start w.sealed ++ es) (added.1 start)
            ∙ sym (
                append_assoc (read_segments os start w.sealed) (entries_of os start w.active.file)
                  (entries_from start (stamped os.checksum r ∷ [])))
            ∙ ap (λ es. es ++ entries_from start (stamped os.checksum r ∷ []))
                (sym (read_segments-append start w.sealed w.active));
      }

  -- What a log is depends only on its segments and on whether it is open.
  pub IsReady-with :
      (w w' : Wal)
      → IsReady w
      → w'.sealed ≡ w.sealed
      → w'.active ≡ w.active
      → w'.segment_size ≡ w.segment_size
      → w'.closed ≡ w.closed
      → w'.next_seq < u64_mod
      → IsReady w'
  IsReady-with w w' ready sealed active size closed small = record {
    sealed_logs = subst AreLogs (sym sealed) ready.sealed_logs;
    active_log = subst (IsLog os) (sym active) ready.active_log;
    limit = omega (arith, ready.limit, size);
    open_still = closed ∙ ready.open_still;
    next_small = small;
  }

  header-IsSound : (id : ℕ) → Works os → id < u64_mod → IsSound (segment_header os.decimal id)
  header-IsSound id works small = record {
    small_type = omega arith;
    small_sequence = small;
    fits = omega (arith, length-header id works small);
  }

  -- A segment with no record but its header holds no entry.
  pub fresh_lem :
      (id max_size : ℕ)
      → Works os
      → id < u64_mod
      → IsLog os (fresh id max_size)
        × ((start : ℕ) → entries_of os start (fresh id max_size).file ≡ [])
  unfolding entries_of entries_from stamped
  fresh_lem id max_size works small =
      let header = segment_header os.decimal id in
      let added =
        appended_lem os works header (blank id max_size) ([], refl, tt)
          (header-IsSound id works small) in
      (
        added.0,
        λ start.
            added.1 start
            ∙ ap (λ x. entries_from start (records_of x) ++ [])
                (read_all-log os.checksum works.crc_small [] tt),
      )

  -- A rotation changes no entry.
  pub rotated-IsReady :
      (w : Wal)
      → Works os
      → IsReady w
      → 48 ≤ w.segment_size
      → IsReady (rotated w) × ((start : ℕ) → read_from os start (rotated w) ≡ read_from os start w)
  unfolding read_from
  rotated-IsReady w works ready room =
      let synced = (sync_segment true w.active).1 in
      let id = u64 (length (w.sealed ++ synced ∷ []) + 1) in
      let (rs, holds, sound) = ready.active_log in
      let new = fresh_lem id w.segment_size works (omega arith) in
      let same_file = sync_segment-file w.active in
      (
        record {
          sealed_logs =
              AreLogs-append w.sealed synced ready.sealed_logs (rs, same_file ∙ holds, sound);
          active_log = new.0;
          limit = ready.limit;
          open_still = ready.open_still;
          next_small = ready.next_small;
        },
        λ start.
            read_segments-append start (w.sealed ++ synced ∷ []) (fresh id w.segment_size)
            ∙ ap (λ es. read_segments os start (w.sealed ++ synced ∷ []) ++ es) (new.1 start)
            ∙ append-nil (read_segments os start (w.sealed ++ synced ∷ []))
            ∙ read_segments-append start w.sealed synced
            ∙ ap (λ f. read_segments os start w.sealed ++ entries_of os start f) same_file
            ∙ sym (read_segments-append start w.sealed w.active),
      )
