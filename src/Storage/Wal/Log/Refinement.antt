-- ===== src/Storage/Wal/Log/Refinement.antt =====
-- The log beside a list of entries, where the operating system does what it is asked.
use hermes.Base.{
  ℕ, ◌+◌, ◌≤◌, ◌<◌, ◌≡◌, refl, ap, ◌∙◌, true, List, [], ◌∷◌, ◌++◌, ltb, inl, inr, if◌then◌else◌,
  length, arith, none, some, Bool-cases, u64, u64_mod,
}
use hermes.Clock.Hybrid.{Hlc, now, pack}
use hermes.Storage.Wal.Record.{WalRecord, stamped, encode, record_data}
use hermes.Storage.Wal.Segment.{appended}
use hermes.Storage.Wal.Record.RoundTrip.{IsSound, length-encode}
use hermes.Storage.Wal.Log.{
  Wal, Os, WalEntry, write_to_active, write, read_from, entries_from, encode_entry_data, counted,
}
use hermes.Storage.Wal.Log.Entries.{decode_entry_data-encode, length-encode_entry_data, Works}
use hermes.Storage.Wal.Log.Rotation.{
  IsReady, write_record-fits, write_record-full, fresh-size, next_id, rotated, rotate_segment_lem,
  Extends, Extends-active, IsReady-with, rotated-IsReady,
}

module _ (os : Os) where
  -- A record that fits in a fresh os segment is written, into the active one or into a fresh os one.
  write_to_active_lem :
      (r : WalRecord) (w : Wal)
      → Works os
      → os.opens (next_id os w) ≡ some []
      → IsReady os w
      → r.type < 256
      → r.sequence < u64_mod
      → 65 + length r.payload ≤ w.segment_size
      → (w' : Wal) × (write_to_active os r w ≡ (none, w')) × Extends os r w w'
  unfolding write_to_active read_from
  write_to_active_lem r w works new ready type sequence room =
      let size = w.active.size + length (encode os.checksum r) in
      let sound : IsSound r = record {
        small_type = type;
        small_sequence = sequence;
        fits = omega (arith, room, ready.limit);
      } in
      elim (Bool-cases (ltb w.active.max_size size)) [
        | inr fits ↦
            let w' = record w { active = appended os.checksum r w.active } in
            let extends = Extends-active os r w works ready sound in
            (
              counted r w',
              ground (arith, write_record-fits os r w.active works (ground (arith, fits))),
              record {
                ready =
                    IsReady-with os w' (counted r w') extends.ready refl refl refl refl
                      ready.next_small;
                adds = extends.adds;
              },
            )
        | inl full ↦
            let again = rotated-IsReady os w works ready (omega (arith, room)) in
            let extends = Extends-active os r (rotated os w) works again.0 sound in
            let id = u64 (length (rotated os w).sealed + 1) in
            let room' : (rotated os w).active.size + length (encode os.checksum r)
                ≤ (rotated os w).active.max_size =
              omega (
                arith,
                room,
                length-encode os.checksum r,
                fresh-size os id w.segment_size works (omega arith),
              ) in
            (
              record (rotated os w) { active = appended os.checksum r (rotated os w).active },
              ground (
                arith,
                write_record-full os r w.active full,
                rotate_segment_lem os w works new (omega (arith, room)),
                write_record-fits os r (rotated os w).active works room',
              ),
              record {
                ready = extends.ready;
                adds = λ start.
                    extends.adds start
                    ∙ ap (λ es. es ++ entries_from start (stamped os.checksum r ∷ []))
                        (again.1 start);
              },
            )
      ]

  now-small : (pt : ℕ) (h : Hlc) → (now pt h).1 < u64_mod
  unfolding now pack
  now-small pt h = ground arith

  entries_from-data :
      (seq ts start : ℕ) (payload : List ℕ)
      → ts < u64_mod
      → entries_from start (
          stamped os.checksum (record {
            crc = 0;
            type = record_data;
            sequence = seq;
            payload = encode_entry_data ts payload;
          })
          ∷ [])
        ≡ (if ltb seq start
            then []
            else record { sequence = seq; timestamp = ts; payload = payload; type = record_data }
              ∷ [])
  unfolding entries_from stamped
  entries_from-data seq ts start payload small =
      ground (arith, decode_entry_data-encode ts payload small)

  -- A write to a ready log succeeds, if its data leave 73 bytes of a segment free: it leaves the log
  -- ready, and from every start the log reads as before, with the new entry at its end unless the
  -- start is behind it. The operating system does what it is asked, and no file has the ID yet that a
  -- rotation would give to its new segment.
  pub write_lem :
      (pt : ℕ) (payload : List ℕ) (w : Wal)
      → Works os
      → os.opens (next_id os w) ≡ some []
      → IsReady os w
      → 73 + length payload ≤ w.segment_size
      → (entry : WalEntry) × (w' : Wal) × (write os pt payload w ≡ (inr entry, w'))
        × (entry.sequence ≡ w.next_seq)
        × (entry.payload ≡ payload)
        × IsReady os w'
        × ((start : ℕ)
            → read_from os start w'
              ≡ read_from os start w ++ (if ltb w.next_seq start then [] else entry ∷ []))
  unfolding write read_from
  write_lem pt payload w works new ready room =
      let ts = (now pt w.clock).1 in
      let r : WalRecord = record {
        crc = 0;
        type = record_data;
        sequence = w.next_seq;
        payload = encode_entry_data ts payload;
      } in
      let w1 = record w { next_seq = u64 (w.next_seq + 1); clock = (now pt w.clock).0 } in
      let entry : WalEntry = record {
        sequence = w.next_seq;
        timestamp = ts;
        payload = payload;
        type = record_data;
      } in
      let (w2, written, extends) =
        write_to_active_lem r w1 works new
          (IsReady-with os w w1 ready refl refl refl refl (omega arith)) (omega arith)
          ready.next_small (omega (arith, room, length-encode_entry_data ts payload)) in
      let w3 = record w2 { pending_sync = w2.pending_sync ++ w.next_seq ∷ []; timer_runs = true } in
      (
        entry,
        w3,
        ground (arith, written, ready.open_still),
        refl,
        refl,
        IsReady-with os w2 w3 extends.ready refl refl refl refl extends.ready.next_small,
        λ start.
            extends.adds start
            ∙ ap (λ es. read_from os start w ++ es)
                (entries_from-data w.next_seq ts start payload (now-small pt w.clock)),
      )
