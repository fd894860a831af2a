-- ===== src/Storage/Wal/Examples.antt =====
-- The theorems on the write-ahead log at concrete files, with a checksum that adds up the bytes.
use hermes.Base.{
  ℕ, zero, suc, ◌+◌, ◌/◌, ◌%◌, ◌≤◌, ◌≡◌, refl, true, false, some, List, [], ◌∷◌, ◌++◌, map, inr,
  length, length-append, ltb, ◌==◌, if◌then◌else◌, bytes, arith,
}
use hermes.Storage.Command.{put_uint32, put_uint64}
use hermes.Storage.Wal.Record.{
  WalRecord, record_data, stamped, encode, put_uint32_be, byte_of, crc_of, put_uint64_be,
}
use hermes.Storage.Wal.Record.RoundTrip.{IsSound}
use hermes.Storage.Wal.Segment.{
  sync_segment, new_segment, appended, Segment, wrote, failed_after, write_record, read_all,
}
use hermes.Storage.Wal.Recovery.{log_of, crash_recovery}
use hermes.Storage.Wal.Log.{
  create, write_to_active, Wal, Os, WalEntry, write, read_from, rotate_segment, checkpoint,
  remaining, segments,
}
use hermes.Storage.Wal.Log.Entries.{Works}
use hermes.Storage.Wal.Log.Rotation.{IsReady}
use hermes.Storage.Wal.Log.Refinement.{write_lem}
use hermes.Storage.Wal.Log.Checkpoints.{checkpointed_segment_removed}

abbrev sum : List ℕ → ℕ
sum [] = 0
sum (b ∷ bs) = b + sum bs

abbrev pub checksum : List ℕ → ℕ
checksum bs = sum bs % 4294967296

-- The decimal digits, at most so many.
abbrev digits : ℕ → ℕ → List ℕ
digits zero n = []
digits (suc fuel) n =
    let more = digits fuel (n / 10) in (if n / 10 == 0 then [] else more) ++ (48 + n % 10) ∷ []

length-digits : (fuel n : ℕ) → length (digits fuel n) ≤ fuel
length-digits zero n = omega arith
length-digits (suc fuel) n = ground (
  arith,
  length-digits fuel (n / 10),
  length-append (if n / 10 == 0 then [] else digits fuel (n / 10)) ((48 + n % 10) ∷ []),
)

abbrev pub os : Os
os = record {
  writes = λ r s. wrote (length (encode checksum r));
  syncs = λ s. true;
  opens = λ id. some [];
  checksum = checksum;
  decimal = λ n. digits 20 n;
}

pub os-Works : Works os
os-Works = record {
  writes_all = λ r s. refl;
  syncs_all = λ s. refl;
  crc_small = λ bs. omega arith;
  decimal_short = λ n small. length-digits 20 n;
}

abbrev pub record_of : ℕ → WalRecord
record_of n = record { crc = 0; type = record_data; sequence = n; payload = bytes "payload" }

pub record_of-IsSound : (n : ℕ) → n ≤ 100 → IsSound (record_of n)
record_of-IsSound n small = record {
  small_type = omega arith;
  small_sequence = omega (arith, small);
  fits = omega arith;
}

abbrev segment : List ℕ → Segment
segment file = record {
  id = 2;
  file = file;
  size = length file;
  max_size = 200;
  first_seq = 0;
  last_seq = 0;
  closed = false;
  sync_needed = false;
}

-- The write of a second record stops after 20 bytes.
crash_recovery_example :
    read_all checksum
      (write_record checksum
        (failed_after 20)
        (record_of 2)
        (segment (log_of checksum (record_of 1 ∷ [])))).1.file
    ≡ inr (map (stamped checksum) (record_of 1 ∷ []))
unfolding encode put_uint32 put_uint64
crash_recovery_example =
    crash_recovery checksum (λ bs. omega arith) (record_of 1 ∷ []) (record_of 2)
      (segment (log_of checksum (record_of 1 ∷ []))) 20 refl (record_of-IsSound 1 (omega arith), tt)
      (record_of-IsSound 2 (omega arith)) (omega arith)

abbrev log : Wal
log = record {
  active = segment [];
  sealed = [];
  next_seq = 5;
  clock = record { l = 0; c = 0; max_skew_ms = 500 };
  segment_size = 200;
  pending_sync = [];
  timer_runs = false;
  closed = false;
  bytes_written = 0;
  records_written = 0;
  sync_count = 0;
}

log-IsReady : IsReady os log
log-IsReady = record {
  sealed_logs = tt;
  active_log = ([], refl, tt);
  limit = omega arith;
  open_still = refl;
  next_small = omega arith;
}

write_example :
    (entry : WalEntry) × (w : Wal) × (write os 7 (bytes "payload") log ≡ (inr entry, w))
    × (entry.sequence ≡ log.next_seq)
    × (entry.payload ≡ bytes "payload")
    × IsReady os w
    × ((start : ℕ)
        → read_from os start w
          ≡ read_from os start log ++ (if ltb log.next_seq start then [] else entry ∷ []))
write_example = write_lem os 7 (bytes "payload") log os-Works refl log-IsReady (omega arith)

checkpointed_segment_removed_example :
    ((checkpoint os 3 log).1.active.last_seq ≡ 3)
    × (remaining 3 (segments (checkpoint os 3 log).1) ≡ (checkpoint os 3 log).1.sealed)
unfolding checkpoint rotate_segment write_to_active create new_segment write_record sync_segment
    appended encode put_uint32 put_uint64 put_uint32_be byte_of stamped crc_of put_uint64_be
checkpointed_segment_removed_example = checkpointed_segment_removed os 3 log refl
