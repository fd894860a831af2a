-- ===== src/Storage/Wal/Segment.antt =====
-- pkg/storage/wal/segment.go. A segment's file is the list of its bytes. A call of the operating
-- system that may fail has its outcome as an argument.
use hermes.Base.{
  bytes, ℕ, zero, suc, ◌+◌, Bool, true, false, not, ◌&&◌, ◌||◌, List, [], ◌∷◌, ◌++◌, ltb, leb, ◌==◌,
  ◌⊎◌, inl, inr, Option, none, some, if◌then◌else◌, length, take, drop,
}
use hermes.Storage.Wal.Record.{
  WalRecord, WalError, segment_full, io_failed, corruption, uint32_le, encode, decode,
  max_record_size, record_data, record_segment_header,
}

pub record Segment : Type 0 where
  pub id : ℕ
  pub file : List ℕ
  pub size : ℕ
  pub max_size : ℕ
  pub first_seq : ℕ
  pub last_seq : ℕ
  pub closed : Bool
  pub sync_needed : Bool

unfoldable pub sync_segment : Bool → Segment → Option WalError × Segment
sync_segment succeeds s =
    if not s.sync_needed || s.closed
    then (none, s)
    else if succeeds
    then (none, record s { sync_needed = false })
    else (some io_failed, s)

pub is_full : Segment → Bool
is_full s = leb s.max_size s.size

-- A segment that is closed stays so, also where its last sync fails.
pub close_segment : Bool → Segment → Option WalError × Segment
close_segment succeeds s = (
  if not s.closed && s.sync_needed && not succeeds then some io_failed else none,
  record s { closed = true },
)

-- What `file.Write` does: it fails, or it writes so many of the bytes.
pub data Written : Type 0 where
  failed_after wrote : ℕ → Written

abbrev pub Read : Type 0
Read = WalError ⊎ List WalRecord

-- `read_loop`'s result with one more record in front.
abbrev pub then_read : WalRecord → Read → Read
then_read r (inl e) = inl e
then_read r (inr rs) = inr (r ∷ rs)

-- A record that does not decode ends the reading, with an error if it is corrupt.
abbrev pub on_decoded : WalError ⊎ WalRecord → Read → Read
on_decoded (inl (corruption n a b)) next = inl (corruption n a b)
on_decoded (inl _) next = inr []
on_decoded (inr r) next = then_read r next

-- There is no full record in front of the rest of the file: too few bytes for the length, a length
-- that is too large, or fewer bytes than it says.
unfoldable pub is_end : List ℕ → Bool
is_end bs =
    ltb (length bs) 4
    || (ltb max_record_size (uint32_le bs) || ltb (length (drop 4 bs)) (uint32_le bs))

-- "segment_id=" and the number
abbrev pub segment_header : (ℕ → List ℕ) → ℕ → WalRecord
segment_header decimal id = record {
  crc = 0;
  type = record_segment_header;
  sequence = id;
  payload = bytes "segment_id=" ++ decimal id;
}

-- A round of the loop: whether the file ends, the record that it decodes, and the rest.
abbrev pub read_step : Bool → WalError ⊎ WalRecord → Read → Read
read_step true decoded next = inr []
read_step false decoded next = on_decoded decoded next

module _ (checksum : List ℕ → ℕ) where
  -- The segment behind a write of all of a record's bytes.
  unfoldable pub appended : WalRecord → Segment → Segment
  appended r s =
      let encoded = encode checksum r in
      record s {
        file = s.file ++ encoded;
        size = s.size + length encoded;
        last_seq = r.sequence;
        sync_needed = true;
        first_seq =
            if (s.first_seq == 0) && (r.type == record_data) then r.sequence else s.first_seq;
      }

  -- A write that fails or is short leaves its bytes in the file and the rest of the segment as it was.
  unfoldable pub torn : ℕ → WalRecord → Segment → Segment
  torn n r s = record s { file = s.file ++ take n (encode checksum r) }

  unfoldable pub write_record : Written → WalRecord → Segment → Option WalError × Segment
  write_record outcome r s =
      let encoded = encode checksum r in
      if ltb s.max_size (s.size + length encoded) then (some segment_full, s) else elim outcome [
        | failed_after n ↦ (some io_failed, torn n r s)
        | wrote n ↦
            if n == length encoded then (none, appended r s) else (some io_failed, torn n r s)
      ]

  unfoldable pub read_loop : ℕ → List ℕ → Read
  read_loop zero bs = inr []
  read_loop (suc fuel) bs =
      let end = 4 + uint32_le bs in
      let next = read_loop fuel (drop end bs) in
      read_step (is_end bs) (decode checksum (take end bs)) next

  -- A full record takes at least four bytes, so the rounds are enough.
  unfoldable pub read_all : List ℕ → Read
  read_all file = read_loop (suc (length file)) file

  -- `newSegment` on a file that holds so many bytes already; `decimal` is the `%d` of `fmt`.
  unfoldable pub new_segment :
      (ℕ → List ℕ) → (WalRecord → Segment → Written) → ℕ → ℕ → List ℕ → WalError ⊎ Segment
  new_segment decimal writes id max_size existing =
      let s : Segment = record {
        id = id;
        file = existing;
        size = 0;
        max_size = max_size;
        first_seq = 0;
        last_seq = 0;
        closed = false;
        sync_needed = false;
      } in
      let header = segment_header decimal id in
      let (err, s') = write_record (writes header s) header s in
      elim err [ none ↦ inr s' | some e ↦ inl e ]
