-- ===== src/Storage/Wal/Recovery.antt =====
-- What a segment's file gives back after a crash.
use hermes.Base.{
  length-drop, take-append, drop-append, Bool-cases, ℕ, zero, suc, ◌+◌, ◌-◌, ◌≤◌, ◌<◌, ◌≡◌, sym, ap,
  ◌∙◌, true, false, List, [], ◌∷◌, ◌++◌, map, ltb, inl, inr, length, length-append, length-take,
  take, drop, arith,
}
use mathlib.Core.List.{append_assoc, append-nil}
use hermes.Storage.Wal.Record.{WalRecord, uint32_le, stamped, encode, decode}
use hermes.Storage.Wal.Segment.{
  Segment, write_record, failed_after, torn, is_end, read_loop, read_all, then_read, on_decoded,
  read_step,
}
use hermes.Storage.Wal.Record.RoundTrip.{
  IsSound, uint32_le-encode, uint32_le-take, decode-encode, length-encode,
}

-- The bytes of the records, one record after another.
abbrev pub log_of : (List ℕ → ℕ) → List WalRecord → List ℕ
log_of checksum [] = []
log_of checksum (r ∷ rs) = encode checksum r ++ log_of checksum rs

abbrev pub AreSound : List WalRecord → Type 0
AreSound [] = Unit {0}
AreSound (r ∷ rs) = IsSound r × AreSound rs

module _ (checksum : List ℕ → ℕ) (small : (bs : List ℕ) → checksum bs < 4294967296) where
  is_end-encode :
      (r : WalRecord) (rest : List ℕ) → IsSound r → is_end (encode checksum r ++ rest) ≡ false
  unfolding is_end
  is_end-encode r rest sound =
      let whole = encode checksum r ++ rest in
      let n = 17 + length r.payload in
      let long : length whole ≡ n + length rest =
        omega (arith, length-append (encode checksum r) rest, length-encode checksum r) in
      ground (arith, long, sound.fits, length-drop 4 whole, uint32_le-encode checksum r rest sound)

  read_loop-record :
      (fuel : ℕ) (r : WalRecord) (rest : List ℕ)
      → IsSound r
      → read_loop checksum (suc fuel) (encode checksum r ++ rest)
        ≡ then_read (stamped checksum r) (read_loop checksum fuel rest)
  unfolding read_loop
  read_loop-record fuel r rest sound =
      let whole = encode checksum r ++ rest in
      let end : 4 + uint32_le whole ≡ length (encode checksum r) =
        omega (arith, uint32_le-encode checksum r rest sound, length-encode checksum r) in
      let record_bytes : take (4 + uint32_le whole) whole ≡ encode checksum r =
        ap (λ k. take k whole) end ∙ take-append (encode checksum r) rest in
      let behind : drop (4 + uint32_le whole) whole ≡ rest =
        ap (λ k. drop k whole) end ∙ drop-append (encode checksum r) rest in
      ap
        (λ b.
          read_step b (decode checksum (take (4 + uint32_le whole) whole))
            (read_loop checksum fuel (drop (4 + uint32_le whole) whole)))
        (is_end-encode r rest sound)
      ∙ ap (λ d. on_decoded d (read_loop checksum fuel (drop (4 + uint32_le whole) whole)))
          (ap (decode checksum) record_bytes ∙ decode-encode checksum small r sound)
      ∙ ap (λ bs. then_read (stamped checksum r) (read_loop checksum fuel bs)) behind

  -- Part of a record is the end of the log.
  is_end-torn :
      (r : WalRecord) (n : ℕ)
      → IsSound r
      → n < length (encode checksum r)
      → is_end (take n (encode checksum r)) ≡ true
  unfolding is_end
  is_end-torn r n sound part = elim (Bool-cases (ltb n 4)) [
    | inl short ↦ ground (arith, short, length-take n (encode checksum r))
    | inr long ↦
        let n' : n ≡ 4 + (n - 4) = ground (arith, long) in
        let len : uint32_le (take n (encode checksum r)) ≡ 13 + length r.payload =
          ap (λ k. uint32_le (take k (encode checksum r))) n'
          ∙ uint32_le-take (n - 4) (encode checksum r)
          ∙ ap uint32_le (sym (append-nil (encode checksum r)))
          ∙ uint32_le-encode checksum r [] sound in
        ground (
          arith,
          part,
          len,
          length-encode checksum r,
          length-drop 4 (take n (encode checksum r)),
          length-take n (encode checksum r),
        )
  ]

  -- The records in front of a torn one are read back.
  read_loop-log :
      (fuel : ℕ) (rs : List WalRecord) (r : WalRecord) (n : ℕ)
      → length rs < fuel
      → AreSound rs
      → IsSound r
      → n < length (encode checksum r)
      → read_loop checksum fuel (log_of checksum rs ++ take n (encode checksum r))
        ≡ inr (map (stamped checksum) rs)
  unfolding read_loop
  read_loop-log zero rs r n enough sound sound' part = absurd (omega (arith, enough))
  read_loop-log (suc fuel) [] r n enough sound sound' part =
      let bs = take n (encode checksum r) in
      ap
        (λ b.
          read_step b (decode checksum (take (4 + uint32_le bs) bs))
            (read_loop checksum fuel (drop (4 + uint32_le bs) bs)))
        (is_end-torn r n sound' part)
  read_loop-log (suc fuel) (q ∷ rs) r n enough (here, sound) sound' part =
      let rest = log_of checksum rs ++ take n (encode checksum r) in
      ap (read_loop checksum (suc fuel))
        (append_assoc (encode checksum q) (log_of checksum rs) (take n (encode checksum r)))
      ∙ read_loop-record fuel q rest here
      ∙ ap (then_read (stamped checksum q))
          (read_loop-log fuel rs r n (omega (arith, enough)) sound sound' part)

  length-log_of : (rs : List WalRecord) → length rs ≤ length (log_of checksum rs)
  length-log_of [] = omega arith
  length-log_of (r ∷ rs) = omega (
    arith,
    length-append (encode checksum r) (log_of checksum rs),
    length-encode checksum r,
    length-log_of rs,
  )

  pub read_all-torn :
      (rs : List WalRecord) (r : WalRecord) (n : ℕ)
      → AreSound rs
      → IsSound r
      → n < length (encode checksum r)
      → read_all checksum (log_of checksum rs ++ take n (encode checksum r))
        ≡ inr (map (stamped checksum) rs)
  unfolding read_all
  read_all-torn rs r n sound sound' part =
      let torn_bytes = take n (encode checksum r) in
      read_loop-log (suc (length (log_of checksum rs ++ torn_bytes))) rs r n
        (omega (arith, length-log_of rs, length-append (log_of checksum rs) torn_bytes)) sound
        sound' part

  pub read_all-log :
      (rs : List WalRecord)
      → AreSound rs
      → read_all checksum (log_of checksum rs) ≡ inr (map (stamped checksum) rs)
  read_all-log rs sound =
      let empty : WalRecord = record { crc = 0; type = 0; sequence = 0; payload = [] } in
      let sound' : IsSound empty = record {
        small_type = omega arith;
        small_sequence = omega arith;
        fits = omega arith;
      } in
      ap (read_all checksum) (sym (append-nil (log_of checksum rs)))
      ∙ read_all-torn rs empty 0 sound sound' (omega (arith, length-encode checksum empty))

  -- A segment whose file holds whole records gives them back, each with its checksum, after a write
  -- that failed at any point of the next record. Every record has a type of one byte, a sequence of 64
  -- bits and a size that fits in a segment; the checksum has 32 bits.
  pub crash_recovery :
      (rs : List WalRecord) (r : WalRecord) (s : Segment) (n : ℕ)
      → s.file ≡ log_of checksum rs
      → AreSound rs
      → IsSound r
      → n < length (encode checksum r)
      → read_all checksum (write_record checksum (failed_after n) r s).1.file
        ≡ inr (map (stamped checksum) rs)
  unfolding write_record torn
  crash_recovery rs r s n holds sound sound' part =
      elim (Bool-cases (ltb s.max_size (s.size + length (encode checksum r)))) [
        | inl full ↦ rw full (ap (read_all checksum) holds ∙ read_all-log rs sound)
        | inr fits ↦ rw fits (
            ap (λ f. read_all checksum (f ++ take n (encode checksum r))) holds
            ∙ read_all-torn rs r n sound sound' part)
      ]
