-- ===== src/Storage/Wal/Log/Entries.antt =====
-- What the log's files hold, and what a record written into a segment adds.
use hermes.Base.{
  ℕ, ◌+◌, ◌≤◌, ◌<◌, ◌≡◌, refl, sym, ap, ◌∙◌, true, List, [], ◌∷◌, ◌++◌, map, length, arith, u64_mod,
}
use mathlib.Core.List.{append_assoc, append-nil}
use hermes.Clock.Hybrid.{to_bytes, hlc_timestamp_from_bytes}
use hermes.Clock.Hybrid.Order.{hlc_timestamp_from_bytes-to_bytes}
use hermes.Storage.Wal.Record.{WalRecord, stamped, encode}
use hermes.Storage.Wal.Segment.{Segment, wrote, appended, read_all}
use hermes.Storage.Wal.Recovery.{AreSound, log_of, read_all-log}
use hermes.Storage.Wal.Record.RoundTrip.{IsSound}
use hermes.Storage.Wal.Log.{
  Os, WalEntry, entries_from, records_of, encode_entry_data, decode_entry_data,
}

entries_from-append :
    (start : ℕ) (xs ys : List WalRecord)
    → entries_from start (xs ++ ys) ≡ entries_from start xs ++ entries_from start ys
unfolding entries_from
entries_from-append start [] ys = refl
entries_from-append start (x ∷ xs) ys = ground (arith, entries_from-append start xs ys)

map-append : {A B : Type 0} (f : A → B) (xs ys : List A) → map f (xs ++ ys) ≡ map f xs ++ map f ys
map-append f [] ys = refl
map-append f (x ∷ xs) ys = ap (λ zs. f x ∷ zs) (map-append f xs ys)

AreSound-append : (xs ys : List WalRecord) → AreSound xs → AreSound ys → AreSound (xs ++ ys)
AreSound-append [] ys h k = k
AreSound-append (x ∷ xs) ys (here, h) k = (here, AreSound-append xs ys h k)

pub decode_entry_data-encode :
    (ts : ℕ) (payload : List ℕ)
    → ts < u64_mod
    → decode_entry_data (encode_entry_data ts payload) ≡ (ts, payload)
unfolding decode_entry_data encode_entry_data hlc_timestamp_from_bytes to_bytes
decode_entry_data-encode ts payload small =
    ground (arith, hlc_timestamp_from_bytes-to_bytes ts small)

pub length-encode_entry_data :
    (ts : ℕ) (payload : List ℕ) → length (encode_entry_data ts payload) ≡ 8 + length payload
unfolding encode_entry_data to_bytes
length-encode_entry_data ts payload = omega arith

module _ (os : Os) where
  -- The operating system does what it is asked, the checksum has 32 bits, and a number of 64 bits has 20 digits at most.
  pub record Works : Type 0 where
    pub writes_all :
        (r : WalRecord) (s : Segment) → os.writes r s ≡ wrote (length (encode os.checksum r))
    pub syncs_all : (s : Segment) → os.syncs s ≡ true
    pub crc_small : (bs : List ℕ) → os.checksum bs < 4294967296
    pub decimal_short : (n : ℕ) → n < u64_mod → length (os.decimal n) ≤ 20

  abbrev pub IsLog : Segment → Type 0
  IsLog s = (rs : List WalRecord) × (s.file ≡ log_of os.checksum rs) × AreSound rs

  log_of-append :
      (xs ys : List WalRecord)
      → log_of os.checksum (xs ++ ys) ≡ log_of os.checksum xs ++ log_of os.checksum ys
  log_of-append [] ys = refl
  log_of-append (x ∷ xs) ys =
      ap (λ zs. encode os.checksum x ++ zs) (log_of-append xs ys)
      ∙ sym (append_assoc (encode os.checksum x) (log_of os.checksum xs) (log_of os.checksum ys))

  unfoldable pub entries_of : ℕ → List ℕ → List WalEntry
  entries_of start file = entries_from start (records_of (read_all os.checksum file))

  -- A record written into a segment adds its entry.
  pub appended_lem :
      (w : Works) (r : WalRecord) (s : Segment)
      → IsLog s
      → IsSound r
      → IsLog (appended os.checksum r s)
        × ((start : ℕ)
            → entries_of start (appended os.checksum r s).file
              ≡ entries_of start s.file ++ entries_from start (stamped os.checksum r ∷ []))
  unfolding appended entries_of
  appended_lem works r s (rs, holds, sound) here =
      let rs' = rs ++ r ∷ [] in
      let sound' : AreSound rs' = AreSound-append rs (r ∷ []) sound (here, tt) in
      let holds' : s.file ++ encode os.checksum r ≡ log_of os.checksum rs' =
        ap (λ f. f ++ encode os.checksum r) holds
        ∙ ap (λ e. log_of os.checksum rs ++ e) (sym (append-nil (encode os.checksum r)))
        ∙ sym (log_of-append rs (r ∷ [])) in
      (
        (rs', holds', sound'),
        λ start.
            ap (entries_of start) holds'
            ∙ ap (λ x. entries_from start (records_of x))
                (read_all-log os.checksum works.crc_small rs' sound')
            ∙ ap (entries_from start) (map-append (stamped os.checksum) rs (r ∷ []))
            ∙ entries_from-append start (map (stamped os.checksum) rs) (stamped os.checksum r ∷ [])
            ∙ ap
                (λ x.
                  entries_from start (records_of x)
                  ++ entries_from start (stamped os.checksum r ∷ []))
                (sym (
                  ap (read_all os.checksum) holds
                  ∙ read_all-log os.checksum works.crc_small rs sound)),
      )
