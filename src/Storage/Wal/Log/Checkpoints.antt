-- ===== src/Storage/Wal/Log/Checkpoints.antt =====
-- What a checkpoint removes, and which file a rotation opens.
use hermes.Base.{
  Option-cases, ℕ, ◌+◌, ◌<◌, ◌≡◌, refl, List, [], ◌∷◌, ◌++◌, false, length, length-append, arith,
  none, inl, inr, ◌⊎◌, u64, u64_mod, Bool,
}
use mathlib.Core.List.{append-nil}
use hermes.Storage.Wal.Record.{WalRecord}
use hermes.Storage.Wal.Segment.{
  segment_header, Written, wrote, failed_after, torn, Segment, appended, new_segment, write_record,
  sync_segment,
}
use hermes.Storage.Wal.Log.{
  Wal, Os, remaining, checkpoint_record, rotate_segment, create, write_to_active, checkpoint,
  segments,
}

-- A checkpoint keeps, in their order, the sealed segments whose last record lies behind it.
remaining-append :
    (seq : ℕ) (xs ys : List Segment)
    → remaining seq (xs ++ ys) ≡ remaining seq xs ++ remaining seq ys
unfolding remaining
remaining-append seq [] ys = refl
remaining-append seq (x ∷ xs) ys = ground (arith, remaining-append seq xs ys)

remaining-twice :
    (seq : ℕ) (xs : List Segment) → remaining seq (remaining seq xs) ≡ remaining seq xs
unfolding remaining
remaining-twice seq [] = refl
remaining-twice seq (x ∷ xs) = ground (arith, remaining-twice seq xs)

remaining-one : (seq : ℕ) (s : Segment) → s.last_seq ≡ seq → remaining seq (s ∷ []) ≡ []
unfolding remaining
remaining-one seq s h = ground (arith, h)

last_seq-write_record :
    (checksum : List ℕ → ℕ) (outcome : Written) (r : WalRecord) (s : Segment)
    → (write_record checksum outcome r s).0 ≡ none
    → (write_record checksum outcome r s).1.last_seq ≡ r.sequence
unfolding write_record appended torn
last_seq-write_record checksum (wrote n) r s h = ground (arith, h)
last_seq-write_record checksum (failed_after n) r s h = ground (arith, h)

last_seq-write_to_active :
    (os : Os) (r : WalRecord) (w : Wal)
    → (write_to_active os r w).0 ≡ none
    → (write_to_active os r w).1.active.last_seq ≡ r.sequence
unfolding write_to_active
last_seq-write_to_active os r w h =
    let rotated = (rotate_segment os w).1 in
    ground (
      arith,
      h,
      last_seq-write_record os.checksum (os.writes r w.active) r w.active,
      last_seq-write_record os.checksum (os.writes r rotated.active) r rotated.active,
    )

last_seq-sync_segment : (ok : Bool) (s : Segment) → (sync_segment ok s).1.last_seq ≡ s.last_seq
unfolding sync_segment
last_seq-sync_segment ok s = ground arith

-- If a checkpoint succeeds, then its sequence is the last one of the active segment, whatever entries
-- stand before it. So of the segments that it leaves, another one of the same sequence would remove
-- the active segment, were it sealed, and keep every other.
pub checkpointed_segment_removed :
    (os : Os) (seq : ℕ) (w : Wal)
    → (checkpoint os seq w).0 ≡ none
    → ((checkpoint os seq w).1.active.last_seq ≡ seq)
      × (remaining seq (segments (checkpoint os seq w).1) ≡ (checkpoint os seq w).1.sealed)
unfolding checkpoint
checkpointed_segment_removed os seq w h =
    let r = checkpoint_record os.decimal seq in
    let w' = (write_to_active os r w).1 in
    let synced = (sync_segment (os.syncs w'.active) w'.active).1 in
    let kept = remaining seq w'.sealed in
    ground (
      arith,
      h,
      last_seq-write_to_active os r w,
      last_seq-sync_segment (os.syncs w'.active) w'.active,
      remaining-append seq kept (synced ∷ []),
      remaining-twice seq w'.sealed,
      remaining-one seq synced,
      append-nil kept,
    )

pub sum_cases : {A B : Type 0} (x : A ⊎ B) → ((a : A) × (x ≡ inl a)) ⊎ ((b : B) × (x ≡ inr b))
sum_cases (inl a) = inl (a, refl)
sum_cases (inr b) = inr (b, refl)

id-write_record :
    (checksum : List ℕ → ℕ) (outcome : Written) (r : WalRecord) (s : Segment)
    → (write_record checksum outcome r s).1.id ≡ s.id
unfolding write_record appended torn
id-write_record checksum (wrote n) r s = ground arith
id-write_record checksum (failed_after n) r s = ground arith

id-create : (os : Os) (id max_size : ℕ) (s : Segment) → create os id max_size ≡ inr s → s.id ≡ id
unfolding create new_segment
id-create os id max_size s h =
    let header = segment_header os.decimal id in
    elim (Option-cases (os.opens id)) [
      | inl failed ↦ ground (arith, h, failed)
      | inr (existing, opened) ↦
          let blank : Segment = record {
            id = id;
            file = existing;
            size = 0;
            max_size = max_size;
            first_seq = 0;
            last_seq = 0;
            closed = false;
            sync_needed = false;
          } in
          ground
            (arith, h, opened, id-write_record os.checksum (os.writes header blank) header blank)
    ]

-- A new segment takes the number of the sealed ones, itself included, as its ID. So where a
-- checkpoint removed a segment, and the active one's ID is by two above the number of those that are
-- left, a rotation that succeeds opens the very file that it has sealed.
pub rotation_reuses_file :
    (os : Os) (w : Wal)
    → length w.sealed + 2 < u64_mod
    → w.active.id ≡ length w.sealed + 2
    → (rotate_segment os w).0 ≡ none
    → (rotate_segment os w).1.active.id ≡ w.active.id
unfolding rotate_segment
rotation_reuses_file os w small gap h =
    let synced = (sync_segment (os.syncs w.active) w.active).1 in
    let id = u64 (length (w.sealed ++ synced ∷ []) + 1) in
    let id' : id ≡ length w.sealed + 2 =
      omega (arith, small, length-append w.sealed (synced ∷ [])) in
    elim (sum_cases (create os id w.segment_size)) [
      | inl (e, failed) ↦ ground (arith, h, failed)
      | inr (s, made) ↦ ground (arith, h, made, id', gap, id-create os id w.segment_size s made)
    ]
