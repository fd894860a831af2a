-- ===== src/Raft/Log/Entries.antt =====
-- `slice`, the body of `Entries` and of what `CommitTo` hands out: the entries of an index range.
use hermes.Base.{
  ℕ, zero, suc, ◌+◌, ◌-◌, ◌≤◌, ◌<◌, ◌≡◌, refl, ◌∙◌, inl, inr, some, List, [], ◌∷◌, arith, length,
  leb, Bool-cases, get_elem?, take, drop, length-take, length-drop, leb→le, min, max, u64,
}
use hermes.Raft.Types.{LogEntry}
use hermes.Raft.Log.{RaftLog, raised, lowered, last_index, slice}
use hermes.Raft.Log.Numbered.{
  Numbered, IsWellFormed, last_index_lem, Numbered-take, Numbered-drop, get_elem?-take,
  get_elem?-drop,
}

drop_past {ℓ} : {A : Type ℓ} (n : ℕ) (xs : List A) → length xs ≤ n → drop n xs ≡ []
drop_past zero [] h = refl
drop_past zero (x ∷ xs) h = absurd (omega arith)
drop_past (suc n) [] h = refl
drop_past (suc n) (x ∷ xs) h = drop_past n xs (omega arith)

take_nil {ℓ} : {A : Type ℓ} (n : ℕ) → take {A = A} n [] ≡ []
take_nil zero = refl
take_nil (suc n) = refl

abbrev from : RaftLog → ℕ → ℕ
from l lo = max lo (l.snapshot_index + 1)

abbrev count : RaftLog → ℕ → ℕ → ℕ
count l lo hi = min hi (last_index l + 1) - from l lo

abbrev window : RaftLog → ℕ → ℕ → List LogEntry
window l lo hi = take (count l lo hi) (drop (from l lo - l.snapshot_index) l.entries)

slice-window :
    (l : RaftLog) (lo hi : ℕ)
    → IsWellFormed l
    → l.snapshot_index < hi
    → slice l lo hi ≡ some (window l lo hi)
unfolding slice
slice-window l lo hi w h =
    let last : last_index l + 1 ≡ l.snapshot_index + length l.entries = last_index_lem l w in
    let lo' : raised (u64 (l.snapshot_index + 1)) lo ≡ from l lo = ground (arith, last) in
    let hi' : lowered (u64 (last_index l + 1)) hi ≡ min hi (last_index l + 1) =
      ground (arith, last) in
    rw (lo', hi')
      (elim (Bool-cases (leb hi lo)) [
        | inl over ↦ let z : count l lo hi ≡ 0 = omega (arith, leb→le _ _ over) in rw (over, z)
        | inr under ↦
            rw under (elim (Bool-cases (leb (length l.entries) (from l lo - l.snapshot_index))) [
              | inl past ↦ rw (
                past,
                drop_past (from l lo - l.snapshot_index) l.entries (leb→le _ _ past),
                take_nil (count l lo hi),
              )
              | inr inside ↦ rw inside (ground (arith, last))
            ])
      ])

-- On a well-formed log `Entries(lo, hi)` does not panic once `hi` is past the snapshot. It returns
-- the stored entries from index `max lo (snapshot_index + 1)` up to `hi` or the end of the log,
-- whichever is first, numbered in order.
pub slice_lem :
    (l : RaftLog) (lo hi : ℕ)
    → IsWellFormed l
    → l.snapshot_index < hi
    → (es : List LogEntry) × (slice l lo hi ≡ some es)
      × Numbered (max lo (l.snapshot_index + 1)) es
      × (length es ≡ min hi (last_index l + 1) - max lo (l.snapshot_index + 1))
      × ((n : ℕ)
          → n < length es
          → get_elem? es n
            ≡ get_elem? l.entries (max lo (l.snapshot_index + 1) - l.snapshot_index + n))
slice_lem l lo hi w h =
    let last : last_index l + 1 ≡ l.snapshot_index + length l.entries = last_index_lem l w in
    let k : ℕ = from l lo - l.snapshot_index in
    let n : ℕ = count l lo hi in
    let len : length (window l lo hi) ≡ n =
      omega (arith, length-take n (drop k l.entries), length-drop k l.entries) in
    let start : l.snapshot_index + k ≡ from l lo = omega arith in
    (
      window l lo hi,
      slice-window l lo hi w h,
      Numbered-take n _ (drop k l.entries)
          (rw start at (Numbered-drop k l.snapshot_index l.entries w.numbered)),
      len,
      λ i lt.
          get_elem?-take n i (drop k l.entries) (omega (arith, len)) ∙ get_elem?-drop k i l.entries,
    )
