-- ===== src/Raft/Log/Commit.antt =====
-- `CommitTo` and `MaybeCommit`: which index is committed, and what is handed out.
use hermes.Base.{
  ℕ, zero, suc, ◌+◌, ◌-◌, ◌/◌, ◌≤◌, ◌<◌, ◌≡◌, ◌⊎◌, refl, ap, subst, inl, inr, Option, none, some,
  true, false, List, [], ◌∷◌, arith, length, ltb, leb, Bool-cases, min, max, u64,
}
use hermes.Raft.Types.{LogEntry}
use hermes.Raft.Log.{
  RaftLog, term_of, last_index, slice, commit_to, lowered, maybe_commit, find_commit, committable,
  count_from, commit_at,
}
use hermes.Raft.Log.Numbered.{Numbered, IsWellFormed, last_index_lem}
use hermes.Raft.Log.Entries.{slice_lem}

abbrev moved : RaftLog → ℕ → RaftLog
moved l n = record l { committed = lowered (last_index l) n }

slice_past :
    (l : RaftLog) (c : ℕ)
    → IsWellFormed l
    → l.snapshot_index ≤ c
    → c ≤ l.committed
    → (es : List LogEntry) × (slice l (u64 (c + 1)) (u64 (l.committed + 1)) ≡ some es)
      × Numbered (c + 1) es
      × (length es ≡ l.committed - c)
slice_past l c w lo hi =
    let a : u64 (c + 1) ≡ c + 1 = omega (arith, last_index_lem l w) in
    let b : u64 (l.committed + 1) ≡ l.committed + 1 = omega (arith, last_index_lem l w) in
    let m : max (c + 1) (l.snapshot_index + 1) ≡ c + 1 = omega arith in
    let (es, run, num, len, _) = slice_lem l (c + 1) (l.committed + 1) w (omega arith) in
    rw (a, b) (es, run, subst (λ k. Numbered k es) m num, omega (arith, len, last_index_lem l w))

commit_to-moved :
    (l : RaftLog) (n : ℕ)
    → IsWellFormed l
    → l.committed < n
    → IsWellFormed (moved l n)
      × (moved l n ≡ record l { committed = max l.committed (min n (last_index l)) })
      × ((es : List LogEntry) × (slice
              (moved l n)
              (u64 (l.committed + 1))
              (u64 ((moved l n).committed + 1))
            ≡ some es)
          × Numbered (l.committed + 1) es
          × (length es ≡ (moved l n).committed - l.committed))
unfolding last_index
commit_to-moved l n w lt =
    let last : last_index l + 1 ≡ l.snapshot_index + length l.entries = last_index_lem l w in
    let to : lowered (last_index l) n ≡ max l.committed (min n (last_index l)) =
      ground (arith, last) in
    let w' : IsWellFormed (moved l n) = record {
      nonempty = w.nonempty;
      in_range = w.in_range;
      numbered = w.numbered;
      base_term = w.base_term;
      snapshot_committed = omega (arith, to);
      committed_stored = omega (arith, to, last);
      applied_committed = omega (arith, to);
    } in
    (
      w',
      ap (λ (c : ℕ). record l { committed = c }) to,
      slice_past (moved l n) l.committed w' w.snapshot_committed (omega (arith, to)),
    )

-- `CommitTo(n)` on a well-formed log does not panic and keeps the log well formed. The commit index
-- becomes `n`, cut at the end of the log, unless it is there already, and never moves back; only
-- it changes, and the entries returned are those between the old commit index and the new one.
pub commit_to_lem :
    (l : RaftLog) (n : ℕ)
    → IsWellFormed l
    → IsWellFormed (commit_to l n).0
      × ((commit_to l n).0 ≡ record l { committed = max l.committed (min n (last_index l)) })
      × ((es : List LogEntry) × ((commit_to l n).1 ≡ some es)
          × Numbered (l.committed + 1) es
          × (length es ≡ (commit_to l n).0.committed - l.committed))
unfolding commit_to
commit_to_lem l n w = elim (Bool-cases (leb n l.committed)) [
  | inl old ↦ rw old (w, ground (arith, last_index_lem l w), ([], refl, tt, omega arith))
  | inr new ↦ rw new (moved-lem (ground arith))
]
  where
    moved-lem :
        l.committed < n
        → IsWellFormed (moved l n)
          × (moved l n ≡ record l { committed = max l.committed (min n (last_index l)) })
          × ((es : List LogEntry) × (slice
                  (moved l n)
                  (u64 (l.committed + 1))
                  (u64 ((moved l n).committed + 1))
                ≡ some es)
              × Numbered (l.committed + 1) es
              × (length es ≡ (moved l n).committed - l.committed))
    moved-lem lt = commit_to-moved l n w lt

-- How many of the match indices have reached `n`.
abbrev pub acks : ℕ → List ℕ → ℕ
acks n [] = 0
acks n (m ∷ ms) = let rest = acks n ms in elim (leb n m) [ true ↦ suc rest | false ↦ rest ]

count_from-acks : (acc n : ℕ) (ms : List ℕ) → count_from acc n ms ≡ acc + acks n ms
unfolding count_from
count_from-acks acc n [] = omega arith
count_from-acks acc n (m ∷ ms) =
    ground (arith, count_from-acks acc n ms, count_from-acks (acc + 1) n ms)

-- What a search for an index to commit, downwards from `top`, may answer.
abbrev pub Found : RaftLog → List ℕ → ℕ → ℕ → Option ℕ → Type 0
Found l ms current top none =
    (i : ℕ) → l.committed < i → i ≤ top → committable l ms current i ≡ false
Found l ms current top (some n) =
    (l.committed < n)
    × (n ≤ top)
    × (committable l ms current n ≡ true)
    × ((i : ℕ) → n < i → i ≤ top → committable l ms current i ≡ false)

le_suc_cases : (i n : ℕ) → i ≤ suc n → (i ≤ n) ⊎ (i ≡ suc n)
le_suc_cases i n h = grind arith

Found-suc :
    (l : RaftLog) (ms : List ℕ) (current n : ℕ) (o : Option ℕ)
    → committable l ms current (suc n) ≡ false
    → Found l ms current n o
    → Found l ms current (suc n) o
Found-suc l ms current n none miss f =
    λ i lt le. elim (le_suc_cases i n le) [ inl below ↦ f i lt below | inr top ↦ rw top miss ]
Found-suc l ms current n (some m) miss (a, b, c, f) = (
  a,
  omega arith,
  c,
  λ i lt le. elim (le_suc_cases i n le) [ inl below ↦ f i lt below | inr top ↦ rw top miss ],
)

find_commit-Found :
    (l : RaftLog) (ms : List ℕ) (current top : ℕ)
    → Found l ms current top (find_commit l ms current top)
unfolding find_commit
find_commit-Found l ms current zero = λ i lt le. absurd (omega arith)
find_commit-Found l ms current (suc n) = elim (Bool-cases (ltb l.committed (suc n))) [
  | inr at_end ↦
      let e : find_commit l ms current (suc n) ≡ none = ground arith in
      rw e (λ i lt le. absurd (ground arith))
  | inl above ↦ elim (Bool-cases (committable l ms current (suc n))) [
    | inl hit ↦
        let e : find_commit l ms current (suc n) ≡ some (suc n) = ground arith in
        rw e (ground arith, omega arith, hit, λ i lt le. absurd (omega arith))
    | inr miss ↦
        let e : find_commit l ms current (suc n) ≡ find_commit l ms current n = ground arith in
        rw e (
          Found-suc l ms current n (find_commit l ms current n) miss
            (find_commit-Found l ms current n))
  ]
]

commit_at-IsWellFormed :
    (l : RaftLog) (ms : List ℕ) (current : ℕ) (o : Option ℕ)
    → IsWellFormed l
    → Found l ms current (last_index l) o
    → IsWellFormed (commit_at l o).0
commit_at-IsWellFormed l ms current none w f = w
commit_at-IsWellFormed l ms current (some n) w f = record {
  nonempty = w.nonempty;
  in_range = w.in_range;
  numbered = w.numbered;
  base_term = w.base_term;
  snapshot_committed = omega (arith, f.0, w.snapshot_committed);
  committed_stored = omega (arith, f.1, last_index_lem l w);
  applied_committed = omega (arith, f.0, w.applied_committed);
}

-- `MaybeCommit` commits the highest index above the commit index that a quorum of the match
-- indices has reached and whose entry is of the leader's term, and reports whether there is one.
-- Nothing but the commit index changes, and without such an index not even that.
pub maybe_commit_lem :
    (l : RaftLog) (ms : List ℕ) (term current : ℕ)
    → (o : Option ℕ) × (maybe_commit l ms term current ≡ commit_at l o)
      × Found l ms current (last_index l) o
unfolding maybe_commit
maybe_commit_lem l ms term current =
    (find_commit l ms current (last_index l), refl, find_commit-Found l ms current (last_index l))

maybe_commit-IsWellFormed :
    (l : RaftLog) (ms : List ℕ) (term current : ℕ)
    → IsWellFormed l
    → IsWellFormed (maybe_commit l ms term current).0
maybe_commit-IsWellFormed l ms term current w =
    let (o, e, f) = maybe_commit_lem l ms term current in
    rw e (commit_at-IsWellFormed l ms current o w f)

-- `committable` read off the acknowledgements.
pub committable-acks :
    (l : RaftLog) (ms : List ℕ) (current n : ℕ)
    → committable l ms current n ≡ true
    → (length ms + 1) / 2 ≤ acks n ms × (term_of l n ≡ current)
unfolding committable
committable-acks l ms current n h = ground (arith, count_from-acks 1 n ms)

pub acks-committable :
    (l : RaftLog) (ms : List ℕ) (current n : ℕ)
    → (length ms + 1) / 2 ≤ acks n ms
    → term_of l n ≡ current
    → committable l ms current n ≡ true
unfolding committable
acks-committable l ms current n h t = ground (arith, count_from-acks 1 n ms)
