-- ===== src/Raft/Log/Compact.antt =====
-- `Compact`: what the log keeps when a snapshot takes the place of its first entries.
use hermes.Base.{
  ℕ, suc, ◌+◌, ◌-◌, ◌≤◌, ◌<◌, ◌≡◌, refl, subst, inl, inr, false, List, [], ◌∷◌, arith, length, ltb,
  leb, Bool-cases, drop, length-drop, ltb→lt, max,
}
use hermes.Raft.Types.{LogEntry}
use hermes.Raft.Log.{RaftLog, term_of, last_index, raised, compact, sentinel}
use hermes.Raft.Log.Numbered.{Numbered, IsWellFormed, last_index_lem, Numbered-drop, get_elem?-drop}

abbrev rebased : RaftLog → ℕ → ℕ → List LogEntry → RaftLog
rebased l index term rest = record {
  entries = sentinel index term ∷ rest;
  snapshot_index = index;
  snapshot_term = term;
  committed = raised index l.committed;
  applied = raised index l.applied;
}

rebased-IsWellFormed :
    (l : RaftLog) (index term : ℕ) (rest : List LogEntry)
    → IsWellFormed l
    → Numbered (suc index) rest
    → index + length rest + 1 < 18446744073709551616
    → max (last_index l) index ≡ index + length rest
    → IsWellFormed (rebased l index term rest)
rebased-IsWellFormed l index term rest w num fits last = record {
  nonempty = omega arith;
  in_range = omega arith;
  numbered = (refl, num);
  base_term = refl;
  snapshot_committed = ground arith;
  committed_stored = ground (arith, last_index_lem l w, w.committed_stored);
  applied_committed = ground (arith, w.applied_committed);
}

-- What `Compact` promises, for the log that it leaves.
pub record Compacted (l : RaftLog) (index term : ℕ) (l' : RaftLog) : Type 0 where
  pub well_formed : IsWellFormed l'
  pub base : l'.snapshot_index ≡ index
  pub base_term : term_of l' index ≡ term
  pub keeps : (i : ℕ) → index < i → index ≤ last_index l → term_of l' i ≡ term_of l i
  pub committed : l'.committed ≡ max l.committed index
  pub applied : l'.applied ≡ max l.applied index
  pub last : last_index l' ≡ max (last_index l) index

rebased-Compacted :
    (l : RaftLog) (index term : ℕ) (rest : List LogEntry)
    → IsWellFormed l
    → Numbered (suc index) rest
    → index + length rest + 1 < 18446744073709551616
    → max (last_index l) index ≡ index + length rest
    → ((i : ℕ)
        → index < i
        → index ≤ last_index l
        → term_of (rebased l index term rest) i ≡ term_of l i)
    → Compacted l index term (rebased l index term rest)
unfolding term_of
rebased-Compacted l index term rest w num fits last keeps =
    let w' : IsWellFormed (rebased l index term rest) =
      rebased-IsWellFormed l index term rest w num fits last in
    record {
      well_formed = w';
      base = refl;
      base_term = ground arith;
      keeps = keeps;
      committed = ground arith;
      applied = ground arith;
      last = omega (arith, last_index_lem _ w', last);
    }

term_of-rebased :
    (l : RaftLog) (index term i : ℕ)
    → l.snapshot_index < index
    → index < i
    → term_of (rebased l index term (drop (index - l.snapshot_index + 1) l.entries)) i ≡ term_of l i
unfolding term_of
term_of-rebased l index term i h lt =
    let j : ℕ = i - index - 1 in
    let a : i - index ≡ suc j = omega arith in
    let b : i - l.snapshot_index ≡ index - l.snapshot_index + 1 + j = omega arith in
    ground (arith, get_elem?-drop (index - l.snapshot_index + 1) j l.entries, a, b)

-- `Compact` of a well-formed log to an index past the snapshot and below the end of 64 bits keeps
-- the log well formed and moves the snapshot to the index with the given term. If the log has the
-- index, the term of every later index is as it was. The commit and apply indices are raised to
-- the index, and the log ends where it did, or there.
pub compact-Compacted :
    (l : RaftLog) (index term : ℕ)
    → IsWellFormed l
    → l.snapshot_index < index
    → index + 1 < 18446744073709551616
    → Compacted l index term (compact l index term)
unfolding compact
compact-Compacted l index term w h fits =
    let k : ℕ = index - l.snapshot_index in
    let s : l.snapshot_index + (k + 1) ≡ suc index = omega arith in
    let late : leb index l.snapshot_index ≡ false = ground arith in
    elim (Bool-cases (ltb k (length l.entries))) [
      | inl inside ↦
          rw (late, inside)
            (rebased-Compacted l index term (drop (k + 1) l.entries) w
              (subst (λ n. Numbered n (drop (k + 1) l.entries)) s
                (Numbered-drop (k + 1) l.snapshot_index l.entries w.numbered))
              (omega (arith, length-drop (k + 1) l.entries, ltb→lt _ _ inside, w.in_range))
              (omega (arith, length-drop (k + 1) l.entries, ltb→lt _ _ inside, last_index_lem l w))
              (λ i lt le. term_of-rebased l index term i h lt))
      | inr outside ↦
          let far : length l.entries ≤ k = ground arith in
          rw (late, outside)
            (rebased-Compacted l index term [] w tt (omega arith)
              (omega (arith, far, last_index_lem l w))
              (λ i lt le. absurd (omega (arith, far, last_index_lem l w))))
    ]
