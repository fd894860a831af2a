-- ===== src/Raft/Node/Follower.antt =====
-- What a node does to its log when a leader's entries or heartbeats reach it.
use hermes.Base.{
  ℕ, suc, ◌+◌, ◌≤◌, ◌<◌, ◌≡◌, ◌⊎◌, refl, true, false, some, List, [], ◌∷◌, arith, Bool-cases, inl,
  inr, ltb, ◌∙◌, if◌then◌else◌, length, min, max, ltb→lt, ap, subst,
}
use hermes.Base.Partial.{Returns, Returns-bind}
use hermes.Raft.Types.{Message, LogEntry}
use hermes.Raft.Log.{RaftLog, last_index, term_of}
use hermes.Raft.Log.Numbered.{IsWellFormed, Numbered, term_of_stored, last_index_lem}
use hermes.Raft.Log.Append.{Appended, append_entries-Appended}
use hermes.Raft.Log.Splice.{Stores, Holds, entry_at}
use hermes.Raft.Log.Commit.{commit_to_lem}
use hermes.Raft.Node.{Raft, send}
use hermes.Raft.Node.Handlers.{
  advance_commit, handle_append_entries, handle_heartbeat, log_consistency_check, store_entries,
}

-- A log that another one grew into: it is well formed, its commit index did not fall, and it has
-- every entry that was committed as before.
pub record Extends (l l' : RaftLog) : Type 0 where
  pub well_formed : IsWellFormed l'
  pub commits : l.committed ≤ l'.committed
  pub keeps : (i : ℕ) → i ≤ l.committed → term_of l' i ≡ term_of l i
  pub keeps_entries : (i : ℕ) → i ≤ l.committed → entry_at l' i ≡ entry_at l i
  pub snapshot_index : l'.snapshot_index ≡ l.snapshot_index

Extends-refl : (l : RaftLog) → IsWellFormed l → Extends l l
Extends-refl l w = record {
  well_formed = w;
  commits = omega arith;
  keeps = λ i h. refl;
  keeps_entries = λ i h. refl;
  snapshot_index = refl;
}

abbrev pub committed_at : RaftLog → ℕ → RaftLog
committed_at l n = record l { committed = n }

term_of-committed_at : (l : RaftLog) (n i : ℕ) → term_of (committed_at l n) i ≡ term_of l i
unfolding term_of
term_of-committed_at l n i = refl

abbrev pub target : RaftLog → ℕ → ℕ
target l n = max l.committed (min n (last_index l))

-- Moving the commit index does not panic, and moves nothing else.
advance_commit_lem :
    (n : ℕ) (r : Raft)
    → IsWellFormed r.log
    → IsWellFormed (committed_at r.log (target r.log n))
      × (advance_commit n r ≡ some (record r { log = committed_at r.log (target r.log n) }))
unfolding advance_commit
advance_commit_lem n r w =
    let (w', e, (es, run, _, _)) = commit_to_lem r.log n w in (subst IsWellFormed e w', rw (run, e))

unmoved : (l : RaftLog) (n : ℕ) → IsWellFormed l → n ≤ l.committed → l ≡ committed_at l (target l n)
unmoved l n w h = ap (committed_at l) (omega arith)

-- A heartbeat is answered, never with a panic, and moves the commit index of a well-formed log up
-- to the leader's, cut at the end of the log. No other part of the log changes, and the terms of
-- the entries that become committed play no role.
pub handle_heartbeat_log :
    (m : Message) (r : Raft)
    → IsWellFormed r.log
    → Returns
        (λ r'. Extends r.log r'.log × (r'.log ≡ committed_at r.log (target r.log m.commit_index)))
        (handle_heartbeat m r)
unfolding handle_heartbeat send
handle_heartbeat_log m r w = elim (Bool-cases (ltb r.log.committed m.commit_index)) [
  | inl later ↦
      let (w', run) = advance_commit_lem m.commit_index r w in
      rw (later, run)
        (
          record {
            well_formed = w';
            commits = omega arith;
            keeps = λ i h. term_of-committed_at r.log (target r.log m.commit_index) i;
            keeps_entries = λ i h. refl;
            snapshot_index = refl;
          },
          refl,
        )
  | inr not_later ↦
      rw not_later (Extends-refl r.log w, unmoved r.log m.commit_index w (ground arith))
]

-- What a leader sends: entries numbered from the one that it names, which has a term.
pub record IsAppend (m : Message) : Type 0 where
  pub numbered : Numbered (suc m.log_index) m.entries
  pub has_term : 0 < m.log_index → 0 < m.log_term
  pub fits : m.log_index + length m.entries + 1 < 18446744073709551616

consistent-le-last :
    (m : Message) (r : Raft)
    → IsWellFormed r.log
    → IsAppend m
    → log_consistency_check r m.log_index m.log_term ≡ true
    → m.log_index ≤ last_index r.log
unfolding log_consistency_check
consistent-le-last m r w a h = ground (arith, a.has_term, term_of_stored r.log m.log_index w)

-- The follower's log once it took the entries of a message that its log matches.
pub record Accepted (m : Message) (l l' : RaftLog) : Type 0 where
  pub extends : Extends l l'
  pub stores : Stores l' m.entries
  pub holds : Holds l l' m.entries
  pub commit : l'.committed ≡ max l.committed (min m.commit_index (last_index l'))

Stores-committed_at :
    (l : RaftLog) (n : ℕ) (es : List LogEntry) → Stores l es → Stores (committed_at l n) es
Stores-committed_at l n [] s = tt
Stores-committed_at l n (e ∷ es) s =
    (term_of-committed_at l n e.index ∙ s.0, Stores-committed_at l n es s.1)

Holds-committed_at :
    (l l' : RaftLog) (n : ℕ) (es : List LogEntry) → Holds l l' es → Holds l (committed_at l' n) es
Holds-committed_at l l' n [] h = tt
Holds-committed_at l l' n (e ∷ es) h = (h.0, Holds-committed_at l l' n es h.1)

Appended-Accepted :
    (m : Message) (l l' : RaftLog) (n : ℕ)
    → l.committed ≤ m.log_index
    → Appended l m.log_index m.entries l'
    → Holds l l' m.entries
    → IsWellFormed (committed_at l' n)
    → n ≡ max l.committed (min m.commit_index (last_index l'))
    → Accepted m l (committed_at l' n)
unfolding last_index
Appended-Accepted m l l' n c p held w e = record {
  extends = record {
    well_formed = w;
    commits = omega (arith, e);
    keeps = λ i h. term_of-committed_at l' n i ∙ p.keeps i (omega arith);
    keeps_entries = λ i h. p.keeps_entries i (omega arith);
    snapshot_index = p.snapshot_index;
  };
  stores = Stores-committed_at l' n m.entries p.stores;
  holds = Holds-committed_at l l' n m.entries held;
  commit = e;
}

store_entries-Accepted :
    (m : Message) (r : Raft)
    → IsWellFormed r.log
    → IsAppend m
    → r.log.committed ≤ m.log_index
    → m.log_index ≤ last_index r.log
    → Returns (λ r'. Accepted m r.log r'.log) (store_entries m r)
unfolding store_entries
store_entries-Accepted m r w a c le =
    let (l, run, p, held) =
      append_entries-Appended r.log m.log_index m.entries w c le a.numbered a.fits in
    rw run (elim (Bool-cases (ltb l.committed m.commit_index)) [
      | inl later ↦
          let n : ℕ = if ltb (last_index l) m.commit_index then last_index l else m.commit_index in
          let (w', ran) = advance_commit_lem n (record r { log = l }) p.well_formed in
          rw (later, ran)
            (Appended-Accepted m r.log l (target l n) c p held w' (ground (arith, p.committed)))
      | inr not_later ↦ rw not_later (
          Appended-Accepted m r.log l l.committed c p held p.well_formed
            (ground (arith, p.committed, p.well_formed, last_index_lem l)))
    ])

-- The two outcomes of a message of entries for the log.
abbrev pub AppendOutcome : Message → Raft → Raft → Type 0
AppendOutcome m r r' =
    ((r.log.committed ≤ m.log_index)
      × (log_consistency_check r m.log_index m.log_term ≡ true)
      × Accepted m r.log r'.log)
    ⊎ (((m.log_index < r.log.committed) ⊎ (log_consistency_check r m.log_index m.log_term ≡ false))
        × (r'.log ≡ r.log))

-- A message of entries, numbered from its log index with room below 2^64 and with a log term
-- unless the index is 0, is answered without a panic by a node with a well-formed log: the log
-- stays well formed, and the entries that were committed stay as they were. If the message starts at
-- or past the commit index and the log matches it there, the log afterwards has every entry of the
-- message, as it came or, where the log had one of the same term at its index, as it was, and the
-- commit index is raised to the leader's, cut at the end of the log; else the log is unchanged.
pub handle_append_entries_log :
    (m : Message) (r : Raft)
    → IsWellFormed r.log
    → IsAppend m
    → Returns (λ r'. Extends r.log r'.log × AppendOutcome m r r') (handle_append_entries m r)
unfolding handle_append_entries send
handle_append_entries_log m r w a = elim (Bool-cases (ltb m.log_index r.log.committed)) [
  | inl old ↦ rw old (Extends-refl r.log w, inr (inl (ltb→lt _ _ old), refl))
  | inr current ↦ rw current (elim (Bool-cases (log_consistency_check r m.log_index m.log_term)) [
    | inr differs ↦ rw differs (Extends-refl r.log w, inr (inr refl, refl))
    | inl same ↦
        let c : r.log.committed ≤ m.log_index = ground arith in
        rw same (
          Returns-bind (λ r'. Accepted m r.log r'.log) _ (store_entries m r) _
            (store_entries-Accepted m r w a c (consistent-le-last m r w a same))
            (λ r' p. (p.extends, inl (c, refl, p))))
  ])
]
