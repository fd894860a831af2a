-- ===== src/Raft/Node/Leader.antt =====
-- What a leader commits, and what it sends to the followers that lag behind.
use hermes.Base.{
  ℕ, suc, ◌+◌, ◌*◌, ◌≤◌, ◌<◌, ◌≡◌, ◌≢◌, refl, Bool, true, false, Option, none, some, List, [], ◌∷◌,
  ◌++◌, arith, Bool-cases, inl, inr, ltb, ◌∙◌, length, ltb→lt, ap, subst, map, GoString, string_eq,
  str_eq, u64,
}
use hermes.Base.Dict.{get, put, get-put, beq_refl}
use hermes.Base.Partial.{Returns, Returns-imp}
use hermes.Raft.Types.{Message, MsgType, LogEntry, Progress, probe}
use hermes.Raft.Log.{RaftLog, last_index, last_term, term_of, slice, commit_at, committable}
use hermes.Raft.Log.Numbered.{IsWellFormed, last_index_lem}
use hermes.Raft.Log.Append.{Appended, append_one-Appended}
use hermes.Raft.Log.Commit.{acks, Found, maybe_commit_lem, committable-acks, acks-committable}
use hermes.Raft.Progress.{maybe_decr_to}
use hermes.Raft.Node.{Raft, send, blank, send_append_entries, leader_commit}
use hermes.Raft.Node.Handlers.{
  handle_append_entries, handle_append_response, log_consistency_check, find_conflict,
  number_entries, append_each,
}

-- The match indices that a leader counts: one for each node that it tracks, itself among them.
abbrev pub matches : Raft → List ℕ
matches r = map (λ (kv : GoString × Progress). (kv.1).match_index) r.progress

leader_commit_log :
    (r : Raft)
    → (o : Option ℕ) × ((leader_commit r).log ≡ (commit_at r.log o).0)
      × Found r.log (matches r) r.term (last_index r.log) o
unfolding leader_commit
leader_commit_log r =
    let (o, e, f) = maybe_commit_lem r.log (matches r) (last_term r.log) r.term in
    (o, ap (λ (p : RaftLog × Bool). p.0) e, f)

Found-majority :
    (l : RaftLog) (ms : List ℕ) (term k : ℕ) (o : Option ℕ)
    → length ms ≡ 2 * k + 1
    → Found l ms term (last_index l) o
    → (commit_at l o).0.committed ≢ l.committed
    → (l.committed < (commit_at l o).0.committed)
      × (length ms < 2 * acks (commit_at l o).0.committed ms)
      × (term_of l (commit_at l o).0.committed ≡ term)
Found-majority l ms term k none odd f moved = absurd (moved refl)
Found-majority l ms term k (some n) odd f moved =
    let (many, own) = committable-acks l ms term n f.2 in (f.0, omega (arith, many), own)

Found-last :
    (l : RaftLog) (ms : List ℕ) (term : ℕ) (o : Option ℕ)
    → Found l ms term (last_index l) o
    → l.committed < last_index l
    → committable l ms term (last_index l) ≡ true
    → (commit_at l o).0.committed ≡ last_index l
Found-last l ms term none f new c = cc (f (last_index l) new (omega arith))
Found-last l ms term (some n) f new c = elim (Bool-cases (ltb n (last_index l))) [
  | inl lower ↦ cc (f.3 (last_index l) (ltb→lt _ _ lower) (omega arith))
  | inr last ↦ ground (arith, f.1)
]

-- In a cluster of odd size a leader that moves its commit index moves it up, to an index that more
-- than half of the nodes have reached and whose entry is of the leader's term.
pub commit_by_majority :
    (r : Raft) (k : ℕ)
    → length (matches r) ≡ 2 * k + 1
    → (leader_commit r).log.committed ≢ r.log.committed
    → (r.log.committed < (leader_commit r).log.committed)
      × (length (matches r) < 2 * acks (leader_commit r).log.committed (matches r))
      × (term_of r.log (leader_commit r).log.committed ≡ r.term)
commit_by_majority r k odd moved =
    let (o, e, f) = leader_commit_log r in
    rw e (
      Found-majority r.log (matches r) r.term k o odd f
        (λ z. moved (ap (λ (l : RaftLog). l.committed) e ∙ z)))

-- In a cluster of even size half of the nodes are enough: the last entry, if it is past the commit
-- index, is of the leader's term and exactly half of the nodes have reached it, is committed.
pub commit_by_half :
    (r : Raft) (k : ℕ)
    → length (matches r) ≡ 2 * k
    → acks (last_index r.log) (matches r) ≡ k
    → r.log.committed < last_index r.log
    → term_of r.log (last_index r.log) ≡ r.term
    → (leader_commit r).log.committed ≡ last_index r.log
commit_by_half r k even half new own =
    let (o, e, f) = leader_commit_log r in
    rw e (
      Found-last r.log (matches r) r.term o f new
        (acks-committable r.log (matches r) r.term (last_index r.log) (omega arith) own))

-- The message by which a follower rejects entries.
abbrev pub rejection : Message → Raft → Message
rejection m f = record (blank MsgType.append_rsp m.from f.term) {
  from = f.id;
  conflict_index = (find_conflict f m.log_index).0;
  conflict_term = (find_conflict f m.log_index).1;
  reject = true;
}

-- A follower in a term other than 0 whose log does not match a message at or past its commit index
-- rejects it, and a leader that probes the follower at a next index other than 0 and 1, below
-- 2^64, does not react to the rejection: the follower's progress keeps its next index, and nothing
-- is sent.
pub rejection_ignored :
    (m : Message) (f r : Raft) (prog : Progress)
    → f.log.committed ≤ m.log_index
    → log_consistency_check f m.log_index m.log_term ≡ false
    → 0 < f.term
    → get f.id r.progress ≡ some prog
    → prog.state ≡ probe
    → 1 < prog.next_index
    → prog.next_index < 18446744073709551616
    → (f' : Raft) × (r' : Raft) × (handle_append_entries m f ≡ some f')
      × (f'.msgs ≡ f.msgs ++ rejection m f ∷ [])
      × (handle_append_response (rejection m f) r ≡ some r')
      × (get f.id r'.progress ≡ some (record prog { recent_active = true }))
      × (r'.msgs ≡ r.msgs)
unfolding handle_append_entries handle_append_response maybe_decr_to send str_eq
rejection_ignored m f r prog c differs t known probing far range =
    let own : str_eq f.id f.id ≡ true = beq_refl f.id in
    (
      record f { msgs = f.msgs ++ rejection m f ∷ [] },
      record r { progress = put f.id (record prog { recent_active = true }) r.progress },
      ground arith,
      refl,
      ground arith,
      get-put f.id f.id (record prog { recent_active = true }) r.progress ∙ rw own,
      refl,
    )

-- Sending a batch of at least one entry to a probed follower panics if the follower's next index
-- is so far behind the snapshot of the well-formed log that a full batch ends at or before the
-- snapshot, and the log has entries past it.
pub lagging_follower_panics :
    (to : GoString) (r : Raft) (prog : Progress)
    → IsWellFormed r.log
    → get to r.progress ≡ some prog
    → prog.state ≡ probe
    → 0 < r.config.max_entries_to_send
    → prog.next_index + r.config.max_entries_to_send ≤ r.log.snapshot_index
    → r.log.snapshot_index < last_index r.log
    → send_append_entries to r ≡ none
unfolding send_append_entries slice
lagging_follower_panics to r prog w known state some_entries behind stored =
    let last : last_index r.log + 1 ≡ r.log.snapshot_index + length r.log.entries =
      last_index_lem r.log w in
    let a : u64 (r.log.snapshot_index + 1) ≡ r.log.snapshot_index + 1 = omega (arith, last) in
    let b : u64 (prog.next_index + r.config.max_entries_to_send)
        ≡ prog.next_index + r.config.max_entries_to_send =
      omega (arith, last) in
    let c : u64 (last_index r.log + 1) ≡ last_index r.log + 1 = omega (arith, last) in
    ground (arith, a, b, c)

Appended-cons :
    (l l1 l2 : RaftLog) (prev next : ℕ) (e : LogEntry) (es : List LogEntry)
    → e.index ≡ next
    → next ≡ suc prev
    → Appended l prev (e ∷ []) l1
    → Appended l1 next es l2
    → Appended l prev (e ∷ es) l2
Appended-cons l l1 l2 prev next e es n s a b = record {
  well_formed = b.well_formed;
  stores = (b.keeps e.index (omega (arith, n)) ∙ a.stores.0, b.stores);
  keeps = λ i h. b.keeps i (omega (arith, s)) ∙ a.keeps i h;
  keeps_entries = λ i h. b.keeps_entries i (omega (arith, s)) ∙ a.keeps_entries i h;
  committed = b.committed ∙ a.committed;
  applied = b.applied ∙ a.applied;
  snapshot_index = b.snapshot_index ∙ a.snapshot_index;
  reaches = omega (arith, b.reaches, s);
}

-- The entries of a proposal, numbered from the end of a well-formed log with room below 2^64, are
-- appended without a panic: the log then has them, in the leader's term, behind all that it had
-- before.
pub proposal-Appended :
    (l : RaftLog) (term : ℕ) (es : List LogEntry)
    → IsWellFormed l
    → last_index l + length es + 2 < 18446744073709551616
    → Returns
        (Appended l (last_index l) (number_entries (last_index l + 1) term es))
        (append_each l (number_entries (last_index l + 1) term es))
unfolding append_each number_entries
proposal-Appended l term [] w fits = record {
  well_formed = w;
  stores = tt;
  keeps = λ i h. refl;
  keeps_entries = λ i h. refl;
  committed = refl;
  applied = refl;
  snapshot_index = refl;
  reaches = omega arith;
}
proposal-Appended l term (e ∷ es) w fits =
    let head : LogEntry = record e { index = u64 (last_index l + 1); term = term } in
    let at : head.index ≡ last_index l + 1 = omega (arith, last_index_lem l w) in
    let (l1, run, a, grown) = append_one-Appended l head w at (omega arith) in
    let next : Returns (Appended l1 (last_index l1) (number_entries (last_index l1 + 1) term es))
        (append_each l1 (number_entries (last_index l1 + 1) term es)) =
      proposal-Appended l1 term es a.well_formed (omega (arith, grown)) in
    let next' : Returns
        (Appended l1 (last_index l + 1) (number_entries (last_index l + 1 + 1) term es))
        (append_each l1 (number_entries (last_index l + 1 + 1) term es)) =
      subst
        (λ n.
          Returns (Appended l1 n (number_entries (n + 1) term es))
            (append_each l1 (number_entries (n + 1) term es)))
        grown next in
    let ns : List LogEntry = number_entries (last_index l + 1 + 1) term es in
    rw run (
      Returns-imp (Appended l1 (last_index l + 1) ns) (Appended l (last_index l) (head ∷ ns))
        (append_each l1 ns)
        (λ l2 b.
          Appended-cons l l1 l2 (last_index l) (last_index l + 1) head ns at (omega arith) a b)
        next')
