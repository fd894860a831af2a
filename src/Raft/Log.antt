-- ===== src/Raft/Log.antt =====
-- pkg/raft/log.go: the replicated log behind its snapshot. `none` stands for a panic. The mutex of
-- the source makes each method one step, so a method is a function of the state.
pub mod Numbered
pub mod Append
pub mod Splice
pub mod Compact
pub mod Order
pub mod Commit
pub mod Entries
use hermes.Base.{
  ℕ, zero, suc, ◌+◌, ◌-◌, ◌/◌, Bool, true, false, Option, none, some, List, [], ◌∷◌, ◌++◌, ltb, leb,
  ◌==◌, not, ◌&&◌, if◌then◌else◌, length, get_elem?, take, drop, u64, u64_mod,
}
use hermes.Raft.Types.{LogEntry, normal}

pub record RaftLog : Type 0 where
  pub entries : List LogEntry
  pub snapshot_index : ℕ
  pub snapshot_term : ℕ
  pub committed : ℕ
  pub applied : ℕ

abbrev pub sentinel : ℕ → ℕ → LogEntry
sentinel i t = record { index = i; term = t; type = normal; payload = [] }

pub new_raft_log : RaftLog
new_raft_log = record {
  entries = sentinel 0 0 ∷ [];
  snapshot_index = 0;
  snapshot_term = 0;
  committed = 0;
  applied = 0;
}

-- `l.snapshotIndex + uint64(len(l.entries)) - 1`, on words
unfoldable pub last_index : RaftLog → ℕ
last_index l = u64 (l.snapshot_index + length l.entries + (u64_mod - 1))

abbrev pub entry_term : Option LogEntry → ℕ
entry_term none = 0
entry_term (some e) = e.term

-- An offset past the end reads as term 0.
unfoldable pub term_of : RaftLog → ℕ → ℕ
term_of l i =
    if ltb i l.snapshot_index
    then 0
    else if i == l.snapshot_index
    then l.snapshot_term
    else entry_term (get_elem? l.entries (i - l.snapshot_index))

pub last_term : RaftLog → ℕ
last_term l = term_of l (last_index l)

-- The loop of `Append`. Below the snapshot the offset of the truncation wraps, and slicing panics.
pub append_entries : RaftLog → List LogEntry → Option RaftLog
append_entries l [] = some l
append_entries l (e ∷ es) =
    if leb e.index (last_index l)
    then if term_of l e.index == e.term
      then append_entries l es
      else if ltb e.index l.snapshot_index
      then none
      else some (record l { entries = take (e.index - l.snapshot_index) l.entries ++ e ∷ es })
    else some (record l { entries = l.entries ++ e ∷ es })

unfoldable pub append_one : RaftLog → LogEntry → Option RaftLog
append_one l e =
    if e.index == u64 (last_index l + 1)
    then some (record l { entries = l.entries ++ e ∷ [] })
    else none

abbrev pub raised : ℕ → ℕ → ℕ
raised low i = if ltb i low then low else i

abbrev pub lowered : ℕ → ℕ → ℕ
lowered high i = if ltb high i then high else i

-- An upper bound below the lower one makes a negative capacity, and panics.
unfoldable pub slice : RaftLog → ℕ → ℕ → Option (List LogEntry)
slice l lo hi =
    let lo' = raised (u64 (l.snapshot_index + 1)) lo in
    let hi' = lowered (u64 (last_index l + 1)) hi in
    if leb hi lo
    then some []
    else if leb (length l.entries) (lo' - l.snapshot_index)
    then some []
    else if ltb hi' lo'
    then none
    else some (take (hi' - lo') (drop (lo' - l.snapshot_index) l.entries))

-- `CommitTo` moves the commit index first, so the state is kept beside the slice.
pub commit_to : RaftLog → ℕ → RaftLog × Option (List LogEntry)
commit_to l new =
    let to = lowered (last_index l) new in
    if leb new l.committed then (l, some []) else (
      record l { committed = to },
      slice (record l { committed = to }) (u64 (l.committed + 1)) (u64 (to + 1)),
    )

pub applied_to : RaftLog → ℕ → Option RaftLog
applied_to l applied =
    if ltb l.committed applied then none else some (record l { applied = applied })

-- Whether a candidate whose log ends in `(index, term)` is at least as up to date as this log.
unfoldable pub is_up_to_date : RaftLog → ℕ → ℕ → Bool
is_up_to_date l index term =
    let mine = term_of l (last_index l) in
    if not (term == mine) then ltb mine term else leb (last_index l) index

-- `count := 1`, and one more for each match index at `n` or above
unfoldable pub count_from : ℕ → ℕ → List ℕ → ℕ
count_from acc n [] = acc
count_from acc n (m ∷ ms) = count_from (if leb n m then acc + 1 else acc) n ms

unfoldable pub majority : List ℕ → ℕ
majority ms = (length ms + 1) / 2 + 1

unfoldable pub committable : RaftLog → List ℕ → ℕ → ℕ → Bool
unfolding count_from majority
committable l ms current n = leb (majority ms) (count_from 1 n ms) && term_of l n == current

-- The loop of `MaybeCommit` from `n` down: the index at which it stops, if it finds one.
unfoldable pub find_commit : RaftLog → List ℕ → ℕ → ℕ → Option ℕ
find_commit l ms current zero = none
find_commit l ms current (suc n) = elim (ltb l.committed (suc n)) [
  | false ↦ none
  | true ↦ elim (committable l ms current (suc n)) [
    | true ↦ some (suc n)
    | false ↦ find_commit l ms current n
  ]
]

abbrev pub commit_at : RaftLog → Option ℕ → RaftLog × Bool
commit_at l none = (l, false)
commit_at l (some n) = (record l { committed = n }, true)

-- The source's second argument is not used.
unfoldable pub maybe_commit : RaftLog → List ℕ → ℕ → ℕ → RaftLog × Bool
unfolding find_commit
maybe_commit l ms term current = commit_at l (find_commit l ms current (last_index l))

pub compact : RaftLog → ℕ → ℕ → RaftLog
compact l index term =
    let offset = index - l.snapshot_index in
    if leb index l.snapshot_index then l else record {
      entries =
          if ltb offset (length l.entries)
          then sentinel index term ∷ drop (offset + 1) l.entries
          else sentinel index term ∷ [];
      snapshot_index = index;
      snapshot_term = term;
      committed = raised index l.committed;
      applied = raised index l.applied;
    }

pub record LogStats : Type 0 where
  pub first_index : ℕ
  pub last_index : ℕ
  pub commit_index : ℕ
  pub applied_index : ℕ
  pub snapshot_index : ℕ
  pub entry_count : ℕ

stats : RaftLog → LogStats
stats l = record {
  first_index = u64 (l.snapshot_index + 1);
  last_index = last_index l;
  commit_index = l.committed;
  applied_index = l.applied;
  snapshot_index = l.snapshot_index;
  entry_count = u64 (length l.entries + (u64_mod - 1));
}
