-- ===== src/Raft/LogExamples.antt =====
-- The theorems of Raft/Log at concrete logs.
use hermes.Base.{ℕ, ◌≡◌, refl, some, List, [], ◌∷◌, arith}
use hermes.Raft.Types.{LogEntry, normal}
use hermes.Raft.Log.{RaftLog, sentinel, last_index, append_entries, compact}
use hermes.Raft.Log.Numbered.{IsWellFormed}
use hermes.Raft.Log.Append.{Appended, append_entries-Appended}
use hermes.Raft.Log.Splice.{Holds}
use hermes.Raft.Log.Compact.{Compacted, compact-Compacted}

abbrev pub entry : ℕ → ℕ → LogEntry
entry index term = record { index = index; term = term; type = normal; payload = [] }

-- Indices 1 to 3 in terms 1, 1 and 2, committed to 1.
abbrev pub three : RaftLog
three = record {
  entries = sentinel 0 0 ∷ entry 1 1 ∷ entry 2 1 ∷ entry 3 2 ∷ [];
  snapshot_index = 0;
  snapshot_term = 0;
  committed = 1;
  applied = 1;
}

pub three-IsWellFormed : IsWellFormed three
three-IsWellFormed = record {
  nonempty = omega arith;
  in_range = omega arith;
  numbered = (refl, (refl, (refl, (refl, tt))));
  base_term = refl;
  snapshot_committed = omega arith;
  committed_stored = omega arith;
  applied_committed = omega arith;
}

-- A batch that conflicts with index 3 and goes on behind it.
abbrev batch : List LogEntry
batch = entry 2 1 ∷ entry 3 3 ∷ entry 4 3 ∷ []

append_entries-Appended_example :
    (l' : RaftLog) × (append_entries three batch ≡ some l')
    × Appended three 1 batch l'
    × Holds three l' batch
unfolding last_index
append_entries-Appended_example =
    append_entries-Appended three 1 batch three-IsWellFormed (omega arith) (omega arith)
      (refl, (refl, (refl, tt))) (omega arith)

compact-Compacted_example : Compacted three 2 1 (compact three 2 1)
compact-Compacted_example =
    compact-Compacted three 2 1 three-IsWellFormed (omega arith) (omega arith)
