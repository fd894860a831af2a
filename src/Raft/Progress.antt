-- ===== src/Raft/Progress.antt =====
-- The methods of `Progress` in pkg/raft/state.go.
use hermes.Base.{ℕ, ◌+◌, ◌-◌, Bool, true, false, ltb, leb, ◌==◌, not, if◌then◌else◌, u64, u64_mod}
use hermes.Raft.Types.{Progress, ProgressState, probe, replicate, snapshotting}

abbrev pub is_replicate : ProgressState → Bool
is_replicate replicate = true
is_replicate _ = false

abbrev pub is_snapshotting : ProgressState → Bool
is_snapshotting snapshotting = true
is_snapshotting _ = false

pub maybe_update : Progress → ℕ → Progress × Bool
maybe_update p index = if leb index p.match_index then (p, false) else (
  record p {
    match_index = index;
    next_index = if leb p.next_index index then u64 (index + 1) else p.next_index;
  },
  true,
)

unfoldable pub maybe_decr_to : Progress → ℕ → ℕ → Progress × Bool
maybe_decr_to p rejected conflict =
    let next = if ltb conflict 1 then 1 else conflict in
    if is_replicate p.state
    then (record p { state = probe; next_index = u64 (p.match_index + 1) }, true)
    else if not (rejected == u64 (p.next_index + (u64_mod - 1)))
    then (p, false)
    else if ltb next p.next_index
    then (record p { next_index = next }, true)
    else (p, false)

pub become_replicate : Progress → Progress
become_replicate p = record p {
  state = replicate;
  next_index = u64 (p.match_index + 1);
  inflight = 0;
}

-- The source assigns the state before it tests it.
pub become_probe : Progress → Progress
become_probe p =
    let q = record p { state = probe } in
    if is_snapshotting q.state then record q { next_index = u64 (q.match_index + 1) } else q
