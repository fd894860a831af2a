-- ===== src/Consistency/ReadIndex.antt =====
-- pkg/consistency/readindex.go. `RequestRead` lets go of the mutex after it took an ID, and waits
-- after it is queued, so it is three steps here: an ID, the queueing, and the end of its context if
-- that comes first. What is sent into a request's channel is kept in `answered`; a channel holds one
-- answer, and each request gets one at most. A heartbeat that is started is counted.
pub mod Conservation
use hermes.Base.{
  ℕ, ◌+◌, Bool, true, false, List, [], ◌∷◌, ◌++◌, leb, ◌==◌, if◌then◌else◌, length, u64, GoString,
}

pub record ReadIndexRequest : Type 0 where
  pub request_id : ℕ
  pub read_index : ℕ

pub record ReadIndexTracker : Type 0 where
  pub node_id : GoString
  pub pending : List ReadIndexRequest
  pub next_request_id : ℕ
  pub applied : ℕ
  pub heartbeats : ℕ
  pub answered : List ReadIndexRequest

pub new_read_index_tracker : GoString → ReadIndexTracker
new_read_index_tracker node_id = record {
  node_id = node_id;
  pending = [];
  next_request_id = 0;
  applied = 0;
  heartbeats = 0;
  answered = [];
}

pub allocate_id : ReadIndexTracker → ℕ × ReadIndexTracker
allocate_id t = let id = u64 (t.next_request_id + 1) in (id, record t { next_request_id = id })

-- The first pending request starts a heartbeat.
pub queue_read : ReadIndexRequest → ReadIndexTracker → ReadIndexTracker
queue_read req t =
    let pending = t.pending ++ req ∷ [] in
    record t {
      pending = pending;
      heartbeats = if length pending == 1 then t.heartbeats + 1 else t.heartbeats;
    }

-- The list without the first request of the ID.
pub without_first : ℕ → List ReadIndexRequest → List ReadIndexRequest
without_first id [] = []
without_first id (req ∷ reqs) =
    let rest = without_first id reqs in if req.request_id == id then reqs else req ∷ rest

-- The context of the request ends before its answer is taken.
pub give_up : ℕ → ReadIndexTracker → ReadIndexTracker
give_up id t = record t { pending = without_first id t.pending }

pub to_notify : ℕ → List ReadIndexRequest → List ReadIndexRequest
to_notify max [] = []
to_notify max (req ∷ reqs) =
    let rest = to_notify max reqs in if leb req.read_index max then req ∷ rest else rest

pub still_pending : ℕ → List ReadIndexRequest → List ReadIndexRequest
still_pending max [] = []
still_pending max (req ∷ reqs) =
    let rest = still_pending max reqs in if leb req.read_index max then rest else req ∷ rest

pub confirm_leadership : ℕ → ReadIndexTracker → ReadIndexTracker
confirm_leadership max t = record t {
  pending = still_pending max t.pending;
  answered = t.answered ++ to_notify max t.pending;
}

pub on_applied : ℕ → ReadIndexTracker → ReadIndexTracker
on_applied index t = record t { applied = index }
