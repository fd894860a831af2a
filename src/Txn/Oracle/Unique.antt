-- ===== src/Txn/Oracle/Unique.antt =====
-- The timestamps given out across requests, allocations and recoveries.
use hermes.Base.{
  ℕ, ◌+◌, ◌≤◌, ◌<◌, ◌≡◌, ◌≢◌, ◌⊎◌, List, [], ◌∷◌, inl, inr, ltb, u64_mod, arith, Bool-cases,
}
use hermes.Clock.Hybrid.{now}
use hermes.Txn.Oracle.{
  Oracle, batch_at, allocate_batch, get_timestamp, get_commit_timestamp, recover,
}

-- What reaches the oracle: a request, the second half of a request that found the batch empty, or a
-- recovery.
pub data Call : Type 0 where
  to_get to_allocate : (pt : ℕ) → Call
  to_recover : (persisted : ℕ) → Call

-- The timestamps that the calls are given, in order.
pub issued : List Call → Oracle → List ℕ
issued [] t = []
issued (to_get pt ∷ cs) t = let (ts, t') = get_timestamp pt t in ts ∷ issued cs t'
issued (to_allocate pt ∷ cs) t = let (ts, t') = allocate_batch pt t in ts ∷ issued cs t'
issued (to_recover persisted ∷ cs) t = issued cs (recover persisted t)

-- The words of a batch do not wrap.
abbrev pub Room : ℕ → Oracle → Type 0
Room pt t = ((now pt t.hlc).1 + 100 < u64_mod) × (t.last_saved + 101 < u64_mod)

abbrev pub AllRoom : List Call → Oracle → Type 0
AllRoom [] t = Unit
AllRoom (to_get pt ∷ cs) t = Room pt t × AllRoom cs (get_timestamp pt t).1
AllRoom (to_allocate pt ∷ cs) t = Room pt t × AllRoom cs (allocate_batch pt t).1
AllRoom (to_recover persisted ∷ cs) t = (persisted < u64_mod) × AllRoom cs (recover persisted t)

-- What is left of the batch is below the last timestamp that is spoken for.
pub record IsSound (t : Oracle) : Type 0 where
  pub reserved : t.batch_base + t.batch_remaining ≤ t.last_saved + 1
  pub in_range : t.last_saved < u64_mod

-- The timestamp is spoken for, and is not in what is left of the batch.
record IsSpent (x : ℕ) (t : Oracle) : Type 0 where
  saved : x ≤ t.last_saved
  outside : (x < t.batch_base) ⊎ (t.batch_base + t.batch_remaining ≤ x)

-- What giving out a timestamp does.
record Gives (t : Oracle) (ts : ℕ) (t' : Oracle) : Type 0 where
  sound : IsSound t'
  spent : IsSpent ts t'
  keeps : (x : ℕ) → IsSpent x t → IsSpent x t'
  fresh : (x : ℕ) → IsSpent x t → x ≢ ts

batch_at-Gives :
    (ts : ℕ) (hlc : _) (t : Oracle)
    → ts + 100 < u64_mod
    → t.last_saved + 101 < u64_mod
    → IsSound t
    → Gives t (batch_at ts hlc t).0 (batch_at ts hlc t).1
unfolding batch_at
batch_at-Gives ts hlc t small room s = record {
  sound = ground arith;
  spent = ground arith;
  keeps = λ x p. ground (arith, p.saved);
  fresh = λ x p e. ground (arith, p.saved);
}

allocate_batch-Gives :
    (pt : ℕ) (t : Oracle)
    → Room pt t
    → IsSound t
    → Gives t (allocate_batch pt t).0 (allocate_batch pt t).1
unfolding allocate_batch
allocate_batch-Gives pt t room s =
    batch_at-Gives (now pt t.hlc).1 (now pt t.hlc).0 t room.0 room.1 s

get_timestamp-Gives :
    (pt : ℕ) (t : Oracle)
    → Room pt t
    → IsSound t
    → Gives t (get_timestamp pt t).0 (get_timestamp pt t).1
unfolding get_timestamp
get_timestamp-Gives pt t room s = elim (Bool-cases (ltb 0 t.batch_remaining)) [
  | inl some' ↦ rw some' (record {
    sound = ground (arith, s.reserved, s.in_range);
    spent = ground (arith, s.reserved, s.in_range);
    keeps = λ x p. ground (arith, p.saved, p.outside);
    fresh = λ x p e. ground (arith, p.saved, p.outside, s.reserved, s.in_range);
  })
  | inr none' ↦ rw none' (allocate_batch-Gives pt t room s)
]

recover-keeps :
    (persisted : ℕ) (t : Oracle)
    → persisted < u64_mod
    → IsSound t
    → IsSound (recover persisted t) × ((x : ℕ) → IsSpent x t → IsSpent x (recover persisted t))
unfolding recover
recover-keeps persisted t small s = (
  record { reserved = ground (arith, s.reserved); in_range = ground (arith, s.in_range) },
  λ x p. record { saved = ground (arith, p.saved); outside = ground (arith, p.outside) },
)

abbrev pub NotIn : ℕ → List ℕ → Type 0
NotIn x [] = Unit
NotIn x (y ∷ ys) = (x ≢ y) × NotIn x ys

abbrev pub Distinct : List ℕ → Type 0
Distinct [] = Unit
Distinct (x ∷ xs) = NotIn x xs × Distinct xs

spent-NotIn :
    (x : ℕ) (cs : List Call) (t : Oracle)
    → AllRoom cs t
    → IsSound t
    → IsSpent x t
    → NotIn x (issued cs t)
unfolding issued
spent-NotIn x [] t room s p = tt
spent-NotIn x (to_get pt ∷ cs) t (room, rooms) s p =
    let g = get_timestamp-Gives pt t room s in
    (g.fresh x p, spent-NotIn x cs (get_timestamp pt t).1 rooms g.sound (g.keeps x p))
spent-NotIn x (to_allocate pt ∷ cs) t (room, rooms) s p =
    let g = allocate_batch-Gives pt t room s in
    (g.fresh x p, spent-NotIn x cs (allocate_batch pt t).1 rooms g.sound (g.keeps x p))
spent-NotIn x (to_recover persisted ∷ cs) t (small, rooms) s p =
    let k = recover-keeps persisted t small s in
    spent-NotIn x cs (recover persisted t) rooms k.0 (k.1 x p)

-- No timestamp is given out twice by `GetTimestamp` and by the allocation of a batch of a sound
-- oracle, whatever such calls and recoveries follow one another, provided that the words of the
-- batches do not wrap. What `GetStartTimestamp` and `GetCommitTimestamp` give is not among these.
pub issued-Distinct :
    (cs : List Call) (t : Oracle) → AllRoom cs t → IsSound t → Distinct (issued cs t)
unfolding issued
issued-Distinct [] t room s = tt
issued-Distinct (to_get pt ∷ cs) t (room, rooms) s =
    let g = get_timestamp-Gives pt t room s in
    (
      spent-NotIn (get_timestamp pt t).0 cs (get_timestamp pt t).1 rooms g.sound g.spent,
      issued-Distinct cs (get_timestamp pt t).1 rooms g.sound,
    )
issued-Distinct (to_allocate pt ∷ cs) t (room, rooms) s =
    let g = allocate_batch-Gives pt t room s in
    (
      spent-NotIn (allocate_batch pt t).0 cs (allocate_batch pt t).1 rooms g.sound g.spent,
      issued-Distinct cs (allocate_batch pt t).1 rooms g.sound,
    )
issued-Distinct (to_recover persisted ∷ cs) t (small, rooms) s =
    issued-Distinct cs (recover persisted t) rooms (recover-keeps persisted t small s).0

-- While a batch of a sound oracle has two timestamps left, the next request gets a smaller timestamp
-- than this one, so the timestamps given out are not monotonic.
pub timestamps_go_back :
    (pt qt : ℕ) (t : Oracle)
    → IsSound t
    → 1 < t.batch_remaining
    → (get_timestamp qt (get_timestamp pt t).1).0 + 1 ≡ (get_timestamp pt t).0
unfolding get_timestamp
timestamps_go_back pt qt t s two = ground (arith, s.reserved, s.in_range)

-- A commit timestamp is past the one that it is asked to exceed, if that one is not the last word.
pub commit_timestamp_lt :
    (pt min_ts : ℕ) (t : Oracle)
    → min_ts + 1 < u64_mod
    → min_ts < (get_commit_timestamp pt min_ts t).0
unfolding get_commit_timestamp
commit_timestamp_lt pt min_ts t small = ground arith
