-- ===== src/Txn/Oracle.antt =====
-- pkg/txn/tso.go. The oracle is guarded by a mutex, but `GetTimestamp` lets go of it before it
-- allocates a batch, so an allocation is a step of its own here too. A timestamp is a `uint64`; the
-- reading of the wall clock, in milliseconds, is an argument. `Persist` has no effect.
pub mod Unique
use hermes.Base.{ℕ, ◌+◌, ◌-◌, ltb, leb, if◌then◌else◌, u64, u64_mod}
use hermes.Clock.Hybrid.{Hlc, now}

pub record Oracle : Type 0 where
  pub hlc : Hlc
  pub last_saved : ℕ
  pub batch_base : ℕ
  pub batch_remaining : ℕ

pub new_oracle : Hlc → Oracle
new_oracle hlc = record { hlc = hlc; last_saved = 0; batch_base = 0; batch_remaining = 0 }

-- The batch that starts at a timestamp of the clock, or past the last one given out.
pub batch_at : ℕ → Hlc → Oracle → ℕ × Oracle
batch_at ts hlc t =
    let base = if leb ts t.last_saved then u64 (t.last_saved + 1) else ts in
    (
      u64 (base + 99),
      record { hlc = hlc; last_saved = u64 (base + 99); batch_base = base; batch_remaining = 99 },
    )

pub allocate_batch : ℕ → Oracle → ℕ × Oracle
unfolding batch_at
allocate_batch pt t = let (hlc, ts) = now pt t.hlc in batch_at ts hlc t

unfoldable pub get_timestamp : ℕ → Oracle → ℕ × Oracle
unfolding allocate_batch
get_timestamp pt t =
    if ltb 0 t.batch_remaining
    then (
      u64 (t.batch_base + (t.batch_remaining - 1)),
      record t { batch_remaining = t.batch_remaining - 1 },
    )
    else allocate_batch pt t

pub get_start_timestamp : ℕ → Oracle → ℕ × Oracle
get_start_timestamp pt t = let (hlc, ts) = now pt t.hlc in (ts, record t { hlc = hlc })

pub get_commit_timestamp : ℕ → ℕ → Oracle → ℕ × Oracle
unfolding get_timestamp
get_commit_timestamp pt min_ts t =
    let (ts, t') = get_timestamp pt t in (if leb ts min_ts then u64 (min_ts + 1) else ts, t')

unfoldable pub recover : ℕ → Oracle → Oracle
recover persisted t = if ltb t.last_saved persisted then record t { last_saved = persisted } else t
