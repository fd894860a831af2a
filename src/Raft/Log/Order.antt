-- ===== src/Raft/Log/Order.antt =====
-- `IsUpToDate`: the order in which a voter compares the last entry of a candidate with its own.
use hermes.Base.{ℕ, ◌≤◌, ◌<◌, ◌≡◌, ◌↔◌, ◌⊎◌, true, arith}
use hermes.Raft.Log.{RaftLog, last_index, last_term, is_up_to_date}

-- A last index and term at or past the log's own: by term, then by index.
abbrev pub AtLeast : RaftLog → ℕ → ℕ → Type 0
AtLeast l index term = (last_term l < term) ⊎ ((term ≡ last_term l) × (last_index l ≤ index))

-- A voter finds a candidate's log up to date exactly if the candidate's last term is later than its
-- own, or is the same and the candidate's last index is not below its own.
pub is_up_to_date_lem :
    (l : RaftLog) (index term : ℕ) → (is_up_to_date l index term ≡ true) ↔ AtLeast l index term
unfolding is_up_to_date last_term
is_up_to_date_lem l index term = (λ h. grind arith, λ h. ground arith)

abbrev pub Covers : RaftLog → RaftLog → Type 0
Covers a b = is_up_to_date b (last_index a) (last_term a) ≡ true

-- Of any two logs one passes the vote check of the other.
pub up_to_date_total : (a b : RaftLog) → Covers a b ⊎ Covers b a
unfolding is_up_to_date last_term
up_to_date_total a b = grind arith

-- The vote check is transitive, so the logs of a group are linearly preordered by it.
pub up_to_date_trans : (a b c : RaftLog) → Covers a b → Covers b c → Covers a c
unfolding is_up_to_date last_term
up_to_date_trans a b c h k = ground arith
