-- ===== src/Consistency/Counters.antt =====
-- pkg/consistency/crdt.go: the grow-only counter and the counter with decrements. The mutex makes
-- each call one step; `range` visits a map in the order of its list, which Go leaves open.
pub mod Merge
pub mod Totals
use hermes.Base.{
  ℕ, ◌+◌, ◌-◌, Bool, true, Option, none, some, [], ◌∷◌, if◌then◌else◌, u64, u64_mod, ltb, GoString,
  string_eq,
}
use hermes.Base.Dict.{Dict, get, put}

pub record GCounter : Type 0 where
  pub node_id : GoString
  pub counts : Dict GoString ℕ

pub new_g_counter : GoString → GCounter
new_g_counter id = record { node_id = id; counts = put id 0 [] }

-- `m[k]`, which is 0 for a missing key
abbrev pub value_or_zero : Option ℕ → ℕ
value_or_zero none = 0
value_or_zero (some n) = n

abbrev pub count : GoString → Dict GoString ℕ → ℕ
count k m = value_or_zero (get k m)

pub increment : ℕ → GCounter → GCounter
increment n c = record c { counts = put c.node_id (u64 (count c.node_id c.counts + n)) c.counts }

pub total : ℕ → Dict GoString ℕ → ℕ
total acc [] = acc
total acc ((k, n) ∷ m) = total (u64 (acc + n)) m

pub value : GCounter → ℕ
unfolding total
value c = total 0 c.counts

abbrev pub exceeds : ℕ → Option ℕ → Bool
exceeds n none = true
exceeds n (some existing) = ltb existing n

pub merge_counts : Dict GoString ℕ → Dict GoString ℕ → Dict GoString ℕ
merge_counts [] mine = mine
merge_counts ((k, n) ∷ other) mine =
    merge_counts other (if exceeds n (get k mine) then put k n mine else mine)

pub merge : GCounter → GCounter → GCounter
unfolding merge_counts
merge c other = record c { counts = merge_counts other.counts c.counts }

pub record PnCounter : Type 0 where
  pub node_id : GoString
  pub positive : GCounter
  pub negative : GCounter

pub new_pn_counter : GoString → PnCounter
new_pn_counter id = record {
  node_id = id;
  positive = new_g_counter id;
  negative = new_g_counter id;
}

pub pn_increment : ℕ → PnCounter → PnCounter
pn_increment n c = record c { positive = increment n c.positive }

pub pn_decrement : ℕ → PnCounter → PnCounter
pn_decrement n c = record c { negative = increment n c.negative }

-- The difference of two `int64`s, as a bit pattern.
pub pn_value : PnCounter → ℕ
pn_value c = u64 (value c.positive + (u64_mod - value c.negative))

pub pn_merge : PnCounter → PnCounter → PnCounter
pn_merge c other = record c {
  positive = merge c.positive other.positive;
  negative = merge c.negative other.negative;
}
