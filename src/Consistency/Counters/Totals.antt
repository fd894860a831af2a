-- ===== src/Consistency/Counters/Totals.antt =====
-- What an increment or a decrement does to a counter's value.
use hermes.Base.{
  ℕ, ◌+◌, ◌<◌, ◌≡◌, [], ◌∷◌, u64, u64_mod, GoString, string_eq, str_eq, arith, Bool-cases, inl, inr,
}
use hermes.Base.Dict.{Dict, get, put}
use hermes.Consistency.Counters.{
  GCounter, PnCounter, count, increment, total, value, pn_increment, pn_decrement, pn_value,
}

-- The exact sum of a map's counts.
sum : Dict GoString ℕ → ℕ
sum [] = 0
sum ((k, n) ∷ m) = n + sum m

total-sum : (acc : ℕ) (m : Dict GoString ℕ) → acc < u64_mod → total acc m ≡ u64 (acc + sum m)
unfolding total sum
total-sum acc [] small = omega (arith, small)
total-sum acc ((k, n) ∷ m) small = omega (arith, total-sum (u64 (acc + n)) m (omega arith))

sum-put : (k : GoString) (v : ℕ) (m : Dict GoString ℕ) → sum (put k v m) + count k m ≡ sum m + v
unfolding sum put get
sum-put k v [] = omega arith
sum-put k v ((j, w) ∷ m) = elim (Bool-cases (str_eq j k)) [
  | inl here ↦ rw here (omega arith)
  | inr there ↦ rw there (omega (arith, sum-put k v m))
]

value_lt : (c : GCounter) → value c < u64_mod
unfolding value
value_lt c = omega (arith, total-sum 0 c.counts (omega arith))

-- An increment by `n` adds `n` to the counter's value, which wraps at 64 bits.
pub value-increment : (n : ℕ) (c : GCounter) → value (increment n c) ≡ u64 (value c + n)
unfolding value increment
value-increment n c =
    let v = u64 (count c.node_id c.counts + n) in
    omega (
      arith,
      total-sum 0 c.counts (omega arith),
      total-sum 0 (put c.node_id v c.counts) (omega arith),
      sum-put c.node_id v c.counts,
    )

-- An increment and a decrement by a 64-bit `n` add `n` to and take it from the value of a counter
-- with decrements, as a 64-bit pattern.
pub pn_value_lem :
    (n : ℕ) (c : PnCounter)
    → n < u64_mod
    → (pn_value (pn_increment n c) ≡ u64 (pn_value c + n))
      × (u64 (pn_value (pn_decrement n c) + n) ≡ pn_value c)
unfolding pn_value pn_increment pn_decrement
pn_value_lem n c small = (
  omega (arith, value-increment n c.positive, value_lt c.negative),
  omega (
    arith,
    value-increment n c.negative,
    value_lt c.negative,
    value_lt (increment n c.negative),
    small,
  ),
)
