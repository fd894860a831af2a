-- ===== src/Storage/Engine/Levels.antt =====
-- The search for a table of a level.
use hermes.Base.{
  ℕ, zero, suc, ◌+◌, ◌/◌, ◌≤◌, ◌<◌, ◌≡◌, refl, ap, ◌∙◌, if◌then◌else◌, false, List, GoString, ltb,
  arith, Bool-cases, inl, inr,
}
use hermes.Storage.Engine.{Table, search_between, reaches}

-- With fuel for the length of the range the search has ended: any more changes nothing.
search_ends :
    (key : GoString) (ts : List Table) (fuel extra lo hi : ℕ)
    → hi ≤ lo + fuel
    → search_between key ts (fuel + extra) lo hi ≡ search_between key ts fuel lo hi
unfolding search_between
search_ends key ts zero zero lo hi enough = refl
search_ends key ts zero (suc extra) lo hi enough =
    let ended : ltb lo hi ≡ false = ground (arith, enough) in
    let shift : zero + suc extra ≡ suc extra = omega arith in
    ap (λ f. search_between key ts f lo hi) shift ∙ rw ended refl
search_ends key ts (suc fuel) extra lo hi enough =
    let shift : suc fuel + extra ≡ suc (fuel + extra) = omega arith in
    ap (λ f. search_between key ts f lo hi) shift ∙ elim (Bool-cases (ltb lo hi)) [
      | inr ended ↦ rw ended refl
      | inl on ↦
          let middle = (lo + hi) / 2 in
          let within : lo < hi = ground (arith, on) in
          let above =
            search_ends key ts fuel extra (middle + 1) hi (omega (arith, within, enough)) in
          let below = search_ends key ts fuel extra lo middle (omega (arith, within, enough)) in
          rw on (
            ap
              (λ n.
                if reaches key ts middle then search_between key ts (fuel + extra) lo middle else n)
              above
            ∙ ap
                (λ n.
                  if reaches key ts middle then n else search_between key ts fuel (middle + 1) hi)
                below)
    ]

-- The search stays in its range.
search_within :
    (key : GoString) (ts : List Table) (fuel lo hi : ℕ)
    → lo ≤ hi
    → (lo ≤ search_between key ts fuel lo hi) × (search_between key ts fuel lo hi ≤ hi)
unfolding search_between
search_within key ts zero lo hi range = (omega arith, range)
search_within key ts (suc fuel) lo hi range = elim (Bool-cases (ltb lo hi)) [
  | inr ended ↦ rw ended (omega arith, range)
  | inl on ↦
      let middle = (lo + hi) / 2 in
      let within : lo < hi = ground (arith, on) in
      let above = search_within key ts fuel (middle + 1) hi (omega (arith, within)) in
      let below = search_within key ts fuel lo middle (omega (arith, within)) in
      elim (Bool-cases (reaches key ts middle)) [
        | inl found ↦ rw (on, found) (below.0, omega (arith, below.1, within))
        | inr further ↦ rw (on, further) (omega (arith, above.0, within), above.1)
      ]
]
