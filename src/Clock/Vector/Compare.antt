-- ===== src/Clock/Vector/Compare.antt =====
-- `Compare` beside the pointwise order of vectors.
use hermes.Base.{
  ℕ, ◌≡◌, ◌⊎◌, inl, inr, Bool, true, false, ◌&&◌, none, [], ◌∷◌, i64_lt, GoString, string_eq, refl,
  arith, Bool-cases, subst, str_eq, str_eq_iff,
}
use hermes.Base.Dict.{Dict, get, put, get-put}
use hermes.Clock.Vector.{
  Vector, at, Relation, before, after, concurrent, equal, compare, compare_at, mark_keys, verdict,
  less_flags,
}

-- One entry of a vector is below the other's, as `int64`s.
abbrev pub Below : Vector → Vector → GoString → Type 0
Below a b k = i64_lt (at k a) (at k b) ≡ true

abbrev pub NotBelow : Vector → Vector → GoString → Type 0
NotBelow a b k = i64_lt (at k a) (at k b) ≡ false

-- What each answer says of the two vectors.
abbrev pub Means : Vector → Vector → Relation → Type 0
Means a b equal = ((k : GoString) → NotBelow a b k × NotBelow b a k)
Means a b before = ((k : GoString) → NotBelow b a k) × ((k : GoString) × Below a b k)
Means a b after = ((k : GoString) → NotBelow a b k) × ((k : GoString) × Below b a k)
Means a b concurrent = ((k : GoString) × Below a b k) × ((k : GoString) × Below b a k)

-- A raised flag has a witness; a lowered one covers every node that is not still to come.
record Knows (a b : Vector) (nodes : Dict GoString Bool) (flags : Bool × Bool) : Type 0 where
  a_less : flags.0 ≡ true → (k : GoString) × Below a b k
  b_less : flags.1 ≡ true → (k : GoString) × Below b a k
  a_not : (k : GoString) → get k nodes ≡ none → flags.0 ≡ false → NotBelow a b k
  b_not : (k : GoString) → get k nodes ≡ none → flags.1 ≡ false → NotBelow b a k

verdict-Means :
    (a b : Vector) (flags : Bool × Bool) → Knows a b [] flags → Means a b (verdict flags)
unfolding get
verdict-Means a b (false, false) s = λ k. (s.a_not k refl refl, s.b_not k refl refl)
verdict-Means a b (true, false) s = (λ k. s.b_not k refl refl, s.a_less refl)
verdict-Means a b (false, true) s = (λ k. s.a_not k refl refl, s.b_less refl)
verdict-Means a b (true, true) s = (s.a_less refl, s.b_less refl)

less_flags_facts :
    (x y : ℕ) (flags : Bool × Bool)
    → ((less_flags x y flags).0 ≡ false → (flags.0 ≡ false) × (i64_lt x y ≡ false))
      × ((less_flags x y flags).1 ≡ false → (flags.1 ≡ false) × (i64_lt y x ≡ false))
      × ((less_flags x y flags).0 ≡ true → (flags.0 ≡ true) ⊎ (i64_lt x y ≡ true))
      × ((less_flags x y flags).1 ≡ true → (flags.1 ≡ true) ⊎ (i64_lt y x ≡ true))
less_flags_facts x y (p, q) =
    (λ h. ground arith, λ h. ground arith, λ h. ground arith, λ h. ground arith)

Knows-step :
    (a b : Vector) (j : GoString) (v : Bool) (nodes : Dict GoString Bool) (flags : Bool × Bool)
    → Knows a b ((j, v) ∷ nodes) flags
    → Knows a b nodes (less_flags (at j a) (at j b) flags)
unfolding get
Knows-step a b j v nodes flags s =
    let (pa, pb, qa, qb) = less_flags_facts (at j a) (at j b) flags in
    record {
      a_less = λ h. elim (qa h) [ inl old ↦ s.a_less old | inr new ↦ (j, new) ];
      b_less = λ h. elim (qb h) [ inl old ↦ s.b_less old | inr new ↦ (j, new) ];
      a_not = λ k gone h. elim (Bool-cases (str_eq j k)) [
        | inl same ↦ subst (NotBelow a b) ((str_eq_iff j k).0 same) (pa h).1
        | inr other ↦ s.a_not k (rw other gone) (pa h).0
      ];
      b_not = λ k gone h. elim (Bool-cases (str_eq j k)) [
        | inl same ↦ subst (NotBelow b a) ((str_eq_iff j k).0 same) (pb h).1
        | inr other ↦ s.b_not k (rw other gone) (pb h).0
      ];
    }

compare_at-Means :
    (a b : Vector) (nodes : Dict GoString Bool) (flags : Bool × Bool)
    → Knows a b nodes flags
    → Means a b (compare_at a b nodes flags)
unfolding compare_at
compare_at-Means a b [] flags s = verdict-Means a b flags s
compare_at-Means a b ((j, v) ∷ nodes) flags s =
    let f : Bool × Bool = less_flags (at j a) (at j b) flags in
    let s' : Knows a b nodes f = Knows-step a b j v nodes flags s in
    elim (Bool-cases (f.0 && f.1)) [
      | inl both ↦
          let e : compare_at a b ((j, v) ∷ nodes) flags ≡ concurrent = ground arith in
          rw e (s'.a_less (ground arith), s'.b_less (ground arith))
      | inr not_both ↦
          let e : compare_at a b ((j, v) ∷ nodes) flags ≡ compare_at a b nodes f = ground arith in
          rw e (compare_at-Means a b nodes f s')
    ]

unmarked :
    (k : GoString) (v : Vector) (seen : Dict GoString Bool)
    → get k (mark_keys v seen) ≡ none
    → (get k v ≡ none) × (get k seen ≡ none)
unfolding mark_keys get
unmarked k [] seen h = (refl, h)
unmarked k ((j, t) ∷ v) seen h =
    let (p, q) = unmarked k v (put j true seen) h in ground (arith, get-put j k true seen)

zero_at : (k : GoString) (v : Vector) → get k v ≡ none → at k v ≡ 0
unfolding at
zero_at k v h = rw h

absent_NotBelow : (k : GoString) (a b : Vector) → get k a ≡ none → get k b ≡ none → NotBelow a b k
absent_NotBelow k a b p q = rw (zero_at k a p, zero_at k b q)

-- `Compare` answers what it names: equal vectors differ in no entry; the first is before the second
-- if no entry of it is above the second's and one is below; after is the reverse; and concurrent
-- vectors each have an entry below the other's. Missing entries count as 0.
pub compare-Means : (a b : Vector) → Means a b (compare a b)
unfolding compare
compare-Means a b =
    compare_at-Means a b (mark_keys b (mark_keys a [])) (false, false)
      (record {
        a_less = λ h. cc;
        b_less = λ h. cc;
        a_not = λ k gone h.
            let (pb, rest) = unmarked k b (mark_keys a []) gone in
            absent_NotBelow k a b (unmarked k a [] rest).0 pb;
        b_not = λ k gone h.
            let (pb, rest) = unmarked k b (mark_keys a []) gone in
            absent_NotBelow k b a pb (unmarked k a [] rest).0;
      })
