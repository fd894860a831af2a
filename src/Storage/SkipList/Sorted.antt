-- ===== src/Storage/SkipList/Sorted.antt =====
-- Entries in the order of their keys, one for each key.
use hermes.Base.{
  ◌≡◌, refl, ap, subst, Bool, true, false, Option, none, some, List, [], ◌∷◌, ◌++◌, inl, inr,
  if◌then◌else◌, GoString, str_eq, str_eq_iff, str_lt, str_lt_irrefl, str_lt_trans, str_lt_total,
  Bool-cases, arith,
}
use hermes.Storage.SkipList.{Entry, is_past}

abbrev pub Above : GoString → List Entry → Type 0
Above key [] = Unit {0}
Above key (e ∷ es) = (str_lt key e.key ≡ true) × Above key es

abbrev pub Sorted : List Entry → Type 0
Sorted [] = Unit {0}
Sorted (e ∷ es) = Above e.key es × Sorted es

-- Every key is below the given one, or none is, as `b` says.
abbrev pub Keys : GoString → Bool → List Entry → Type 0
Keys key b [] = Unit {0}
Keys key b (e ∷ es) = (str_lt e.key key ≡ b) × Keys key b es

-- The entry in its place, for the one of its key if there is one.
unfoldable pub insert_entry : Entry → List Entry → List Entry
insert_entry e [] = e ∷ []
insert_entry e (f ∷ es) =
    let rest = insert_entry e es in
    if str_lt f.key e.key then f ∷ rest else if str_eq f.key e.key then e ∷ es else e ∷ f ∷ es

unfoldable pub lookup : GoString → List Entry → Option Entry
lookup key [] = none
lookup key (e ∷ es) = let rest = lookup key es in if str_eq e.key key then some e else rest

-- The entries from a key on, and those before an end, which the empty one leaves open.
unfoldable pub from_key : GoString → List Entry → List Entry
from_key key [] = []
from_key key (e ∷ es) = let rest = from_key key es in if str_lt e.key key then rest else e ∷ es

unfoldable pub until_key : GoString → List Entry → List Entry
until_key key [] = []
until_key key (e ∷ es) = let rest = until_key key es in if is_past key e.key then [] else e ∷ rest

pub Above-trans : (j k : GoString) (es : List Entry) → str_lt j k ≡ true → Above k es → Above j es
Above-trans j k [] less above = tt
Above-trans j k (e ∷ es) less (here, above) =
    (str_lt_trans j k e.key less here, Above-trans j k es less above)

-- Behind an entry that is not below the key none is.
pub Above-Keys :
    (j key : GoString) (es : List Entry) → str_lt j key ≡ false → Above j es → Keys key false es
Above-Keys j key [] high above = tt
Above-Keys j key (e ∷ es) high (here, above) = (
  elim (Bool-cases (str_lt e.key key)) [
    | inr off ↦ off
    | inl on ↦ absurd (ground (arith, high, str_lt_trans j e.key key here on))
  ],
  Above-Keys j key es high above,
)

insert_entry-Above :
    (k : GoString) (e : Entry) (es : List Entry)
    → str_lt k e.key ≡ true
    → Above k es
    → Above k (insert_entry e es)
unfolding insert_entry
insert_entry-Above k e [] less above = (less, tt)
insert_entry-Above k e (f ∷ es) less (here, above) = elim (Bool-cases (str_lt f.key e.key)) [
  | inl low ↦ rw low (here, insert_entry-Above k e es less above)
  | inr high ↦ elim (Bool-cases (str_eq f.key e.key)) [
    | inl same ↦ rw (high, same) (less, above)
    | inr other ↦ rw (high, other) (less, (here, above))
  ]
]

-- Of two keys that are neither less nor the same the second is less.
pub str_greater : (a b : GoString) → str_lt a b ≡ false → str_eq a b ≡ false → str_lt b a ≡ true
str_greater a b high other = elim (Bool-cases (str_lt b a)) [
  | inl less ↦ less
  | inr high' ↦ absurd (ground (arith, other, (str_eq_iff a b).1 (str_lt_total a b high high')))
]

pub insert_entry-Sorted : (e : Entry) (es : List Entry) → Sorted es → Sorted (insert_entry e es)
unfolding insert_entry
insert_entry-Sorted e [] sorted = (tt, tt)
insert_entry-Sorted e (f ∷ es) (above, sorted) = elim (Bool-cases (str_lt f.key e.key)) [
  | inl low ↦ rw low (insert_entry-Above f.key e es low above, insert_entry-Sorted e es sorted)
  | inr high ↦ elim (Bool-cases (str_eq f.key e.key)) [
    | inl same ↦
        rw (high, same) (subst (λ k. Above k es) ((str_eq_iff f.key e.key).0 same) above, sorted)
    | inr other ↦
        let less = str_greater f.key e.key high other in
        rw (high, other) ((less, Above-trans e.key f.key es less above), (above, sorted))
  ]
]

-- What stands below the key does not matter to it.
pub insert_entry-append :
    (e : Entry) (es fs : List Entry)
    → Keys e.key true es
    → insert_entry e (es ++ fs) ≡ es ++ insert_entry e fs
unfolding insert_entry
insert_entry-append e [] fs below = refl
insert_entry-append e (f ∷ es) fs (low, below) =
    rw low (ap (λ gs. f ∷ gs) (insert_entry-append e es fs below))

-- A key that is less is another one.
less-other : (a b : GoString) → str_lt a b ≡ true → str_eq a b ≡ false
less-other a b less = elim (Bool-cases (str_eq a b)) [
  | inr other ↦ other
  | inl same ↦ absurd (
      ground (
        arith,
        str_lt_irrefl b,
        less,
        subst (λ k. str_lt k b ≡ true) ((str_eq_iff a b).0 same) less,
      ))
]

-- In front of what stands above the key.
pub insert_entry-Above-all :
    (e : Entry) (es : List Entry) → Above e.key es → insert_entry e es ≡ e ∷ es
unfolding insert_entry
insert_entry-Above-all e [] above = refl
insert_entry-Above-all e (f ∷ es) (less, above) =
    let high : str_lt f.key e.key ≡ false =
      ground (arith, less, str_lt_irrefl e.key, str_lt_trans e.key f.key e.key less) in
    let other : str_eq f.key e.key ≡ false =
      ground (arith, less-other e.key f.key less, str_eq_iff f.key e.key, str_eq_iff e.key f.key) in
    rw (high, other) refl

pub lookup-append :
    (key : GoString) (es fs : List Entry) → Keys key true es → lookup key (es ++ fs) ≡ lookup key fs
unfolding lookup
lookup-append key [] fs below = refl
lookup-append key (e ∷ es) fs (low, below) =
    rw (less-other e.key key low) (lookup-append key es fs below)

pub from_key-append :
    (key : GoString) (es fs : List Entry)
    → Keys key true es
    → Keys key false fs
    → from_key key (es ++ fs) ≡ fs
unfolding from_key
from_key-append key [] [] below above = refl
from_key-append key [] (f ∷ fs) below (high, above) = rw high refl
from_key-append key (e ∷ es) fs (low, below) above = rw low (from_key-append key es fs below above)

-- Above a key no entry has it.
pub lookup-Above : (key : GoString) (es : List Entry) → Above key es → lookup key es ≡ none
unfolding lookup
lookup-Above key [] above = refl
lookup-Above key (e ∷ es) (less, above) =
    let other : str_eq e.key key ≡ false =
      ground (arith, less-other key e.key less, str_eq_iff e.key key, str_eq_iff key e.key) in
    rw other (lookup-Above key es above)

-- A lookup behind an insertion finds the entry at its own key, and at every other key what was there.
pub lookup-insert_entry :
    (key : GoString) (e : Entry) (es : List Entry)
    → Sorted es
    → lookup key (insert_entry e es) ≡ (if str_eq e.key key then some e else lookup key es)
unfolding lookup insert_entry
lookup-insert_entry key e [] sorted = refl
lookup-insert_entry key e (f ∷ es) (above, sorted) = elim (Bool-cases (str_lt f.key e.key)) [
  | inl low ↦ ground (
    arith,
    low,
    less-other f.key e.key low,
    str_eq_iff f.key e.key,
    str_eq_iff f.key key,
    str_eq_iff e.key key,
    lookup-insert_entry key e es sorted,
  )
  | inr high ↦ elim (Bool-cases (str_eq f.key e.key)) [
    | inl same ↦
        ground
          (arith, high, same, str_eq_iff f.key e.key, str_eq_iff f.key key, str_eq_iff e.key key)
    | inr other ↦ ground (arith, high, other)
  ]
]

-- Of two entries of one key the later one stays.
pub insert_entry-twice :
    (e f : Entry) (es : List Entry)
    → e.key ≡ f.key
    → insert_entry f (insert_entry e es) ≡ insert_entry f es
unfolding insert_entry
insert_entry-twice e f [] same =
    ground (arith, str_eq_iff e.key f.key, ap (λ k. str_lt k f.key) same, str_lt_irrefl f.key)
insert_entry-twice e f (g ∷ es) same = ground (
  arith,
  str_eq_iff e.key f.key,
  str_lt_irrefl f.key,
  ap (λ k. str_lt k f.key) same,
  ap (str_lt g.key) same,
  ap (str_eq g.key) same,
  insert_entry-twice e f es same,
)
