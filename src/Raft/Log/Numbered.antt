-- ===== src/Raft/Log/Numbered.antt =====
-- Entries numbered in order, and what the parts of such a list hold.
use hermes.Base.{
  ℕ, zero, suc, ◌+◌, ◌-◌, ◌≤◌, ◌<◌, ◌≡◌, refl, ap, none, List, [], ◌∷◌, ◌++◌, arith, length,
  get_elem?, take, drop,
}
use hermes.Raft.Types.{LogEntry}
use hermes.Raft.Log.{RaftLog, entry_term, term_of, last_index}

-- The entries carry the indices `i`, `i + 1`, and so on.
abbrev pub Numbered : ℕ → List LogEntry → Type 0
Numbered i [] = Unit
Numbered i (e ∷ es) = (e.index ≡ i) × Numbered (suc i) es

-- What the log keeps between two operations.
pub record IsWellFormed (l : RaftLog) : Type 0 where
  pub nonempty : 0 < length l.entries
  pub in_range : l.snapshot_index + length l.entries < 18446744073709551616
  pub numbered : Numbered l.snapshot_index l.entries
  pub base_term : entry_term (get_elem? l.entries 0) ≡ l.snapshot_term
  pub snapshot_committed : l.snapshot_index ≤ l.committed
  pub committed_stored : l.committed < l.snapshot_index + length l.entries
  pub applied_committed : l.applied ≤ l.committed

pub last_index_lem :
    (l : RaftLog) → IsWellFormed l → last_index l + 1 ≡ l.snapshot_index + length l.entries
unfolding last_index
last_index_lem l w = omega (arith, w.nonempty, w.in_range)

pub Numbered-append :
    (i : ℕ) (xs ys : List LogEntry)
    → Numbered i xs
    → Numbered (i + length xs) ys
    → Numbered i (xs ++ ys)
Numbered-append i [] ys h k = ground arith
Numbered-append i (x ∷ xs) ys h k = (h.0, Numbered-append (suc i) xs ys h.1 (ground arith))

pub Numbered-take : (n i : ℕ) (xs : List LogEntry) → Numbered i xs → Numbered i (take n xs)
Numbered-take zero i xs h = tt
Numbered-take (suc n) i [] h = tt
Numbered-take (suc n) i (x ∷ xs) h = (h.0, Numbered-take n (suc i) xs h.1)

pub Numbered-drop : (n i : ℕ) (xs : List LogEntry) → Numbered i xs → Numbered (i + n) (drop n xs)
Numbered-drop zero i xs h = ground arith
Numbered-drop (suc n) i [] h = tt
Numbered-drop (suc n) i (x ∷ xs) h = ground (arith, Numbered-drop n (suc i) xs h.1)

module _ {ℓ} {A : Type ℓ} where
  pub get_elem?-append_left :
      (i : ℕ) (xs ys : List A) → i < length xs → get_elem? (xs ++ ys) i ≡ get_elem? xs i
  get_elem?-append_left i [] ys h = elim h [ ]
  get_elem?-append_left zero (x ∷ xs) ys h = refl
  get_elem?-append_left (suc i) (x ∷ xs) ys h = get_elem?-append_left i xs ys (omega arith)

  pub get_elem?-append_right :
      (i : ℕ) (xs ys : List A) → get_elem? (xs ++ ys) (length xs + i) ≡ get_elem? ys i
  get_elem?-append_right i [] ys = ground arith
  get_elem?-append_right i (x ∷ xs) ys = ground (arith, get_elem?-append_right i xs ys)

  pub get_elem?-take : (n i : ℕ) (xs : List A) → i < n → get_elem? (take n xs) i ≡ get_elem? xs i
  get_elem?-take zero i xs h = elim h [ ]
  get_elem?-take (suc n) i [] h = refl
  get_elem?-take (suc n) zero (x ∷ xs) h = refl
  get_elem?-take (suc n) (suc i) (x ∷ xs) h = get_elem?-take n i xs (omega arith)

  pub get_elem?-drop : (n i : ℕ) (xs : List A) → get_elem? (drop n xs) i ≡ get_elem? xs (n + i)
  get_elem?-drop zero i xs = ground arith
  get_elem?-drop (suc n) i [] = refl
  get_elem?-drop (suc n) i (x ∷ xs) = ground (arith, get_elem?-drop n i xs)

  pub take_all : (xs : List A) → take (length xs) xs ≡ xs
  take_all [] = refl
  take_all (x ∷ xs) = ap (λ t. x ∷ t) (take_all xs)

get_elem?_past {ℓ} : {A : Type ℓ} (xs : List A) (i : ℕ) → length xs ≤ i → get_elem? xs i ≡ none
get_elem?_past [] i h = refl
get_elem?_past (x ∷ xs) zero h = absurd (omega arith)
get_elem?_past (x ∷ xs) (suc i) h = get_elem?_past xs i (omega arith)

-- Past its last entry the log answers 0, so an index with a term is stored.
pub term_of_stored : (l : RaftLog) (i : ℕ) → IsWellFormed l → 0 < term_of l i → i ≤ last_index l
unfolding term_of
term_of_stored l i w h =
    ground (arith, last_index_lem l w, get_elem?_past l.entries (i - l.snapshot_index))
