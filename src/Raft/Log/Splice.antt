-- ===== src/Raft/Log/Splice.antt =====
-- Entries put behind the first ones of the log, in place of the rest.
use hermes.Base.{
  sym, ◌⊎◌, Option, ℕ, zero, suc, ◌+◌, ◌-◌, ◌≤◌, ◌<◌, ◌≡◌, ap, ◌∙◌, inl, some, List, [], ◌∷◌, ◌++◌,
  arith, length, get_elem?, take, length-append, length-take,
}
use hermes.Raft.Types.{LogEntry}
use hermes.Raft.Log.{RaftLog, entry_term, term_of, last_index}
use hermes.Raft.Log.Numbered.{
  Numbered, IsWellFormed, Numbered-append, Numbered-take, get_elem?-append_left,
  get_elem?-append_right, get_elem?-take,
}

-- The log answers each entry's index with the entry's term.
abbrev pub Stores : RaftLog → List LogEntry → Type 0
Stores l [] = Unit
Stores l (e ∷ es) = (term_of l e.index ≡ e.term) × Stores l es

-- The entry at an index of the log.
abbrev pub entry_at : RaftLog → ℕ → Option LogEntry
entry_at l i = get_elem? l.entries (i - l.snapshot_index)

-- The log has an entry as it came, or the one that an older log had at its index with the same term.
abbrev pub IsHeld : RaftLog → RaftLog → LogEntry → Type 0
IsHeld l l' e =
    (entry_at l' e.index ≡ some e)
    ⊎ ((e.index ≤ last_index l)
        × (term_of l e.index ≡ e.term)
        × (entry_at l' e.index ≡ entry_at l e.index))

abbrev pub Holds : RaftLog → RaftLog → List LogEntry → Type 0
Holds l l' [] = Unit
Holds l l' (e ∷ es) = IsHeld l l' e × Holds l l' es

abbrev pub splice : RaftLog → ℕ → List LogEntry → RaftLog
splice l k es = record l { entries = take k l.entries ++ es }

pub length-splice :
    (l : RaftLog) (k : ℕ) (es : List LogEntry)
    → k ≤ length l.entries
    → length (take k l.entries ++ es) ≡ k + length es
length-splice l k es h = omega (arith, length-append (take k l.entries) es, length-take k l.entries)

pub term_of-splice_left :
    (l : RaftLog) (k : ℕ) (es : List LogEntry) (i : ℕ)
    → k ≤ length l.entries
    → i < l.snapshot_index + k
    → term_of (splice l k es) i ≡ term_of l i
unfolding term_of
term_of-splice_left l k es i h lt = ground (
  arith,
  length-take k l.entries,
  get_elem?-append_left (i - l.snapshot_index) (take k l.entries) es,
  get_elem?-take k (i - l.snapshot_index) l.entries,
)

term_of-splice_right :
    (l : RaftLog) (k : ℕ) (es : List LogEntry) (i : ℕ)
    → 0 < k
    → k ≤ length l.entries
    → term_of (splice l k es) (l.snapshot_index + k + i) ≡ entry_term (get_elem? es i)
unfolding term_of
term_of-splice_right l k es i pos h = ground (
  arith,
  length-take k l.entries,
  get_elem?-append_right i (take k l.entries) es,
  (let e : l.snapshot_index + k + i - l.snapshot_index ≡ length (take k l.entries) + i =
        omega (arith, length-take k l.entries) in
      e),
)

pub entry_at-splice_left :
    (l : RaftLog) (k : ℕ) (es : List LogEntry) (i : ℕ)
    → k ≤ length l.entries
    → i - l.snapshot_index < k
    → entry_at (splice l k es) i ≡ entry_at l i
entry_at-splice_left l k es i h lt =
    get_elem?-append_left (i - l.snapshot_index) (take k l.entries) es
      (omega (arith, lt, h, length-take k l.entries))
    ∙ get_elem?-take k (i - l.snapshot_index) l.entries lt

pub entry_at-splice_right :
    (l : RaftLog) (k : ℕ) (es : List LogEntry) (i : ℕ)
    → k ≤ length l.entries
    → entry_at (splice l k es) (l.snapshot_index + k + i) ≡ get_elem? es i
entry_at-splice_right l k es i h =
    let place : l.snapshot_index + k + i - l.snapshot_index ≡ length (take k l.entries) + i =
      omega (arith, h, length-take k l.entries) in
    ap (get_elem? (take k l.entries ++ es)) place ∙ get_elem?-append_right i (take k l.entries) es

-- The entries of a numbered list, by position.
Numbered-get :
    (i n : ℕ) (e : LogEntry) (es : List LogEntry)
    → Numbered i es
    → get_elem? es n ≡ some e
    → e.index ≡ i + n
Numbered-get i n e [] h k = ground arith
Numbered-get i zero e (x ∷ es) h k = ground arith
Numbered-get i (suc n) e (x ∷ es) h k = ground (arith, Numbered-get (suc i) n e es h.1 k)

Stores-by_offset :
    (l : RaftLog) (i : ℕ) (es : List LogEntry)
    → Numbered i es
    → ((n : ℕ) → term_of l (i + n) ≡ entry_term (get_elem? es n))
    → Stores l es
Stores-by_offset l i [] h t = tt
Stores-by_offset l i (e ∷ es) h t = (
  ground (arith, t 0),
  Stores-by_offset l (suc i) es h.1
      (λ n. let p : i + suc n ≡ suc i + n = omega arith in rw (← p) (t (suc n))),
)

pub Holds-by_offset :
    (l l' : RaftLog) (i : ℕ) (es : List LogEntry)
    → Numbered i es
    → ((n : ℕ) → entry_at l' (i + n) ≡ get_elem? es n)
    → Holds l l' es
Holds-by_offset l l' i [] h t = tt
Holds-by_offset l l' i (e ∷ es) h t = (
  inl (ap (entry_at l') (omega (arith, h.0)) ∙ t 0),
  Holds-by_offset l l' (suc i) es h.1
      (λ n. let p : i + suc n ≡ suc i + n = omega arith in ap (entry_at l') (sym p) ∙ t (suc n)),
)

module _ (l : RaftLog) (k : ℕ) (es : List LogEntry) (w : IsWellFormed l) (pos : 0 < k)
    (h : k ≤ length l.entries) (after : l.committed < l.snapshot_index + k)
    (num : Numbered (l.snapshot_index + k) es)
    (fits : l.snapshot_index + k + length es < 18446744073709551616) where
  pub splice-IsWellFormed : IsWellFormed (splice l k es)
  splice-IsWellFormed = record {
    nonempty = omega (arith, length-splice l k es h);
    in_range = omega (arith, length-splice l k es h);
    numbered =
        Numbered-append l.snapshot_index (take k l.entries) es
          (Numbered-take k _ l.entries w.numbered)
          (let e : length (take k l.entries) ≡ k = omega (arith, length-take k l.entries) in
            rw e num);
    base_term =
        ap entry_term (
          get_elem?-append_left 0 (take k l.entries) es (omega (arith, length-take k l.entries))
          ∙ get_elem?-take k 0 l.entries pos)
        ∙ w.base_term;
    snapshot_committed = w.snapshot_committed;
    committed_stored = omega (arith, length-splice l k es h);
    applied_committed = w.applied_committed;
  }

  pub splice-Stores : Stores (splice l k es) es
  splice-Stores =
      Stores-by_offset (splice l k es) (l.snapshot_index + k) es num
        (λ n. term_of-splice_right l k es n pos h)
