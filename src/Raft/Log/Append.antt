-- ===== src/Raft/Log/Append.antt =====
-- `Append` and `AppendOne`: what they store, what they leave alone, and that they do not panic.
use hermes.Base.{
  ℕ, suc, ◌+◌, ◌-◌, ◌≤◌, ◌<◌, ◌≡◌, refl, ◌∙◌, inl, inr, some, List, [], ◌∷◌, ◌++◌, arith, length,
  leb, ◌==◌, Bool-cases, length-append, leb→le, ==_iff,
}
use hermes.Raft.Types.{LogEntry}
use hermes.Raft.Log.{RaftLog, term_of, last_index, append_entries, append_one}
use hermes.Raft.Log.Numbered.{Numbered, IsWellFormed, last_index_lem, take_all}
use hermes.Raft.Log.Splice.{
  Stores, entry_at, Holds, splice, length-splice, term_of-splice_left, entry_at-splice_left,
  entry_at-splice_right, Holds-by_offset, splice-IsWellFormed, splice-Stores,
}

-- The outcome of an append of entries that follow index `prev`.
pub record Appended (l : RaftLog) (prev : ℕ) (es : List LogEntry) (l' : RaftLog) : Type 0 where
  pub well_formed : IsWellFormed l'
  pub stores : Stores l' es
  pub keeps : (i : ℕ) → i ≤ prev → term_of l' i ≡ term_of l i
  pub keeps_entries : (i : ℕ) → i ≤ prev → entry_at l' i ≡ entry_at l i
  pub committed : l'.committed ≡ l.committed
  pub applied : l'.applied ≡ l.applied
  pub snapshot_index : l'.snapshot_index ≡ l.snapshot_index
  pub reaches : prev + length es ≤ last_index l'

splice-Appended :
    (l : RaftLog) (prev : ℕ) (es : List LogEntry)
    → IsWellFormed l
    → l.committed ≤ prev
    → prev ≤ last_index l
    → Numbered (suc prev) es
    → prev + length es + 1 < 18446744073709551616
    → Appended l prev es (splice l (suc prev - l.snapshot_index) es)
splice-Appended l prev es w c p num fits =
    let k : ℕ = suc prev - l.snapshot_index in
    let e : l.snapshot_index + k ≡ suc prev = omega (arith, w.snapshot_committed) in
    let pos : 0 < k = omega (arith, w.snapshot_committed) in
    let h : k ≤ length l.entries = omega (arith, last_index_lem l w) in
    let num' : Numbered (l.snapshot_index + k) es = rw e num in
    let sw : IsWellFormed (splice l k es) =
      splice-IsWellFormed l k es w pos h (omega arith) num' (omega arith) in
    record {
      well_formed = sw;
      stores = splice-Stores l k es w pos h (omega arith) num' (omega arith);
      keeps = λ i le. term_of-splice_left l k es i h (omega arith);
      keeps_entries = λ i le. entry_at-splice_left l k es i h (omega arith);
      committed = refl;
      applied = refl;
      snapshot_index = refl;
      reaches = omega (arith, last_index_lem (splice l k es) sw, length-splice l k es h);
    }

splice_after-Holds :
    (l : RaftLog) (prev : ℕ) (es : List LogEntry)
    → IsWellFormed l
    → l.committed ≤ prev
    → prev ≤ last_index l
    → Numbered (suc prev) es
    → Holds l (splice l (suc prev - l.snapshot_index) es) es
splice_after-Holds l prev es w c p num =
    let k : ℕ = suc prev - l.snapshot_index in
    let e : l.snapshot_index + k ≡ suc prev = omega (arith, w.snapshot_committed) in
    let h : k ≤ length l.entries = omega (arith, last_index_lem l w) in
    let num' : Numbered (l.snapshot_index + k) es = rw e num in
    Holds-by_offset l (splice l k es) (l.snapshot_index + k) es num'
      (λ n. entry_at-splice_right l k es n h)

-- An entry that the log has already is stored with the batch behind it.
Appended-skip :
    (l l' : RaftLog) (prev : ℕ) (e : LogEntry) (es : List LogEntry)
    → e.index ≡ suc prev
    → term_of l e.index ≡ e.term
    → Appended l (suc prev) es l'
    → Appended l prev (e ∷ es) l'
Appended-skip l l' prev e es next same a = record {
  well_formed = a.well_formed;
  stores = (a.keeps e.index (omega (arith, next)) ∙ same, a.stores);
  keeps = λ i le. a.keeps i (omega (arith, le));
  keeps_entries = λ i le. a.keeps_entries i (omega (arith, le));
  committed = a.committed;
  applied = a.applied;
  snapshot_index = a.snapshot_index;
  reaches = omega (arith, a.reaches);
}

-- On a well-formed log a batch that is numbered behind an index that the log has, at or past the
-- commit index, and that ends below 2^64, is stored: the append does not panic, every entry's term
-- is answered at its index, and the log has the entry there, as it came or, where it had one of the
-- same term, as it was. No entry at or before that index changes, and the log stays well formed.
pub append_entries-Appended :
    (l : RaftLog) (prev : ℕ) (es : List LogEntry)
    → IsWellFormed l
    → l.committed ≤ prev
    → prev ≤ last_index l
    → Numbered (suc prev) es
    → prev + length es + 1 < 18446744073709551616
    → (l' : RaftLog) × (append_entries l es ≡ some l') × Appended l prev es l' × Holds l l' es
unfolding append_entries
append_entries-Appended l prev [] w c p num fits = (
  l,
  refl,
  record {
    well_formed = w;
    stores = tt;
    keeps = λ i le. refl;
    keeps_entries = λ i le. refl;
    committed = refl;
    applied = refl;
    snapshot_index = refl;
    reaches = omega arith;
  },
  tt,
)
append_entries-Appended l prev (e ∷ es) w c p num fits =
    elim (Bool-cases (leb e.index (last_index l))) [
      | inl inside ↦ elim (Bool-cases (term_of l e.index == e.term)) [
        | inl same ↦
            let (l', run, a, held) =
              append_entries-Appended l (suc prev) es w (omega arith)
                (omega (arith, leb→le _ _ inside, num.0)) num.1 (omega arith) in
            let same' : term_of l e.index ≡ e.term = (==_iff _ _).0 same in
            (
              l',
              rw (inside, same) run,
              Appended-skip l l' prev e es num.0 same' a,
              (
                inr (leb→le _ _ inside, same', a.keeps_entries e.index (omega (arith, num.0))),
                held,
              ),
            )
        | inr differs ↦ (
          splice l (suc prev - l.snapshot_index) (e ∷ es),
          ground (arith, num.0, w.snapshot_committed),
          splice-Appended l prev (e ∷ es) w c p num fits,
          splice_after-Holds l prev (e ∷ es) w c p num,
        )
      ]
      | inr beyond ↦
          let k : suc prev - l.snapshot_index ≡ length l.entries =
            ground (arith, last_index_lem l w, num.0, w.snapshot_committed) in
          (
            splice l (suc prev - l.snapshot_index) (e ∷ es),
            rw (beyond, k, take_all l.entries),
            splice-Appended l prev (e ∷ es) w c p num fits,
            splice_after-Holds l prev (e ∷ es) w c p num,
          )
    ]

-- On a well-formed log with room below 2^64, `AppendOne` of an entry numbered one past the end
-- does not panic and makes that entry the last.
pub append_one-Appended :
    (l : RaftLog) (e : LogEntry)
    → IsWellFormed l
    → e.index ≡ last_index l + 1
    → last_index l + 2 < 18446744073709551616
    → (l' : RaftLog) × (append_one l e ≡ some l')
      × Appended l (last_index l) (e ∷ []) l'
      × (last_index l' ≡ last_index l + 1)
unfolding append_one
append_one-Appended l e w h fits =
    let k : suc (last_index l) - l.snapshot_index ≡ length l.entries =
      omega (arith, last_index_lem l w, w.snapshot_committed) in
    let a : Appended l (last_index l) (e ∷ [])
        (splice l (suc (last_index l) - l.snapshot_index) (e ∷ [])) =
      splice-Appended l (last_index l) (e ∷ []) w (omega (arith, last_index_lem l w)) (omega arith)
        (omega arith, tt) (omega arith) in
    let a' : Appended l (last_index l) (e ∷ []) (record l { entries = l.entries ++ e ∷ [] }) =
      rw (k, take_all l.entries) at a in
    (
      record l { entries = l.entries ++ e ∷ [] },
      ground (arith, h),
      a',
      omega (
        arith,
        last_index_lem _ a'.well_formed,
        last_index_lem l w,
        length-append l.entries (e ∷ []),
      ),
    )
