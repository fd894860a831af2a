-- ===== src/Txn/Ssi/Conflicts.antt =====
-- Keys that two transactions wrote, as the detector sees them.
use hermes.Base.{
  ℕ, ◌<◌, ◌≡◌, ◌≢◌, refl, ap, sym, ◌∙◌, true, false, Option, none, some, [], ◌∷◌, GoString, str_eq,
  str_eq_iff, string_eq, arith, Bool-cases, Option-cases, inl, inr,
}
use hermes.Base.Dict.{Dict, get, put, get-put, beq_refl}
use hermes.Txn.Ssi.{
  Transaction, RwSet, RwSets, SsiDetector, check_conflict, active_conflict, ww_conflict, is_written,
  sets_of, sets_or_new, with_set, marked_written, record_read, record_write,
}

-- No conflict over the keys: none that is written stands among those that the other wrote.
ww_conflict-none :
    (txn : Transaction) (oid key : GoString) (other : Transaction) (others sets : RwSets)
    → other.start_time < txn.start_time
    → ww_conflict txn oid (some other) others sets ≡ none
    → is_written (get key sets) ≡ true
    → is_written (get key others) ≡ false
unfolding ww_conflict get
ww_conflict-none txn oid key other others [] older free w = ground (arith, w)
ww_conflict-none txn oid key other others ((k, rw) ∷ sets) older free w =
    elim (Bool-cases (str_eq k key)) [
      | inl here ↦
          let same : get k others ≡ get key others =
            ap (λ j. get j others) ((str_eq_iff k key).0 here) in
          elim (Bool-cases (is_written (get key others))) [
            | inl both ↦ ground (arith, older, free, w, here, same, both)
            | inr fine ↦ fine
          ]
      | inr there ↦
          ww_conflict-none txn oid key other others sets older (ground (arith, free))
            (ground (arith, w, there))
    ]

active_conflict-none :
    (txn other : Transaction) (oid key : GoString) (sets others : RwSets)
    (active : Dict GoString Transaction) (left : Dict GoString RwSets)
    → oid ≢ txn.id
    → get oid active ≡ some other
    → other.start_time < txn.start_time
    → active_conflict txn sets active left ≡ none
    → get oid left ≡ some others
    → is_written (get key sets) ≡ true
    → is_written (get key others) ≡ false
unfolding active_conflict get
active_conflict-none txn other oid key sets others active [] differ found older free there w =
    ground (arith, there)
active_conflict-none txn other oid key sets others active ((o, rws) ∷ left) differ found older free
      there w =
    elim (Bool-cases (str_eq o oid)) [
      | inl here ↦
          let same : o ≡ oid = (str_eq_iff o oid).0 here in
          let not_own : str_eq o txn.id ≡ false =
            ground (arith, here, str_eq_iff o oid, str_eq_iff o txn.id, differ) in
          let found' : get o active ≡ some other = ap (λ j. get j active) same ∙ found in
          let first : rws ≡ others = ground (arith, there, here) in
          let checked : ww_conflict txn o (get o active) rws sets ≡ none =
            ground (arith, free, not_own) in
          let checked' : ww_conflict txn o (some other) others sets ≡ none =
            ap (λ x. ww_conflict txn o x others sets) (sym found')
            ∙ ap (λ x. ww_conflict txn o (get o active) x sets) (sym first)
            ∙ checked in
          ww_conflict-none txn o key other others sets older checked' w
      | inr past ↦
          active_conflict-none txn other oid key sets others active left differ found older
            (ground (arith, free)) (ground (arith, there, past)) w
    ]

-- If the detector finds no conflict for a transaction, then no other active transaction that started
-- before it has a key marked as written that this one has marked as written. A later read of a key
-- clears its mark.
pub no_key_written_twice :
    (txn other : Transaction) (key : GoString) (d : SsiDetector)
    → other.id ≢ txn.id
    → get other.id d.active_txns ≡ some other
    → other.start_time < txn.start_time
    → check_conflict txn d ≡ none
    → is_written (get key (sets_of txn.id d)) ≡ true
    → is_written (get key (sets_of other.id d)) ≡ false
unfolding check_conflict get
no_key_written_twice txn other key d differ found older free w =
    elim (Option-cases (get txn.id d.read_write_sets)) [
      | inl untracked ↦ ground (arith, w, untracked)
      | inr (sets, tracked) ↦ elim (Option-cases (get other.id d.read_write_sets)) [
        | inl absent ↦ ap (λ o. is_written (get key (sets_or_new o))) absent
        | inr (others, present) ↦
            let clear : active_conflict txn sets d.active_txns d.read_write_sets ≡ none =
              ground (arith, free, tracked) in
            let fine : is_written (get key others) ≡ false =
              active_conflict-none txn other other.id key sets others d.active_txns
                d.read_write_sets differ found older clear present (ground (arith, w, tracked)) in
            ground (arith, present, fine)
      ]
    ]

get-with_set :
    (id key : GoString) (rw' : RwSet) (d : SsiDetector)
    → get key (sets_of id (with_set id key rw' d)) ≡ some rw'
get-with_set id key rw' d =
    let stored : get id (with_set id key rw' d).read_write_sets
        ≡ some (put key rw' (sets_of id d)) =
      ground (arith, get-put id id (put key rw' (sets_of id d)) d.read_write_sets, beq_refl id) in
    ap (λ o. get key (sets_or_new o)) stored
    ∙ ground (arith, get-put key key rw' (sets_of id d), beq_refl key)

marked_written-is_written :
    (ts : ℕ) (o : Option RwSet) → is_written (some (marked_written ts o)) ≡ true
marked_written-is_written ts none = refl
marked_written-is_written ts (some rw') = refl

-- After a write, a read of the same key leaves the key as one that was not written.
pub read_forgets_write :
    (id key : GoString) (ts ts' : ℕ) (d : SsiDetector)
    → (is_written (get key (sets_of id (record_write id key ts d))) ≡ true)
      × (is_written (get key (sets_of id (record_read id key ts' (record_write id key ts d))))
          ≡ false)
unfolding record_read record_write
read_forgets_write id key ts ts' d =
    let sets = sets_of id d in
    let w' = marked_written ts (get key sets) in
    let r : RwSet = record { read_at = ts'; written = false; write_at = 0 } in
    (
      ap is_written (get-with_set id key w' d) ∙ marked_written-is_written ts (get key sets),
      ap is_written (get-with_set id key r (record_write id key ts d)),
    )
