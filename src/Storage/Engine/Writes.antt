-- ===== src/Storage/Engine/Writes.antt =====
-- One write to the tables in memory.
use hermes.Storage.Command.{encode_command}
use hermes.Base.{
  ℕ, suc, ◌≡◌, refl, sym, ◌∙◌, subst, Bool, some, List, [], ◌∷◌, ◌++◌, inl, inr, if◌then◌else◌, ltb,
  length, GoString, str_eq, Bool-cases, i64_lt, arith,
}
use hermes.Storage.SkipList.{Entry, SkipList, new_skip_list, put, delete}
use hermes.Storage.SkipList.Sorted.{insert_entry, lookup, lookup-insert_entry}
use hermes.Storage.SkipList.Represents.{Represents}
use hermes.Storage.SkipList.Refinement.{new_skip_list-Represents}
use hermes.Storage.Engine.{
  Engine, Logged, LogEntry, log_entry, apply, request_flush, newest, put_with_timestamp, reversed,
}
use hermes.Storage.Engine.Tables.{AllRepresent, first_in, Holding, reversed-append}

-- What the log has of an entry.
abbrev pub logged_of : Entry → LogEntry
logged_of new = record {
  payload = encode_command new.key new.value new.deleted;
  timestamp = new.timestamp;
  sequence = new.sequence;
}

-- What a write leaves: the lists, which give the new entry for its key.
pub record Written (e' : Engine) (new : Entry) (now : List Entry) (old : List (List Entry))
    : Type 0 where
  pub now' : List Entry
  pub old' : List (List Entry)
  pub holding : Holding e' now' old'
  pub found :
      (key : GoString)
      → first_in key (now' ∷ old')
        ≡ (if str_eq new.key key then some new else first_in key (now ∷ old))

pub found-insert :
    (new : Entry) (now : List Entry) (old : List (List Entry)) (sl : SkipList) (key : GoString)
    → Represents sl now
    → first_in key (insert_entry new now ∷ old)
      ≡ (if str_eq new.key key then some new else first_in key (now ∷ old))
unfolding first_in
found-insert new now old sl key r = ground (arith, lookup-insert_entry key new now r.sorted)

abbrev rotated : SkipList → Engine → Engine
rotated list e = record e {
  immutable = e.immutable ++ (record { id = e.mem_table.id; list = list } ∷ []);
  mem_table = record { id = suc e.mem_table.id; list = new_skip_list };
}

-- A rotation leaves an empty table in front.
rotated-Written :
    (list : SkipList) (e : Engine) (new : Entry) (now : List Entry) (old : List (List Entry))
    → Represents list (insert_entry new now)
    → Holding e now old
    → Written (rotated list e) new now old
unfolding first_in lookup
rotated-Written list e new now old r h = record {
  now' = [];
  old' = insert_entry new now ∷ old;
  holding = record {
    mem = new_skip_list-Represents;
    immutable =
        subst (λ ts. AllRepresent ts (insert_entry new now ∷ old))
          (sym (reversed-append e.immutable [] (record { id = e.mem_table.id; list = list })))
          (r, h.immutable);
    levels = h.levels;
    is_open = h.is_open;
  };
  found = λ k. found-insert new now old e.mem_table.list k h.mem;
}

-- Requests and counts do not change what is read.
Written-same :
    (e e' : Engine) (new : Entry) (now : List Entry) (old : List (List Entry))
    → e'.mem_table ≡ e.mem_table
    → e'.immutable ≡ e.immutable
    → e'.levels ≡ e.levels
    → e'.closed ≡ e.closed
    → Written e new now old
    → Written e' new now old
Written-same e e' new now old mem immutable levels closed w = record {
  now' = w.now';
  old' = w.old';
  holding = record {
    mem = subst (λ t. Represents t.list w.now') (sym mem) w.holding.mem;
    immutable =
        subst (λ ts. AllRepresent (reversed ts []) w.old') (sym immutable) w.holding.immutable;
    levels = levels ∙ w.holding.levels;
    is_open = closed ∙ w.holding.is_open;
  };
  found = w.found;
}

-- The engine after the request and the count.
abbrev after_rotation : Engine → Engine
after_rotation e =
    let e' = request_flush (newest e.mem_table e.immutable) e in
    record e' { write_count = suc e'.write_count }

after_rotation-log : (e : Engine) → (after_rotation e).log ≡ e.log
after_rotation-log e = elim (Bool-cases (ltb (length e.flush_ch) 4)) [
  | inl room ↦ rw room refl
  | inr none_left ↦ rw none_left refl
]

after_rotation-Written :
    (e : Engine) (new : Entry) (now : List Entry) (old : List (List Entry))
    → Written e new now old
    → Written (after_rotation e) new now old
after_rotation-Written e new now old w = elim (Bool-cases (ltb (length e.flush_ch) 4)) [
  | inl room ↦
      Written-same e (after_rotation e) new now old (rw room refl) (rw room refl) (rw room refl)
        (rw room refl) w
  | inr none_left ↦
      Written-same e (after_rotation e) new now old (rw none_left refl) (rw none_left refl)
        (rw none_left refl) (rw none_left refl) w
]

abbrev logging : LogEntry → Engine → Engine
logging l e = record e { log = e.log ++ (l ∷ []) }

pub put_with_timestamp_lem :
    (n : ℕ) (key : GoString) (value : List ℕ) (deleted : Bool) (entry : Logged) (new : Entry)
    (list : SkipList) (e : Engine) (now : List Entry) (old : List (List Entry))
    → (if deleted
        then delete n key entry.timestamp entry.sequence e.mem_table.list
        else put n key value entry.timestamp entry.sequence e.mem_table.list)
      ≡ some list
    → Represents list (insert_entry new now)
    → Holding e now old
    → (e' : Engine) × (put_with_timestamp n key value deleted (some entry) e ≡ some e')
      × (e'.log ≡ e.log ++ (log_entry (encode_command key value deleted) entry ∷ []))
      × Written e' new now old
unfolding put_with_timestamp apply
put_with_timestamp_lem n key value deleted entry new list e now old done r h =
    let l = log_entry (encode_command key value deleted) entry in
    let e1 = logging l e in
    let h1 : Holding e1 now old = record {
      mem = h.mem;
      immutable = h.immutable;
      levels = h.levels;
      is_open = h.is_open;
    } in
    elim (Bool-cases (i64_lt list.size e.config.mem_table_size)) [
      | inl small ↦ (
        record e1 {
          mem_table = record { id = e.mem_table.id; list = list };
          write_count = suc e.write_count;
        },
        ground (arith, h.is_open, done, small),
        refl,
        record {
          now' = insert_entry new now;
          old' = old;
          holding = record {
            mem = r;
            immutable = h.immutable;
            levels = h.levels;
            is_open = h.is_open;
          };
          found = λ k. found-insert new now old e.mem_table.list k h.mem;
        },
      )
      | inr full ↦ (
        after_rotation (rotated list e1),
        rw (h.is_open, done, full) refl,
        after_rotation-log (rotated list e1),
        after_rotation-Written (rotated list e1) new now old
            (rotated-Written list e1 new now old r h1),
      )
    ]
