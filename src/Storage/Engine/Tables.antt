-- ===== src/Storage/Engine/Tables.antt =====
-- The tables in memory and the entries that they stand for.
use hermes.Base.{◌≡◌, refl, false, Option, none, some, List, [], ◌∷◌, ◌++◌, GoString, arith}
use hermes.Storage.SkipList.{Entry}
use hermes.Storage.SkipList.Sorted.{lookup}
use hermes.Storage.SkipList.Represents.{Represents}
use hermes.Storage.SkipList.Refinement.{get_lem}
use hermes.Storage.Engine.{MemTable, Engine, empty_levels, read_lists, reversed}

-- The tables stand for the lists of entries.
abbrev pub AllRepresent : List MemTable → List (List Entry) → Type 0
AllRepresent [] [] = Unit {0}
AllRepresent [] (es ∷ ess) = ⊥
AllRepresent (t ∷ ts) [] = ⊥
AllRepresent (t ∷ ts) (es ∷ ess) = Represents t.list es × AllRepresent ts ess

-- The entry in the first list that has one.
unfoldable pub first_in : GoString → List (List Entry) → Option Entry
first_in key [] = none
first_in key (es ∷ ess) =
    let rest = first_in key ess in elim (lookup key es) [ none ↦ rest | some e ↦ some e ]

-- The engine's tables in memory, from the newest on; none of its levels has a table.
pub record Holding (e : Engine) (now : List Entry) (old : List (List Entry)) : Type 0 where
  pub mem : Represents e.mem_table.list now
  pub immutable : AllRepresent (reversed e.immutable []) old
  pub levels : e.levels ≡ empty_levels 7
  pub is_open : e.closed ≡ false

pub read_lists_lem :
    (key : GoString) (ts : List MemTable) (ess : List (List Entry))
    → AllRepresent ts ess
    → read_lists 0 key ts ≡ some (first_in key ess)
unfolding read_lists first_in
read_lists_lem key [] [] h = refl
read_lists_lem key [] (es ∷ ess) h = absurd h
read_lists_lem key (t ∷ ts) [] h = absurd h
read_lists_lem key (t ∷ ts) (es ∷ ess) (here, h) =
    ground (arith, get_lem key t.list es here, read_lists_lem key ts ess h)

pub reversed-append :
    (ts us : List MemTable) (t : MemTable) → reversed (ts ++ (t ∷ [])) us ≡ t ∷ reversed ts us
reversed-append [] us t = refl
reversed-append (u ∷ ts) us t = reversed-append ts (u ∷ us) t
