-- ===== src/Storage/SkipList/Search.antt =====
-- The search down the levels.
use hermes.Base.{
  ℕ, zero, suc, ◌<◌, ◌≤◌, ◌≡◌, refl, sym, ap, ◌∙◌, subst, Bool, true, false, some, List, [], ◌∷◌,
  ◌++◌, ◌⊎◌, inl, inr, length, ltb, if◌then◌else◌, GoString, str_lt, Bool-cases, arith,
}
use hermes.Storage.SkipList.{Entry, Nodes, walk, descend}
use hermes.Storage.SkipList.Chain.{last, Chain, height}

-- The nodes of a list that reach the level.
unfoldable pub tall : Nodes → ℕ → List ℕ → List ℕ
tall st i [] = []
tall st i (a ∷ xs) = let rest = tall st i xs in if ltb i (height st a) then a ∷ rest else rest

tall-nil : (st : Nodes) (i : ℕ) → tall st i [] ≡ []
unfolding tall
tall-nil st i = refl

pub tall-in :
    (st : Nodes) (i a : ℕ) (xs : List ℕ) → i < height st a → tall st i (a ∷ xs) ≡ a ∷ tall st i xs
unfolding tall
tall-in st i a xs reaches = ground (arith, reaches)

pub tall-out :
    (st : Nodes) (i a : ℕ) (xs : List ℕ) → height st a ≤ i → tall st i (a ∷ xs) ≡ tall st i xs
unfolding tall
tall-out st i a xs low = ground (arith, low)

pub tall-append :
    (st : Nodes) (i : ℕ) (xs ys : List ℕ) → tall st i (xs ++ ys) ≡ tall st i xs ++ tall st i ys
unfolding tall
tall-append st i [] ys = refl
tall-append st i (a ∷ xs) ys = ground (arith, tall-append st i xs ys)

-- The heights alone decide it.
pub tall-same :
    (st st' : Nodes) (i : ℕ) (xs : List ℕ)
    → ((b : ℕ) → height st' b ≡ height st b)
    → tall st' i xs ≡ tall st i xs
unfolding tall
tall-same st st' i [] same = refl
tall-same st st' i (a ∷ xs) same = ground (arith, same a, tall-same st st' i xs same)

length-tall : (st : Nodes) (i : ℕ) (xs : List ℕ) → length (tall st i xs) ≤ length xs
unfolding tall
length-tall st i [] = omega arith
length-tall st i (a ∷ xs) = ground (arith, length-tall st i xs)

-- The node's key is below the searched one or not, as `b` says.
abbrev pub Side : Nodes → GoString → Bool → ℕ → Type 0
Side st key b a = (e : Entry) × ((st a).entry ≡ some e) × (str_lt e.key key ≡ b)

abbrev pub Sides : Nodes → GoString → Bool → List ℕ → Type 0
Sides st key b [] = Unit {0}
Sides st key b (a ∷ xs) = Side st key b a × Sides st key b xs

Sides-tall :
    (st : Nodes) (key : GoString) (b : Bool) (i : ℕ) (xs : List ℕ)
    → Sides st key b xs
    → Sides st key b (tall st i xs)
unfolding tall
Sides-tall st key b i [] sides = tt
Sides-tall st key b i (a ∷ xs) (here, sides) = elim (Bool-cases (ltb i (height st a))) [
  | inl on ↦ rw (tall-in st i a xs (ground (arith, on))) (here, Sides-tall st key b i xs sides)
  | inr off ↦ rw (tall-out st i a xs (ground (arith, off))) (Sides-tall st key b i xs sides)
]

walk_lem :
    (n : ℕ) (st : Nodes) (key : GoString) (i c : ℕ) (xs ys : List ℕ)
    → length xs < n
    → Chain st i (c ∷ (xs ++ ys))
    → Sides st key true xs
    → Sides st key false ys
    → walk n st key i c ≡ some (last c xs)
unfolding walk
walk_lem zero st key i c xs ys enough chain below above = absurd (omega (arith, enough))
walk_lem (suc n) st key i c [] [] enough (here, chain) below above = ground (arith, here)
walk_lem (suc n) st key i c [] (y ∷ ys) enough (here, chain) below ((e, at, side), above) =
    ground (arith, here, at, side)
walk_lem (suc n) st key i c (x ∷ xs) ys enough (here, chain) ((e, at, side), below) above =
    let ih = walk_lem n st key i x xs ys (omega (arith, enough)) chain below above in
    ground (arith, here, at, side, ih)

-- What is left to walk at a level, from where the level above ended.
record Left (st : Nodes) (key : GoString) (i c u : ℕ) (xs ys : List ℕ) : Type 0 where
  rest : List ℕ
  chain : Chain st i (u ∷ (rest ++ ys))
  below : Sides st key true rest
  short : length rest ≤ length xs
  end : last u rest ≡ last c (tall st i xs)

-- Where nothing reaches the level above, all of it is left.
Left-all :
    (st : Nodes) (key : GoString) (i c : ℕ) (xs ys : List ℕ)
    → Chain st i (c ∷ (tall st i xs ++ ys))
    → Sides st key true xs
    → Left st key i c c xs ys
Left-all st key i c xs ys chain below = record {
  rest = tall st i xs;
  chain = chain;
  below = Sides-tall st key true i xs below;
  short = length-tall st i xs;
  end = refl;
}

Left-next :
    (st : Nodes) (key : GoString) (i c a u : ℕ) (xs ys : List ℕ)
    → tall st i (a ∷ xs) ≡ a ∷ tall st i xs
    → Left st key i a u xs ys
    → Left st key i c u (a ∷ xs) ys
Left-next st key i c a u xs ys at l = record {
  rest = l.rest;
  chain = l.chain;
  below = l.below;
  short = omega (arith, l.short);
  end = l.end ∙ sym (ap (last c) at);
}

Left-skip :
    (st : Nodes) (key : GoString) (i c a u : ℕ) (xs ys : List ℕ)
    → tall st i (a ∷ xs) ≡ tall st i xs
    → Left st key i c u xs ys
    → Left st key i c u (a ∷ xs) ys
Left-skip st key i c a u xs ys at l = record {
  rest = l.rest;
  chain = l.chain;
  below = l.below;
  short = omega (arith, l.short);
  end = l.end ∙ sym (ap (last c) at);
}

List-cases : (t : List ℕ) → (t ≡ []) ⊎ ((x : ℕ) × (r : List ℕ) × (t ≡ x ∷ r))
List-cases [] = inl refl
List-cases (x ∷ r) = inr (x, r, refl)

Left_lem :
    (st : Nodes) (key : GoString) (i c : ℕ) (xs ys : List ℕ)
    → Chain st i (c ∷ (tall st i xs ++ ys))
    → Sides st key true xs
    → Left st key i c (last c (tall st (suc i) xs)) xs ys
Left_lem st key i c [] ys chain below =
    subst (λ t. Left st key i c (last c t) [] ys) (sym (tall-nil st (suc i)))
      (Left-all st key i c [] ys chain below)
Left_lem st key i c (a ∷ xs) ys chain (here, below) = elim (Bool-cases (ltb i (height st a))) [
  | inr off ↦
      let at : tall st i (a ∷ xs) ≡ tall st i xs = tall-out st i a xs (ground (arith, off)) in
      let up : tall st (suc i) (a ∷ xs) ≡ tall st (suc i) xs =
        tall-out st (suc i) a xs (ground (arith, off)) in
      let chain' = subst (λ t. Chain st i (c ∷ (t ++ ys))) at chain in
      subst (λ t. Left st key i c (last c t) (a ∷ xs) ys) (sym up)
        (Left-skip st key i c a (last c (tall st (suc i) xs)) xs ys at
          (Left_lem st key i c xs ys chain' below))
  | inl on ↦
      let at : tall st i (a ∷ xs) ≡ a ∷ tall st i xs = tall-in st i a xs (ground (arith, on)) in
      let (first, later) = subst (λ t. Chain st i (c ∷ (t ++ ys))) at chain in
      let ih = Left_lem st key i a xs ys later below in
      let next = Left-next st key i c a (last a (tall st (suc i) xs)) xs ys at ih in
      elim (Bool-cases (ltb (suc i) (height st a))) [
        | inl top ↦
            subst (λ t. Left st key i c (last c t) (a ∷ xs) ys)
              (sym (tall-in st (suc i) a xs (ground (arith, top)))) next
        | inr low ↦
            subst (λ t. Left st key i c (last c t) (a ∷ xs) ys)
              (sym (tall-out st (suc i) a xs (ground (arith, low))))
              elim (List-cases (tall st (suc i) xs)) [
                | inl e ↦
                    subst (λ t. Left st key i c (last c t) (a ∷ xs) ys) (sym e)
                      (Left-all st key i c (a ∷ xs) ys chain (here, below))
                | inr (x, r, e) ↦
                    subst (λ u. Left st key i c u (a ∷ xs) ys) (ap (last a) e ∙ sym (ap (last c) e))
                      next
              ]
      ]
]

-- The path that the descent collects: the last node below the key at each level.
abbrev pub path : Nodes → List ℕ → ℕ → List ℕ → List ℕ
path st xs zero update = update
path st xs (suc i) update = path st xs i (last 0 (tall st i xs) ∷ update)

pub descend_lem :
    (fuel : ℕ) (st : Nodes) (key : GoString) (xs ys : List ℕ)
    → length xs < fuel
    → Sides st key true xs
    → Sides st key false ys
    → (k : ℕ) (update : List ℕ)
    → ((i : ℕ) → i < k → Chain st i (0 ∷ (tall st i xs ++ tall st i ys)))
    → descend fuel st key k (last 0 (tall st k xs)) update
      ≡ some (last 0 (tall st 0 xs), path st xs k update)
unfolding descend
descend_lem fuel st key xs ys enough below above zero update chains = refl
descend_lem fuel st key xs ys enough below above (suc i) update chains =
    let l = Left_lem st key i 0 xs (tall st i ys) (chains i (omega arith)) below in
    let there : walk fuel st key i (last 0 (tall st (suc i) xs)) ≡ some (last 0 (tall st i xs)) =
      walk_lem fuel st key i (last 0 (tall st (suc i) xs)) l.rest (tall st i ys)
        (omega (arith, l.short, enough)) l.chain l.below (Sides-tall st key false i ys above)
      ∙ ap some l.end in
    let ih =
      descend_lem fuel st key xs ys enough below above i (last 0 (tall st i xs) ∷ update)
        (λ j small. chains j (omega (arith, small))) in
    ground (arith, there, ih)
