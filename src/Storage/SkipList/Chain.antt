-- ===== src/Storage/SkipList/Chain.antt =====
-- The nodes of one level as a linked list.
use hermes.Base.{
  ℕ, zero, suc, ◌≡◌, ◌≢◌, refl, sym, ap, ◌∙◌, none, some, List, [], ◌∷◌, ◌++◌, inl, inr, length,
  get_elem?, ◌==◌, Bool-cases, arith,
}
use hermes.Storage.SkipList.{Ptr, Node, Nodes, write, set_elem, forward_of, set_forward}

abbrev pub head : List ℕ → Ptr
head [] = none
head (x ∷ xs) = some x

abbrev pub last : ℕ → List ℕ → ℕ
last c [] = c
last c (x ∷ xs) = last x xs

-- Each node's pointer at the level leads to the node after it, the last one's is nil.
abbrev pub Chain : Nodes → ℕ → List ℕ → Type 0
Chain st i [] = Unit {0}
Chain st i (a ∷ xs) = (forward_of st a i ≡ some (head xs)) × Chain st i xs

abbrev pub Avoids : ℕ → List ℕ → Type 0
Avoids a [] = Unit {0}
Avoids a (x ∷ xs) = (a ≢ x) × Avoids a xs

abbrev pub Distinct : List ℕ → Type 0
Distinct [] = Unit {0}
Distinct (x ∷ xs) = Avoids x xs × Distinct xs

pub Avoids-append-left : (a : ℕ) (xs ys : List ℕ) → Avoids a (xs ++ ys) → Avoids a xs
Avoids-append-left a [] ys h = tt
Avoids-append-left a (x ∷ xs) ys (here, h) = (here, Avoids-append-left a xs ys h)

pub Avoids-append-right : (a : ℕ) (xs ys : List ℕ) → Avoids a (xs ++ ys) → Avoids a ys
Avoids-append-right a [] ys h = h
Avoids-append-right a (x ∷ xs) ys (here, h) = Avoids-append-right a xs ys h

pub Distinct-append-right : (xs ys : List ℕ) → Distinct (xs ++ ys) → Distinct ys
Distinct-append-right [] ys h = h
Distinct-append-right (x ∷ xs) ys (here, h) = Distinct-append-right xs ys h

-- The last node of a list is among its nodes.
pub Avoids-last : (a x : ℕ) (xs : List ℕ) → Avoids a (x ∷ xs) → a ≢ last x xs
Avoids-last a x [] (here, h) = here
Avoids-last a x (y ∷ ys) (here, h) = Avoids-last a y ys h

pub last-Avoids : (x : ℕ) (xs ys : List ℕ) → Distinct (x ∷ (xs ++ ys)) → Avoids (last x xs) ys
last-Avoids x [] ys (here, h) = here
last-Avoids x (y ∷ xs) ys (here, h) = last-Avoids y xs ys h

pub Chain-last :
    (st : Nodes) (i c : ℕ) (xs ys : List ℕ)
    → Chain st i (c ∷ (xs ++ ys))
    → forward_of st (last c xs) i ≡ some (head ys)
Chain-last st i c [] ys (here, h) = here
Chain-last st i c (x ∷ xs) ys (here, h) = Chain-last st i x xs ys h

pub Chain-right : (st : Nodes) (i : ℕ) (xs ys : List ℕ) → Chain st i (xs ++ ys) → Chain st i ys
Chain-right st i [] ys h = h
Chain-right st i (x ∷ xs) ys (here, h) = Chain-right st i xs ys h

-- A level is a chain still where no pointer of it changed.
pub Chain-same :
    (st st' : Nodes) (i : ℕ) (xs : List ℕ)
    → ((a : ℕ) → forward_of st' a i ≡ forward_of st a i)
    → Chain st i xs
    → Chain st' i xs
Chain-same st st' i [] same h = tt
Chain-same st st' i (x ∷ xs) same (here, h) = (same x ∙ here, Chain-same st st' i xs same h)

-- A level is a chain still where a pointer changed of nodes outside it.
pub Chain-frame :
    (st st' : Nodes) (i u v : ℕ) (xs : List ℕ)
    → ((a : ℕ) → a ≢ u → a ≢ v → forward_of st' a i ≡ forward_of st a i)
    → Avoids u xs
    → Avoids v xs
    → Chain st i xs
    → Chain st' i xs
Chain-frame st st' i u v [] same not_u not_v h = tt
Chain-frame st st' i u v (x ∷ xs) same (u_x, not_u) (v_x, not_v) (here, h) = (
  same x (λ e. u_x (sym e)) (λ e. v_x (sym e)) ∙ here,
  Chain-frame st st' i u v xs same not_u not_v h,
)

-- Two pointers link a node in behind the last one of `xs`.
pub Chain-insert :
    (st st' : Nodes) (i new c : ℕ) (xs ys : List ℕ)
    → Distinct (c ∷ (xs ++ ys))
    → Avoids new (c ∷ (xs ++ ys))
    → ((a : ℕ) → a ≢ last c xs → a ≢ new → forward_of st' a i ≡ forward_of st a i)
    → forward_of st' (last c xs) i ≡ some (some new)
    → forward_of st' new i ≡ some (head ys)
    → Chain st i (c ∷ (xs ++ ys))
    → Chain st' i (c ∷ (xs ++ (new ∷ ys)))
Chain-insert st st' i new c [] ys (c_ys, distinct) (n_c, n_ys) same at_u at_new (here, h) =
    (at_u, (at_new, Chain-frame st st' i c new ys same c_ys n_ys h))
Chain-insert st st' i new c (x ∷ xs) ys (c_x, distinct) (n_c, n_x) same at_u at_new (here, h) = (
  same c (Avoids-last c x xs (Avoids-append-left c (x ∷ xs) ys c_x)) (λ e. n_c (sym e)) ∙ here,
  Chain-insert st st' i new x xs ys distinct n_x same at_u at_new h,
)

abbrev pub height : Nodes → ℕ → ℕ
height st a = length (st a).forward

set_elem-get :
    (i : ℕ) (v p : Ptr) (ps : List Ptr)
    → get_elem? ps i ≡ some p
    → (qs : List Ptr) × (set_elem i v ps ≡ some qs)
      × (length qs ≡ length ps)
      × (get_elem? qs i ≡ some v)
      × ((j : ℕ) → j ≢ i → get_elem? qs j ≡ get_elem? ps j)
unfolding set_elem
set_elem-get i v p [] at = absurd (ground (arith, at))
set_elem-get zero v p (q ∷ ps) at = (v ∷ ps, refl, refl, refl, others)
  where
    others : (j : ℕ) → j ≢ 0 → get_elem? (v ∷ ps) j ≡ get_elem? (q ∷ ps) j
    others zero other = absurd (other refl)
    others (suc j) other = refl
set_elem-get (suc i) v p (q ∷ ps) at =
    let (qs, done, len, here, others) = set_elem-get i v p ps at in
    (q ∷ qs, ground (arith, done), ap suc len, here, shifted i q qs ps others)
  where
    shifted :
        (i : ℕ) (q : Ptr) (qs ps : List Ptr)
        → ((j : ℕ) → j ≢ i → get_elem? qs j ≡ get_elem? ps j)
        → (j : ℕ) → j ≢ suc i
        → get_elem? (q ∷ qs) j ≡ get_elem? (q ∷ ps) j
    shifted i q qs ps others zero other = refl
    shifted i q qs ps others (suc j) other = others j (λ e. other (ap suc e))

pub write-same : (a : ℕ) (n : Node) (st : Nodes) → write a n st a ≡ n
unfolding write
write-same a n st = ground arith

pub write-other : (a : ℕ) (n : Node) (st : Nodes) (b : ℕ) → b ≢ a → write a n st b ≡ st b
unfolding write
write-other a n st b other = ground (arith, other)

-- What a node keeps when it is written, every node keeps.
pub write-keeps {ℓ} :
    {A : Type ℓ} (f : Node → A) (a : ℕ) (n : Node) (st : Nodes)
    → f n ≡ f (st a)
    → (b : ℕ) → f (write a n st b) ≡ f (st b)
write-keeps f a n st kept b = elim (Bool-cases (b == a)) [
  | inl same ↦
      let e : b ≡ a = ground (arith, same) in
      ap f (ap (write a n st) e ∙ write-same a n st) ∙ kept ∙ ap (λ c. f (st c)) (sym e)
  | inr other ↦ ap f (write-other a n st b (ground (arith, other)))
]

-- Nodes that differ in one pointer at most.
pub record Changed (st st' : Nodes) (a i : ℕ) (v : Ptr) : Type 0 where
  pub at_a : forward_of st' a i ≡ some v
  pub other_nodes : (b j : ℕ) → b ≢ a → forward_of st' b j ≡ forward_of st b j
  pub other_levels : (b j : ℕ) → j ≢ i → forward_of st' b j ≡ forward_of st b j
  pub heights : (b : ℕ) → height st' b ≡ height st b
  pub entries : (b : ℕ) → (st' b).entry ≡ (st b).entry

pub set_forward_lem :
    (a i : ℕ) (v p : Ptr) (st : Nodes)
    → forward_of st a i ≡ some p
    → (st' : Nodes) × (set_forward a i v st ≡ some st') × Changed st st' a i v
unfolding set_forward forward_of
set_forward_lem a i v p st at =
    let (qs, done, len, here, others) = set_elem-get i v p (st a).forward at in
    let n : Node = record (st a) { forward = qs } in
    (
      write a n st,
      ground (arith, done),
      record {
        at_a = ap (λ m. get_elem? m.forward i) (write-same a n st) ∙ here;
        other_nodes = λ b j other. ap (λ m. get_elem? m.forward j) (write-other a n st b other);
        other_levels =
            λ b j other. write-keeps (λ m. get_elem? m.forward j) a n st (others j other) b;
        heights = write-keeps (λ m. length m.forward) a n st len;
        entries = write-keeps (λ m. m.entry) a n st refl;
      },
    )
