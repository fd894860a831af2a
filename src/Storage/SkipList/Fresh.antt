-- ===== src/Storage/SkipList/Fresh.antt =====
-- Nodes and heights around a fresh address, and the path to it.
use hermes.Base.{
  ℕ, zero, suc, ◌+◌, ◌<◌, ◌≤◌, ◌≡◌, ◌≢◌, refl, sym, ap, subst, List, [], ◌∷◌, ◌++◌, inl, inr,
  length, take, ltb, Bool-cases, arith,
}
use hermes.Storage.SkipList.{Nodes, nils, heads}
use hermes.Storage.SkipList.Chain.{last, height, Avoids, Distinct}
use hermes.Storage.SkipList.Linking.{IsPath}
use hermes.Storage.SkipList.Search.{tall, path}
use hermes.Storage.SkipList.Represents.{Heights, Under}

pub length-nils : (n : ℕ) → length (nils n) ≡ n
length-nils zero = refl
length-nils (suc n) = ap suc (length-nils n)

pub length-heads : (n : ℕ) → length (heads n) ≡ n
length-heads zero = refl
length-heads (suc n) = ap suc (length-heads n)

pub Under-Avoids : (n : ℕ) (xs : List ℕ) → Under n xs → Avoids n xs
Under-Avoids n [] h = tt
Under-Avoids n (a ∷ xs) (small, h) = (λ e. omega (arith, small, e), Under-Avoids n xs h)

Under-suc : (n : ℕ) (xs : List ℕ) → Under n xs → Under (suc n) xs
Under-suc n [] h = tt
Under-suc n (a ∷ xs) (small, h) = (omega (arith, small), Under-suc n xs h)

pub Under-insert : (n : ℕ) (xs ys : List ℕ) → Under n (xs ++ ys) → Under (suc n) (xs ++ (n ∷ ys))
Under-insert n [] ys h = (omega arith, Under-suc n ys h)
Under-insert n (a ∷ xs) ys (small, h) = (omega (arith, small), Under-insert n xs ys h)

Avoids-insert : (a n : ℕ) (xs ys : List ℕ) → a ≢ n → Avoids a (xs ++ ys) → Avoids a (xs ++ (n ∷ ys))
Avoids-insert a n [] ys other h = (other, h)
Avoids-insert a n (x ∷ xs) ys other (here, h) = (here, Avoids-insert a n xs ys other h)

pub Distinct-insert :
    (n : ℕ) (xs ys : List ℕ) → Avoids n (xs ++ ys) → Distinct (xs ++ ys) → Distinct (xs ++ (n ∷ ys))
Distinct-insert n [] ys fresh h = (fresh, h)
Distinct-insert n (x ∷ xs) ys (n_x, fresh) (here, h) =
    (Avoids-insert x n xs ys (λ e. n_x (sym e)) here, Distinct-insert n xs ys fresh h)

pub Avoids-tall : (st : Nodes) (i a : ℕ) (xs : List ℕ) → Avoids a xs → Avoids a (tall st i xs)
unfolding tall
Avoids-tall st i a [] h = tt
Avoids-tall st i a (x ∷ xs) (here, h) = elim (Bool-cases (ltb i (height st x))) [
  | inl on ↦ rw on (here, Avoids-tall st i a xs h)
  | inr off ↦ rw off (Avoids-tall st i a xs h)
]

pub Distinct-tall : (st : Nodes) (i : ℕ) (xs : List ℕ) → Distinct xs → Distinct (tall st i xs)
unfolding tall
Distinct-tall st i [] h = tt
Distinct-tall st i (x ∷ xs) (here, h) = elim (Bool-cases (ltb i (height st x))) [
  | inl on ↦ rw on (Avoids-tall st i x xs here, Distinct-tall st i xs h)
  | inr off ↦ rw off (Distinct-tall st i xs h)
]

-- Which nodes reach a level depends on their own heights.
pub tall-frame :
    (st st' : Nodes) (i u : ℕ) (xs : List ℕ)
    → ((b : ℕ) → b ≢ u → height st' b ≡ height st b)
    → Avoids u xs
    → tall st' i xs ≡ tall st i xs
unfolding tall
tall-frame st st' i u [] same h = refl
tall-frame st st' i u (a ∷ xs) same (u_a, h) =
    let ih = tall-frame st st' i u xs same h in
    let here = same a (λ e. u_a (sym e)) in ground (arith, here, ih)

pub Heights-insert :
    (st st' : Nodes) (n n' u : ℕ) (xs ys : List ℕ)
    → n ≤ n'
    → ((b : ℕ) → b ≢ u → height st' b ≡ height st b)
    → 0 < height st' u
    → height st' u ≤ n'
    → Avoids u (xs ++ ys)
    → Heights st n (xs ++ ys)
    → Heights st' n' (xs ++ (u ∷ ys))
Heights-insert st st' n n' u (a ∷ xs) ys more same some' small (u_a, avoids) (low, high, h) =
    let here = same a (λ e. u_a (sym e)) in
    (
      omega (arith, low, here),
      omega (arith, high, more, here),
      Heights-insert st st' n n' u xs ys more same some' small avoids h,
    )
Heights-insert st st' n n' u [] ys more same some' small avoids h = (some', small, tail ys avoids h)
  where
    tail : (ys : List ℕ) → Avoids u ys → Heights st n ys → Heights st' n' ys
    tail [] avoids h = tt
    tail (a ∷ ys) (u_a, avoids) (low, high, h) = (
      omega (arith, low, same a (λ e. u_a (sym e))),
      omega (arith, high, more, same a (λ e. u_a (sym e))),
      tail ys avoids h,
    )

-- The collected path, with the head for the levels above it, ends in front of the new node.
pub IsPath-heads : (X : ℕ → List ℕ) (i n : ℕ) → ((j : ℕ) → i ≤ j → X j ≡ []) → IsPath X i (heads n)
IsPath-heads X i zero top = tt
IsPath-heads X i (suc n) top = (
  sym (ap (last 0) (top i (omega arith))),
  IsPath-heads X (i + 1) n (λ j more. top j (omega (arith, more))),
)

pub IsPath-take : (X : ℕ → List ℕ) (i n : ℕ) (us : List ℕ) → IsPath X i us → IsPath X i (take n us)
IsPath-take X i zero us h = tt
IsPath-take X i (suc n) [] h = tt
IsPath-take X i (suc n) (u ∷ us) (here, h) = (here, IsPath-take X (i + 1) n us h)

pub IsPath-path :
    (st : Nodes) (xs : List ℕ) (k : ℕ) (us : List ℕ)
    → IsPath (λ j. tall st j xs) k us
    → IsPath (λ j. tall st j xs) 0 (path st xs k us)
IsPath-path st xs zero us h = h
IsPath-path st xs (suc i) us h =
    let next : suc i ≡ i + 1 = omega arith in
    IsPath-path st xs i (last 0 (tall st i xs) ∷ us)
      (refl, subst (λ j. IsPath (λ j. tall st j xs) j us) next h)

pub path-append :
    (st : Nodes) (xs : List ℕ) (k : ℕ) (us vs : List ℕ)
    → path st xs k us ++ vs ≡ path st xs k (us ++ vs)
path-append st xs zero us vs = refl
path-append st xs (suc i) us vs = path-append st xs i (last 0 (tall st i xs) ∷ us) vs

pub length-path :
    (st : Nodes) (xs : List ℕ) (k : ℕ) (us : List ℕ) → length (path st xs k us) ≡ k + length us
length-path st xs zero us = omega arith
length-path st xs (suc i) us = omega (arith, length-path st xs i (last 0 (tall st i xs) ∷ us))
