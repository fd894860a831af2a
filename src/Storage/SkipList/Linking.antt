-- ===== src/Storage/SkipList/Linking.antt =====
-- The loop of `Put` that links a node in at each of its levels.
use hermes.Base.{
  ℕ, zero, suc, ◌+◌, ◌<◌, ◌≤◌, ◌≡◌, ◌≢◌, refl, sym, ◌∙◌, subst, some, List, [], ◌∷◌, ◌++◌, ◌⊎◌, inl,
  length, get_elem?, arith,
}
use native.Mathlib.Decide.{ℕ_discrete}
use hermes.Storage.SkipList.{Ptr, Nodes, forward_of, set_forward, link}
use hermes.Storage.SkipList.Chain.{
  head, last, Chain, Avoids, Distinct, Chain-last, Chain-same, Chain-insert, Avoids-last, height,
  set_forward_lem, Avoids-append-left,
}

-- An index below the number of pointers has one.
pub height-forward :
    (st : Nodes) (a i : ℕ) → i < height st a → (p : Ptr) × (forward_of st a i ≡ some p)
unfolding forward_of
height-forward st a i small = at i (st a).forward small
  where
    at : (i : ℕ) (ps : List Ptr) → i < length ps → (p : Ptr) × (get_elem? ps i ≡ some p)
    at i [] small = absurd (omega (arith, small))
    at zero (p ∷ ps) small = (p, refl)
    at (suc i) (p ∷ ps) small = at i ps (omega (arith, small))

-- The path ends, at each level from `i` on, at the last node in front of the new one.
abbrev pub IsPath : (ℕ → List ℕ) → ℕ → List ℕ → Type 0
IsPath X i [] = Unit {0}
IsPath X i (u ∷ us) = (u ≡ last 0 (X i)) × IsPath X (i + 1) us

-- `X` and `Y` are, at each level, the nodes in front of the new one and behind it.
module _ (X Y : ℕ → List ℕ) (new : ℕ) (distinct : (j : ℕ) → Distinct (0 ∷ (X j ++ Y j)))
    (avoids : (j : ℕ) → Avoids new (0 ∷ (X j ++ Y j))) where
  -- One pass of the loop.
  record Linked (st st' : Nodes) (i : ℕ) : Type 0 where
    linked : Chain st' i (0 ∷ (X i ++ (new ∷ Y i)))
    others : (a j : ℕ) → j ≢ i → forward_of st' a j ≡ forward_of st a j
    heights : (b : ℕ) → height st' b ≡ height st b
    entries : (b : ℕ) → (st' b).entry ≡ (st b).entry

  one_pass :
      (i : ℕ) (st : Nodes)
      → Chain st i (0 ∷ (X i ++ Y i))
      → i < height st new
      → (st1 st2 : Nodes) × (forward_of st (last 0 (X i)) i ≡ some (head (Y i)))
        × (set_forward new i (head (Y i)) st ≡ some st1)
        × (set_forward (last 0 (X i)) i (some new) st1 ≡ some st2)
        × Linked st st2 i
  one_pass i st chain tall =
      let u = last 0 (X i) in
      let at_u = Chain-last st i 0 (X i) (Y i) chain in
      let (p, at_new) = height-forward st new i tall in
      let (st1, first, c1) = set_forward_lem new i (head (Y i)) p st at_new in
      let n_u : new ≢ u =
        Avoids-last new 0 (X i) (Avoids-append-left new (0 ∷ X i) (Y i) (avoids i)) in
      let at_u1 : forward_of st1 u i ≡ some (head (Y i)) =
        c1.other_nodes u i (λ e. n_u (sym e)) ∙ at_u in
      let (st2, second, c2) = set_forward_lem u i (some new) (head (Y i)) st1 at_u1 in
      (
        st1,
        st2,
        at_u,
        first,
        second,
        record {
          linked =
              Chain-insert st st2 i new 0 (X i) (Y i) (distinct i) (avoids i)
                (λ a not_u not_new. c2.other_nodes a i not_u ∙ c1.other_nodes a i not_new) c2.at_a
                (c2.other_nodes new i n_u ∙ c1.at_a) chain;
          others = λ a j other. c2.other_levels a j other ∙ c1.other_levels a j other;
          heights = λ b. c2.heights b ∙ c1.heights b;
          entries = λ b. c2.entries b ∙ c1.entries b;
        },
      )

  -- The levels from `i` to below `k` lead through the new node, all others are as they were.
  pub record LinkedFrom (st st' : Nodes) (i k : ℕ) : Type 0 where
    pub linked : (j : ℕ) → i ≤ j → j < k → Chain st' j (0 ∷ (X j ++ (new ∷ Y j)))
    pub others : (a j : ℕ) → (j < i) ⊎ (k ≤ j) → forward_of st' a j ≡ forward_of st a j
    pub heights : (b : ℕ) → height st' b ≡ height st b
    pub entries : (b : ℕ) → (st' b).entry ≡ (st b).entry

  pub link_lem :
      (i : ℕ) (us : List ℕ) (st : Nodes)
      → IsPath X i us
      → ((j : ℕ) → i ≤ j → j < i + length us → Chain st j (0 ∷ (X j ++ Y j)))
      → i + length us ≤ height st new
      → (st' : Nodes) × (link new i us st ≡ some st') × LinkedFrom st st' i (i + length us)
  unfolding link
  link_lem i [] st path chains tall = (
    st,
    refl,
    record {
      linked = λ j low high. absurd (omega (arith, low, high));
      others = λ a j out. refl;
      heights = λ b. refl;
      entries = λ b. refl;
    },
  )
  link_lem i (u ∷ us) st (here, path) chains tall =
      let (st1, st2, at_u, first, second, l) =
        one_pass i st (chains i (omega arith) (omega arith)) (omega (arith, tall)) in
      let later : (j : ℕ) → i + 1 ≤ j → j < i + 1 + length us → Chain st2 j (0 ∷ (X j ++ Y j)) =
        λ j low high.
          Chain-same st st2 j (0 ∷ (X j ++ Y j)) (λ a. l.others a j (omega (arith, low)))
            (chains j (omega (arith, low)) (omega (arith, high))) in
      let tall' : i + 1 + length us ≤ height st2 new = omega (arith, tall, l.heights new) in
      let (st', rest, r) = link_lem (i + 1) us st2 path later tall' in
      let at_i : Chain st' i (0 ∷ (X i ++ (new ∷ Y i))) =
        Chain-same st2 st' i (0 ∷ (X i ++ (new ∷ Y i))) (λ a. r.others a i (inl (omega arith)))
          l.linked in
      (
        st',
        rw (here, at_u, first, second) rest,
        record {
          linked = λ j low high. elim (ℕ_discrete j i) [
            | yes same ↦ subst (λ k. Chain st' k (0 ∷ (X k ++ (new ∷ Y k)))) (sym same) at_i
            | no other ↦ r.linked j (omega (arith, low, other)) (omega (arith, high))
          ];
          others = λ a j out. r.others a j (omega (arith, out)) ∙ l.others a j (omega (arith, out));
          heights = λ b. r.heights b ∙ l.heights b;
          entries = λ b. r.entries b ∙ l.entries b;
        },
      )
