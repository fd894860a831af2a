-- ===== src/Base/Dict.antt =====
-- A Go map as an association list; `put` keeps one binding for each key.
use mathlib.Core.Path.{◌≡◌, refl, subst}
use mathlib.Core.Bool.{true}
use mathlib.Core.Logic.{Lift, inl, inr}
use mathlib.Core.Option.{Option, none, some}
use mathlib.Core.List.{List, [], ◌∷◌}
use native.Mathlib.Omega.{arith}
use hermes.Base.Tests.{if◌then◌else◌, Bool-cases}
use hermes.Base.Keys.{Eq}

abbrev pub Dict {ℓ κ} : Type ℓ → Type κ → Type (ℓ ⊔ κ)
Dict K V = List (K × V)

module _ {ℓ κ} {K : Type ℓ} {V : Type κ} ⦃e : Eq K⦄ where
  -- `m[k]` with its `ok`
  unfoldable pub get : K → Dict K V → Option V
  get k [] = none
  get k ((j, v) ∷ m) = if e.beq j k then some v else get k m

  -- `m[k] = v`
  unfoldable pub put : K → V → Dict K V → Dict K V
  put k v [] = (k, v) ∷ []
  put k v ((j, w) ∷ m) = if e.beq j k then (k, v) ∷ m else (j, w) ∷ put k v m

  -- `delete(m, k)`
  unfoldable pub delete : K → Dict K V → Dict K V
  delete k [] = []
  delete k ((j, w) ∷ m) = let rest = delete k m in if e.beq j k then rest else (j, w) ∷ rest

  pub get-put :
      (k j : K) (v : V) (m : Dict K V) → get j (put k v m) ≡ (if e.beq k j then some v else get j m)
  unfolding get put
  get-put k j v [] = refl
  get-put k j v ((i, w) ∷ m) =
      ground (arith, e.beq_iff k j, e.beq_iff i k, e.beq_iff i j, get-put k j v m)

  pub get-delete :
      (k j : K) (m : Dict K V) → get j (delete k m) ≡ (if e.beq k j then none else get j m)
  unfolding get delete
  get-delete k j [] = ground arith
  get-delete k j ((i, w) ∷ m) =
      ground (arith, e.beq_iff k j, e.beq_iff i k, e.beq_iff i j, get-delete k j m)

  -- No key is bound twice.
  abbrev pub IsMap : Dict K V → Type (ℓ ⊔ κ)
  IsMap [] = Lift {0, ℓ ⊔ κ} Unit
  IsMap ((k, v) ∷ m) = (get k m ≡ none) × IsMap m

  pub put-IsMap : (k : K) (v : V) (m : Dict K V) → IsMap m → IsMap (put k v m)
  unfolding put get
  put-IsMap k v [] h = (refl, record { lower = tt })
  put-IsMap k v ((j, w) ∷ m) (absent, h) = elim (Bool-cases (e.beq j k)) [
    | inl same ↦ rw same (subst (λ i. get i m ≡ none) ((e.beq_iff j k).0 same) absent, h)
    | inr other ↦
        let fresh : get j (put k v m) ≡ none =
          ground (arith, e.beq_iff k j, e.beq_iff j k, get-put k j v m) in
        rw other (fresh, put-IsMap k v m h)
  ]

  pub delete-IsMap : (k : K) (m : Dict K V) → IsMap m → IsMap (delete k m)
  unfolding delete
  delete-IsMap k [] h = h
  delete-IsMap k ((j, w) ∷ m) (absent, h) = elim (Bool-cases (e.beq j k)) [
    | inl same ↦ rw same (delete-IsMap k m h)
    | inr other ↦
        let fresh : get j (delete k m) ≡ none = ground (arith, get-delete k j m) in
        rw other (fresh, delete-IsMap k m h)
  ]

pub beq_refl {ℓ} : {K : Type ℓ} ⦃e : Eq K⦄ (k : K) → e.beq k k ≡ true
beq_refl ⦃e⦄ k = (e.beq_iff k k).1 refl
