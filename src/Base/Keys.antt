-- ===== src/Base/Keys.antt =====
-- Equality of map keys as an interface, and Go strings as lists of bytes with their order.
use Prim.Native.Nat.{ℕ}
use Prim.Native.Char.{code}
use Prim.Native.String.{String}
use mathlib.Core.Path.{◌≡◌, refl}
use mathlib.Core.Logic.{◌↔◌}
use mathlib.Core.Bool.{Bool, true, false, ◌&&◌}
use mathlib.Core.List.{List, [], ◌∷◌}
use native.Mathlib.Omega.{arith}
use hermes.Base.Tests.{◌==◌, ltb, ==_iff, if◌then◌else◌}

pub record Eq {ℓ} (A : Type ℓ) : Type ℓ where
  pub beq : A → A → Bool
  pub beq_iff : (a b : A) → (beq a b ≡ true) ↔ (a ≡ b)

instance abbrev pub nat_eq : Eq ℕ
nat_eq = record { beq = ◌==◌; beq_iff = ==_iff }

-- A Go string is a sequence of bytes.
abbrev pub GoString : Type 0
GoString = List ℕ

abbrev pub bytes : String → GoString
bytes String.[] = []
bytes (String.◌∷◌ c s) = code c ∷ bytes s

unfoldable pub str_eq : GoString → GoString → Bool
str_eq [] [] = true
str_eq [] (b ∷ bs) = false
str_eq (a ∷ as') [] = false
str_eq (a ∷ as') (b ∷ bs) = (a == b) && str_eq as' bs

pub str_eq_iff : (a b : GoString) → (str_eq a b ≡ true) ↔ (a ≡ b)
unfolding str_eq
str_eq_iff [] [] = ground arith
str_eq_iff [] (b ∷ bs) = ground arith
str_eq_iff (a ∷ as') [] = ground arith
str_eq_iff (a ∷ as') (b ∷ bs) = ground (arith, str_eq_iff as' bs)

instance abbrev pub string_eq : Eq GoString
string_eq = record { beq = str_eq; beq_iff = str_eq_iff }

-- `a < b` on Go strings: bytewise lexicographic.
unfoldable pub str_lt : GoString → GoString → Bool
str_lt [] [] = false
str_lt [] (b ∷ bs) = true
str_lt (a ∷ as') [] = false
str_lt (a ∷ as') (b ∷ bs) =
    let rest = str_lt as' bs in if ltb a b then true else if a == b then rest else false

pub str_lt_irrefl : (a : GoString) → str_lt a a ≡ false
unfolding str_lt
str_lt_irrefl [] = refl
str_lt_irrefl (a ∷ as') = ground (arith, str_lt_irrefl as')

pub str_lt_trans : (a b c : GoString) → str_lt a b ≡ true → str_lt b c ≡ true → str_lt a c ≡ true
unfolding str_lt
str_lt_trans [] [] c h k = ground arith
str_lt_trans [] (b ∷ bs) [] h k = ground arith
str_lt_trans [] (b ∷ bs) (c ∷ cs) h k = refl
str_lt_trans (a ∷ as') [] c h k = ground arith
str_lt_trans (a ∷ as') (b ∷ bs) [] h k = ground arith
str_lt_trans (a ∷ as') (b ∷ bs) (c ∷ cs) h k = ground (arith, str_lt_trans as' bs cs)

-- Two strings neither of which is below the other are the same.
pub str_lt_total : (a b : GoString) → str_lt a b ≡ false → str_lt b a ≡ false → a ≡ b
unfolding str_lt
str_lt_total [] [] h k = refl
str_lt_total [] (b ∷ bs) h k = ground arith
str_lt_total (a ∷ as') [] h k = ground arith
str_lt_total (a ∷ as') (b ∷ bs) h k = ground (arith, str_lt_total as' bs)

pub str_not_lt_trans :
    (a b c : GoString) → str_lt a b ≡ false → str_lt b c ≡ false → str_lt a c ≡ false
unfolding str_lt
str_not_lt_trans [] b [] h k = refl
str_not_lt_trans [] [] (c ∷ cs) h k = k
str_not_lt_trans [] (b ∷ bs) (c ∷ cs) h k = ground arith
str_not_lt_trans (a ∷ as') b [] h k = refl
str_not_lt_trans (a ∷ as') [] (c ∷ cs) h k = ground arith
str_not_lt_trans (a ∷ as') (b ∷ bs) (c ∷ cs) h k = ground (arith, str_not_lt_trans as' bs cs)
