-- ===== src/Storage/Bloom/Bits.antt =====
-- The bit that is set in a word, and the others.
use Prim.Native.Nat.{bit_or, digits, bit_or-bitwise}
use hermes.Base.{
  ℕ, zero, suc, ◌+◌, ◌*◌, ◌/◌, ◌%◌, ◌≤◌, ◌≡◌, max, refl, ap, ◌∙◌, Bool, true, ◌==◌, if◌then◌else◌,
  arith,
}
use hermes.Storage.Bloom.{shift_right, one_shifted}

-- The definition that the native operation stands for, with its fuel.
abbrev or_digits : ℕ → ℕ → ℕ → ℕ
or_digits n a b = digits (λ b. b) max n a b

or_digits_fuel : (n m a b : ℕ) → a ≤ n → a ≤ m → or_digits n a b ≡ or_digits m a b
or_digits_fuel zero zero a b p q = refl
or_digits_fuel zero (suc m) zero b p q = refl
or_digits_fuel zero (suc m) (suc a) b p q = absurd (omega (arith, p))
or_digits_fuel (suc n) zero zero b p q = refl
or_digits_fuel (suc n) zero (suc a) b p q = absurd (omega (arith, q))
or_digits_fuel (suc n) (suc m) zero b p q = refl
or_digits_fuel (suc n) (suc m) (suc a) b p q =
    omega (arith, or_digits_fuel n m (suc a / 2) (b / 2) (omega (arith, p)) (omega (arith, q)))

zero-bit_or : (b : ℕ) → bit_or 0 b ≡ b
zero-bit_or b = bit_or-bitwise 0 b

bit_or_step : (a b : ℕ) → bit_or a b ≡ bit_or (a / 2) (b / 2) * 2 + max (a % 2) (b % 2)
bit_or_step zero b = omega (arith, zero-bit_or b, zero-bit_or (b / 2))
bit_or_step (suc a) b = omega (
  arith,
  bit_or-bitwise (suc a) b,
  bit_or-bitwise (suc a / 2) (b / 2),
  or_digits_fuel a (suc a / 2) (suc a / 2) (b / 2) (omega arith) (omega arith),
)

bit_or-zero_fuel : (n a : ℕ) → a ≤ n → bit_or a 0 ≡ a
bit_or-zero_fuel n zero h = zero-bit_or 0
bit_or-zero_fuel zero (suc a) h = absurd (omega (arith, h))
bit_or-zero_fuel (suc n) (suc a) h =
    omega (arith, bit_or_step (suc a) 0, bit_or-zero_fuel n (suc a / 2) (omega (arith, h)))

-- The bit of a word.
abbrev pub bit : ℕ → ℕ → Bool
bit w i = shift_right w i % 2 == 1

-- Setting a bit leaves it set, and every other bit as it was.
pub bit-set : (w i j : ℕ) → bit (bit_or w (one_shifted i)) j ≡ (if i == j then true else bit w j)
unfolding shift_right one_shifted
bit-set w zero zero = ground (arith, bit_or_step w 1)
bit-set w zero (suc j) =
    let half : bit_or w 1 / 2 ≡ w / 2 =
      omega (arith, bit_or_step w 1, bit_or-zero_fuel (w / 2) (w / 2) (omega arith)) in
    ground (arith, ap (λ v. bit v j) half)
bit-set w (suc i) zero =
    let low : bit_or w (2 * one_shifted i) % 2 ≡ w % 2 =
      omega (arith, bit_or_step w (2 * one_shifted i)) in
    ground (arith, low)
bit-set w (suc i) (suc j) =
    let half : bit_or w (2 * one_shifted i) / 2 ≡ bit_or (w / 2) (one_shifted i) =
      let double : 2 * one_shifted i / 2 ≡ one_shifted i = omega arith in
      omega (arith, bit_or_step w (2 * one_shifted i), ap (bit_or (w / 2)) double) in
    ap (λ v. bit v j) half ∙ bit-set (w / 2) i j ∙ ground arith
