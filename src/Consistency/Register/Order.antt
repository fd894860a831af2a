-- ===== src/Consistency/Register/Order.antt =====
-- The order of timestamps and then of writers, in which registers merge.
use hermes.Base.{
  ℕ, ◌<◌, ◌≡◌, refl, Bool, true, false, ◌&&◌, ◌||◌, if◌then◌else◌, i64_lt, ◌==◌, GoString, str_lt,
  str_lt_irrefl, str_lt_trans, str_not_lt_trans, str_lt_total, arith, ap, ◌∙◌, sym, u64_mod,
  Bool-cases, inl, inr,
}
use hermes.Consistency.Register.{LwwRegister, merge}

-- A write: its value, its timestamp and its writer.
abbrev pub Write : Type 0 → Type 0
Write A = A × ℕ × GoString

-- What a register holds besides its own node.
abbrev pub content : {A : Type 0} → LwwRegister A → Write A
content r = (r.value, r.timestamp, r.writer_id)

-- The second write is later: by its timestamp or, at the same time, by its writer.
abbrev pub is_later : {A : Type 0} → Write A → Write A → Bool
is_later (v, t, w) (v', t', w') = i64_lt t t' || ((t' == t) && str_lt w w')

abbrev pub later : {A : Type 0} → Write A → Write A → Write A
later x y = if is_later x y then y else x

content-merge :
    {A : Type 0} (r other : LwwRegister A)
    → content (merge r other) ≡ later (content r) (content other)
unfolding merge
content-merge r other = ground arith

module _ {A : Type 0} where
  is_later_trans :
      (x y z : Write A) → is_later x y ≡ true → is_later y z ≡ true → is_later x z ≡ true
  is_later_trans (u, t, w) (u', t', w') (u'', t'', w'') h k = ground (arith, str_lt_trans w w' w'')

  not_later_trans :
      (x y z : Write A)
      → x.1 < u64_mod
      → y.1 < u64_mod
      → z.1 < u64_mod
      → is_later x y ≡ false
      → is_later y z ≡ false
      → is_later x z ≡ false
  not_later_trans (u, t, w) (u', t', w') (u'', t'', w'') p q r h k =
      ground (arith, str_not_lt_trans w w' w'')

  later_assoc :
      (x y z : Write A)
      → x.1 < u64_mod
      → y.1 < u64_mod
      → z.1 < u64_mod
      → later (later x y) z ≡ later x (later y z)
  later_assoc x y z p q r = elim (Bool-cases (is_later x y)) [
    | inl xy ↦ elim (Bool-cases (is_later y z)) [
      | inl yz ↦ rw (xy, yz, is_later_trans x y z xy yz) refl
      | inr zy ↦ rw (xy, zy, xy) refl
    ]
    | inr yx ↦ elim (Bool-cases (is_later y z)) [
      | inl yz ↦ rw (yx, yz) refl
      | inr zy ↦ rw (yx, zy, yx, not_later_trans x y z p q r yx zy) refl
    ]
  ]

  is_later_irrefl : (x : Write A) → is_later x x ≡ false
  is_later_irrefl (u, t, w) = ground (arith, str_lt_irrefl w)

  is_later_total :
      (x y : Write A)
      → x.1 < u64_mod
      → y.1 < u64_mod
      → is_later x y ≡ false
      → is_later y x ≡ false
      → (x.1 ≡ y.1) × (x.2 ≡ y.2)
  is_later_total (u, t, w) (u', t', w') p q h k = ground (arith, str_lt_total w w')

  later_comm :
      (x y : Write A)
      → x.1 < u64_mod
      → y.1 < u64_mod
      → (x.1 ≡ y.1 → x.2 ≡ y.2 → x.0 ≡ y.0)
      → later x y ≡ later y x
  later_comm x y p q same = elim (Bool-cases (is_later x y)) [
    | inl xy ↦ elim (Bool-cases (is_later y x)) [
      | inl yx ↦ absurd (grind (arith, is_later_trans x y x xy yx, is_later_irrefl x))
      | inr no' ↦ rw (xy, no') refl
    ]
    | inr no' ↦ elim (Bool-cases (is_later y x)) [
      | inl yx ↦ rw (no', yx) refl
      | inr also' ↦
          let (t, w) = is_later_total x y p q no' also' in
          let e : x ≡ y = λ i. (same t w i, t i, w i) in rw (no', also') e
    ]
  ]

-- A merge takes the later of the two writes, and an equal one changes nothing. So merging
-- associates, merging a register with itself changes nothing, and merging commutes if two writes of
-- one writer at one time have one value. Timestamps are 64-bit patterns.
pub registers_join :
    {A : Type 0} (a b c : LwwRegister A)
    → a.timestamp < u64_mod
    → b.timestamp < u64_mod
    → c.timestamp < u64_mod
    → (a.timestamp ≡ b.timestamp → a.writer_id ≡ b.writer_id → a.value ≡ b.value)
    → (content (merge (merge a b) c) ≡ content (merge a (merge b c)))
      × (content (merge a a) ≡ content a)
      × (content (merge a b) ≡ content (merge b a))
registers_join a b c p q r same = (
  content-merge (merge a b) c
      ∙ ap (λ x. later x (content c)) (content-merge a b)
      ∙ later_assoc (content a) (content b) (content c) p q r
      ∙ sym (content-merge a (merge b c) ∙ ap (later (content a)) (content-merge b c)),
  content-merge a a ∙ rw (is_later_irrefl (content a)) refl,
  content-merge a b ∙ later_comm (content a) (content b) p q same ∙ sym (content-merge b a),
)
