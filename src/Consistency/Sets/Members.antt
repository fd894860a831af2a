-- ===== src/Consistency/Sets/Members.antt =====
-- Membership after adding and removing, and an add that a concurrent remove undoes.
use hermes.Base.{
  ℕ, ◌+◌, ◌≡◌, ◌≢◌, refl, ap, ◌∙◌, subst, ==_iff, true, false, none, some, [], ◌∷◌, u64, GoString,
  string_eq, str_eq, str_eq_iff, nat_eq, ◌==◌, arith, Bool-cases, Option-cases, inl, inr,
}
use hermes.Base.Dict.{get, put, get-put, beq_refl, IsMap, put-IsMap}
use hermes.Consistency.Sets.{
  OrSet, Tags, tags_of, tags_or_new, new_or_set, add, remove, remove_tags, any_present, contains,
  merge, merge_elements, merge_tags,
}

put-present : (tag : ℕ) (tags : Tags) → any_present (put tag false tags) ≡ true
unfolding any_present put
put-present tag [] = refl
put-present tag ((j, removed) ∷ tags) = ground (arith, put-present tag tags)

remove_tags-get :
    (t : ℕ) (visited tags : Tags)
    → get t (remove_tags visited tags)
      ≡ elim (get t visited) [ none ↦ get t tags | some removed ↦ some true ]
unfolding remove_tags get
remove_tags-get t [] tags = refl
remove_tags-get t ((j, removed) ∷ visited) tags =
    ground (arith, remove_tags-get t visited (put j true tags), get-put j t true tags)

remove_tags-IsMap : (visited tags : Tags) → IsMap tags → IsMap (remove_tags visited tags)
unfolding remove_tags
remove_tags-IsMap [] tags m = m
remove_tags-IsMap ((j, removed) ∷ visited) tags m =
    remove_tags-IsMap visited (put j true tags) (put-IsMap j true tags m)

-- Tags none of which is there and not removed.
all_removed :
    (tags : Tags) → IsMap tags → ((t : ℕ) → get t tags ≢ some false) → any_present tags ≡ false
unfolding any_present get
all_removed [] m gone = refl
all_removed ((j, false) ∷ tags) m gone = absurd (gone j (rw (beq_refl j) refl))
all_removed ((j, true) ∷ tags) (absent, m) gone = all_removed tags m (λ t e.
    elim (Bool-cases (j == t)) [
      | inl here ↦ grind (arith, ap (λ i. get i tags) ((==_iff j t).0 here), absent, e)
      | inr there ↦ gone t (rw there e)
    ])

contains_tags :
    (element : GoString) (s : OrSet) (tags : Tags)
    → get element s.elements ≡ some tags
    → contains element s ≡ any_present tags
unfolding contains
contains_tags element s tags found = rw (found, contains) refl

contains_same :
    (element : GoString) (s s' : OrSet)
    → get element s.elements ≡ get element s'.elements
    → contains element s ≡ contains element s'
unfolding contains
contains_same element s s' e = rw (e, contains) refl

contains-add : (element : GoString) (s : OrSet) → contains element (add element s) ≡ true
unfolding add
contains-add element s =
    let tags : Tags = put (u64 (s.next_tag + 1)) false (tags_of element s) in
    contains_tags element (add element s) tags
      (get-put element element tags s.elements ∙ rw (beq_refl element) refl)
    ∙ put-present (u64 (s.next_tag + 1)) (tags_of element s)

contains-remove :
    (element : GoString) (s : OrSet)
    → IsMap (tags_of element s)
    → contains element (remove element s) ≡ false
unfolding remove contains
contains-remove element s m = elim (Option-cases (get element s.elements)) [
  | inl free ↦ rw (free, remove) (rw (free, contains) refl)
  | inr (tags, found) ↦
      let m' : IsMap tags = subst (λ o. IsMap (tags_or_new o)) found m in
      let after : Tags = remove_tags tags tags in
      let gone : (t : ℕ) → get t after ≢ some false =
        λ t e. ground (arith, remove_tags-get t tags tags) in
      rw (found, remove)
        (contains_tags element (record s { elements = put element after s.elements }) after
            (get-put element element after s.elements ∙ rw (beq_refl element) refl)
          ∙ all_removed after (remove_tags-IsMap tags tags m') gone)
]

contains-other :
    (element other : GoString) (s : OrSet)
    → element ≢ other
    → (contains other (add element s) ≡ contains other s)
      × (contains other (remove element s) ≡ contains other s)
unfolding add remove
contains-other element other s apart =
    let ne : str_eq element other ≡ false = ground (arith, str_eq_iff element other) in
    (
      contains_same other (add element s) s (
          get-put element other (put (u64 (s.next_tag + 1)) false (tags_of element s)) s.elements
          ∙ rw ne refl),
      contains_same other (remove element s) s (elim (Option-cases (get element s.elements)) [
        | inl free ↦ rw (free, remove) refl
        | inr (tags, found) ↦
            rw (found, remove)
              (get-put element other (remove_tags tags tags) s.elements ∙ rw ne refl)
      ]),
    )

-- An add puts the element in the set, a remove takes it out, and neither changes the membership of
-- another element. The element's tags bind no tag twice.
pub contains-add-remove :
    (element other : GoString) (s : OrSet)
    → IsMap (tags_of element s)
    → element ≢ other
    → (contains element (add element s) ≡ true)
      × (contains element (remove element s) ≡ false)
      × (contains other (add element s) ≡ contains other s)
      × (contains other (remove element s) ≡ contains other s)
contains-add-remove element other s m apart = (
  contains-add element s,
  contains-remove element s m,
  (contains-other element other s apart).0,
  (contains-other element other s apart).1,
)

-- An element that a new set adds is lost when it merges with another new set that has added and
-- removed the element itself: the tags of both are 1, so the remove takes the other's add with it.
pub concurrent_add_lost :
    (element here there : GoString)
    → contains element
        (merge (add element (new_or_set here)) (remove element (add element (new_or_set there))))
      ≡ false
unfolding contains merge merge_elements merge_tags add remove remove_tags new_or_set any_present get
    put
concurrent_add_lost element here there =
    let same : str_eq element element ≡ true = beq_refl element in
    let undone : remove element (add element (new_or_set there))
        ≡ record { node_id = there; next_tag = 1; elements = (element, (1, true) ∷ []) ∷ [] } =
      rw (same, remove) (rw same refl) in
    rw undone (ground (arith, same))
