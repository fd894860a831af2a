-- ===== src/Consistency/Sets.antt =====
-- pkg/consistency/crdt.go: the observed-remove set. `range` visits a map in the order of its list,
-- which Go leaves open. A map of the set that is `nil` is a missing one.
pub mod Members
use hermes.Base.{
  ℕ, ◌+◌, Bool, true, false, not, ◌||◌, Option, none, some, List, [], ◌∷◌, if◌then◌else◌, u64,
  GoString, string_eq, str_lt, nat_eq,
}
use hermes.Base.Dict.{Dict, get, put}

-- tag → removed
abbrev pub Tags : Type 0
Tags = Dict ℕ Bool

pub record OrSet : Type 0 where
  pub node_id : GoString
  pub next_tag : ℕ
  pub elements : Dict GoString Tags

pub new_or_set : GoString → OrSet
new_or_set id = record { node_id = id; next_tag = 0; elements = [] }

abbrev pub tags_or_new : Option Tags → Tags
tags_or_new none = []
tags_or_new (some tags) = tags

-- `s.elements[element]`
abbrev pub tags_of : GoString → OrSet → Tags
tags_of element s = tags_or_new (get element s.elements)

pub add : GoString → OrSet → OrSet
add element s =
    let tag = u64 (s.next_tag + 1) in
    record s {
      next_tag = tag;
      elements = put element (put tag false (tags_of element s)) s.elements;
    }

-- The loop of `Remove` over the tags it visits.
pub remove_tags : Tags → Tags → Tags
remove_tags [] tags = tags
remove_tags ((tag, removed) ∷ visited) tags = remove_tags visited (put tag true tags)

pub remove : GoString → OrSet → OrSet
unfolding remove_tags
remove element s = elim (get element s.elements) [
  | none ↦ s
  | some tags ↦ record s { elements = put element (remove_tags tags tags) s.elements }
]

pub any_present : Tags → Bool
any_present [] = false
any_present ((tag, removed) ∷ tags) = if not removed then true else any_present tags

pub contains : GoString → OrSet → Bool
unfolding any_present
contains element s = elim (get element s.elements) [ none ↦ false | some tags ↦ any_present tags ]

-- `sort.Strings` by insertion: the sorted list is determined by its elements.
insert_sorted : GoString → List GoString → List GoString
insert_sorted x [] = x ∷ []
insert_sorted x (y ∷ ys) =
    let rest = insert_sorted x ys in if str_lt y x then y ∷ rest else x ∷ y ∷ ys

sort_strings : List GoString → List GoString
unfolding insert_sorted
sort_strings [] = []
sort_strings (x ∷ xs) = insert_sorted x (sort_strings xs)

present_elements : Dict GoString Tags → List GoString
unfolding any_present
present_elements [] = []
present_elements ((element, tags) ∷ m) =
    let rest = present_elements m in if any_present tags then element ∷ rest else rest

pub elements_of : OrSet → List GoString
unfolding present_elements sort_strings
elements_of s = sort_strings (present_elements s.elements)

-- One tag of the other set: a tag that either side removed is removed.
abbrev pub merged_flag : Option Bool → Bool → Bool
merged_flag (some existing) removed = existing || removed
merged_flag none removed = removed

pub merge_tags : Tags → Tags → Tags
merge_tags [] tags = tags
merge_tags ((tag, removed) ∷ other) tags =
    merge_tags other (put tag (merged_flag (get tag tags) removed) tags)

pub merge_elements : Dict GoString Tags → Dict GoString Tags → Dict GoString Tags
unfolding merge_tags
merge_elements [] mine = mine
merge_elements ((element, other_tags) ∷ other) mine =
    merge_elements other (put element (merge_tags other_tags (tags_or_new (get element mine))) mine)

pub merge : OrSet → OrSet → OrSet
unfolding merge_elements
merge s other = record s { elements = merge_elements other.elements s.elements }
