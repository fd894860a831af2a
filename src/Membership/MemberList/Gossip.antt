-- ===== src/Membership/MemberList/Gossip.antt =====
-- What a node believes of another, and how updates, suspicions and refutations change it.
use hermes.Base.{
  ℕ, ◌+◌, ◌≤◌, ◌<◌, ◌≡◌, refl, ap, sym, ◌∙◌, Bool, true, false, Option, none, some, List, [], ◌∷◌,
  ◌++◌, ltb, ◌==◌, ◌||◌, ◌&&◌, if◌then◌else◌, length, length-append, length-drop, u64, u64_mod,
  GoString, str_eq, str_eq_iff, string_eq, arith, Bool-cases, Option-cases, inl, inr, subst,
}
use hermes.Base.Dict.{get, put, get-put, beq_refl}
use hermes.Membership.MemberList.{
  MemberState, alive, suspected, dead, left, state_priority, Member, MemberList, GossipUpdate,
  supersedes, new_member, apply_to, apply_update, queue_update, suspect_node, refute_suspicion,
}

-- What is believed of a node: its incarnation and its state.
abbrev pub View : Type 0
View = ℕ × MemberState

abbrev pub view_of : Option Member → Option View
view_of none = none
view_of (some m) = some (m.incarnation, m.state)

abbrev pub view : GoString → MemberList → Option View
view k ml = view_of (get k ml.members)

-- The second belief has the later incarnation, or at the same one the graver state.
abbrev pub is_worse : View → View → Bool
is_worse (i, s) (j, t) = ltb i j || ((j == i) && ltb (state_priority s) (state_priority t))

abbrev pub worse : View → View → View
worse v w = if is_worse v w then w else v

abbrev pub joined : Option View → View → View
joined none v = v
joined (some w) v = worse w v

-- Every member is kept under its own name.
abbrev pub IsKeyed : MemberList → Type 0
IsKeyed ml = (k : GoString) (m : Member) → get k ml.members ≡ some m → m.node_id ≡ k

get-apply_update :
    (now : ℕ) (u : GossipUpdate) (ml : MemberList)
    → IsKeyed ml
    → (k : GoString)
    → (view k (apply_update now u ml).1 ≡ (
        if str_eq u.node_id k
        then some (joined (view k ml) (u.incarnation, u.state))
        else view k ml))
unfolding apply_update apply_to supersedes
get-apply_update now u ml keyed k = elim (Option-cases (get u.node_id ml.members)) [
  | inl absent ↦ elim (Bool-cases (str_eq u.node_id k)) [
    | inl here ↦
        let absent' : get k ml.members ≡ none =
          subst (λ j. get j ml.members ≡ none) ((str_eq_iff u.node_id k).0 here) absent in
        ground (arith, get-put u.node_id k (new_member now u) ml.members)
    | inr there ↦ ground (arith, get-put u.node_id k (new_member now u) ml.members)
  ]
  | inr (m, found) ↦
      let own : m.node_id ≡ u.node_id = keyed u.node_id m found in
      let own' : str_eq u.node_id m.node_id ≡ true = (str_eq_iff u.node_id m.node_id).1 (sym own) in
      elim (Bool-cases (str_eq u.node_id k)) [
        | inl here ↦
            let found' : get k ml.members ≡ some m =
              subst (λ j. get j ml.members ≡ some m) ((str_eq_iff u.node_id k).0 here) found in
            ground (arith, get-put u.node_id k (new_member now u) ml.members)
        | inr there ↦ ground (arith, get-put u.node_id k (new_member now u) ml.members)
      ]
]

pub apply_update-IsKeyed :
    (now : ℕ) (u : GossipUpdate) (ml : MemberList) → IsKeyed ml → IsKeyed (apply_update now u ml).1
unfolding apply_update apply_to supersedes
apply_update-IsKeyed now u ml keyed k m found =
    ground
      (arith, get-put u.node_id k (new_member now u) ml.members, keyed k m, str_eq_iff u.node_id k)

same_priority : (s t : MemberState) → state_priority s ≡ state_priority t → s ≡ t
same_priority alive alive h = refl
same_priority suspected suspected h = refl
same_priority dead dead h = refl
same_priority left left h = refl
same_priority alive suspected h = absurd (omega (arith, h))
same_priority alive dead h = absurd (omega (arith, h))
same_priority alive left h = absurd (omega (arith, h))
same_priority suspected alive h = absurd (omega (arith, h))
same_priority suspected dead h = absurd (omega (arith, h))
same_priority suspected left h = absurd (omega (arith, h))
same_priority dead alive h = absurd (omega (arith, h))
same_priority dead suspected h = absurd (omega (arith, h))
same_priority dead left h = absurd (omega (arith, h))
same_priority left alive h = absurd (omega (arith, h))
same_priority left suspected h = absurd (omega (arith, h))
same_priority left dead h = absurd (omega (arith, h))

worse_comm : (v w : View) → worse v w ≡ worse w v
worse_comm (i, s) (j, t) = ground (arith, same_priority s t)

is_worse_trans : (o v w : View) → is_worse o v ≡ true → is_worse v w ≡ true → is_worse o w ≡ true
is_worse_trans (h, r) (i, s) (j, t) p q = ground arith

not_worse_trans :
    (o v w : View) → is_worse o v ≡ false → is_worse v w ≡ false → is_worse o w ≡ false
not_worse_trans (h, r) (i, s) (j, t) p q = ground arith

worse_assoc : (o v w : View) → worse (worse o v) w ≡ worse o (worse v w)
worse_assoc o v w = elim (Bool-cases (is_worse o v)) [
  | inl ov ↦ elim (Bool-cases (is_worse v w)) [
    | inl vw ↦ rw (ov, vw, is_worse_trans o v w ov vw) refl
    | inr wv ↦ rw (ov, wv, ov) refl
  ]
  | inr vo ↦ elim (Bool-cases (is_worse v w)) [
    | inl vw ↦ rw (vo, vw) refl
    | inr wv ↦ rw (vo, wv, vo, not_worse_trans o v w vo wv) refl
  ]
]

worse_swap : (o v w : View) → worse (worse o v) w ≡ worse (worse o w) v
worse_swap o v w = worse_assoc o v w ∙ ap (worse o) (worse_comm v w) ∙ sym (worse_assoc o w v)

joined_swap : (o : Option View) (v w : View) → worse (joined o v) w ≡ worse (joined o w) v
joined_swap none v w = worse_comm v w
joined_swap (some o) v w = worse_swap o v w

worse_idem : (v w : View) → worse (worse v w) w ≡ worse v w
worse_idem v (j, t) = worse_assoc v (j, t) (j, t) ∙ ap (worse v) (ground arith)

joined_idem : (o : Option View) (w : View) → worse (joined o w) w ≡ joined o w
joined_idem none (j, t) = ground arith
joined_idem (some v) w = worse_idem v w

-- What the update leaves believed of the node `k`.
abbrev pub heard_of : GoString → GossipUpdate → Option View → Option View
heard_of k u o = if str_eq u.node_id k then some (joined o (u.incarnation, u.state)) else o

heard_of-swap :
    (k : GoString) (u v : GossipUpdate) (o : Option View)
    → heard_of k v (heard_of k u o) ≡ heard_of k u (heard_of k v o)
heard_of-swap k u v o =
    ground (arith, joined_swap o (u.incarnation, u.state) (v.incarnation, v.state))

heard_of-twice :
    (k : GoString) (u : GossipUpdate) (o : Option View)
    → heard_of k u (heard_of k u o) ≡ heard_of k u o
heard_of-twice k u o = ground (arith, joined_idem o (u.incarnation, u.state))

-- A list that keeps every member under its own name ends with the same belief of each node, whichever
-- of two updates it applies first; and applying an update again changes no belief.
pub updates_commute :
    (now then' : ℕ) (u v : GossipUpdate) (ml : MemberList) (k : GoString)
    → IsKeyed ml
    → (view k (apply_update then' v (apply_update now u ml).1).1
        ≡ view k (apply_update now u (apply_update then' v ml).1).1)
      × (view k (apply_update then' u (apply_update now u ml).1).1
          ≡ view k (apply_update now u ml).1)
updates_commute now then' u v ml k keyed =
    let ku = apply_update-IsKeyed now u ml keyed in
    let kv = apply_update-IsKeyed then' v ml keyed in
    let first = get-apply_update now u ml keyed k in
    let second = get-apply_update then' v ml keyed k in
    (
      get-apply_update then' v (apply_update now u ml).1 ku k
          ∙ ap (heard_of k v) first
          ∙ heard_of-swap k u v (view k ml)
          ∙ sym (ap (heard_of k u) second)
          ∙ sym (get-apply_update now u (apply_update then' v ml).1 kv k),
      get-apply_update then' u (apply_update now u ml).1 ku k
          ∙ ap (heard_of k u) first
          ∙ heard_of-twice k u (view k ml)
          ∙ sym first,
    )

-- A node that suspects a live member believes so from then on, but queues no update and calls no
-- callback: the state is set before the update is applied, so the update is stale. The list keeps
-- every member under its own name.
pub suspicion_not_gossiped :
    (now : ℕ) (id : GoString) (m : Member) (ml : MemberList)
    → get id ml.members ≡ some m
    → IsKeyed ml
    → m.state ≡ alive
    → (view id (suspect_node now id ml) ≡ some (m.incarnation, suspected))
      × ((suspect_node now id ml).recent_updates ≡ ml.recent_updates)
      × ((suspect_node now id ml).notified ≡ ml.notified)
unfolding suspect_node apply_update apply_to supersedes
suspicion_not_gossiped now id m ml found keyed live =
    let own : m.node_id ≡ id = keyed id m found in
    ground (
      arith,
      beq_refl id,
      get-put id id (record m { state = suspected }) ml.members,
      get-put id id m ml.members,
      str_eq_iff id id,
    )

worse_later : (v w : View) → v.0 < w.0 → worse v w ≡ w
worse_later (i, s) (j, t) h = ground arith

-- A refutation of an incarnation that is not the last word is believed by every node that has heard
-- of no later incarnation, whatever state it believed.
pub refutation_believed :
    (now : ℕ) (self peer : MemberList) (me : Member) (w : View)
    → get self.local_id self.members ≡ some me
    → me.incarnation + 1 < u64_mod
    → IsKeyed peer
    → view self.local_id peer ≡ some w
    → w.0 ≤ me.incarnation
    → (u : GossipUpdate) × (self' : MemberList) × (refute_suspicion self ≡ some (u, self'))
      × (view self.local_id (apply_update now u peer).1 ≡ some (me.incarnation + 1, alive))
unfolding refute_suspicion
refutation_believed now self peer me w found small keyed heard old =
    let u : GossipUpdate = record {
      node_id = self.local_id;
      state = alive;
      incarnation = me.incarnation + 1;
      address = me.address;
    } in
    let self' : MemberList = record self {
      members =
          put self.local_id (record me { incarnation = me.incarnation + 1; state = alive })
            self.members;
    } in
    let wrapped : u64 (me.incarnation + 1) ≡ me.incarnation + 1 = omega (arith, small) in
    let same : str_eq self.local_id self.local_id ≡ true = beq_refl self.local_id in
    let believed : joined (some w) (me.incarnation + 1, alive) ≡ (me.incarnation + 1, alive) =
      worse_later w (me.incarnation + 1, alive) (omega (arith, old)) in
    (
      u,
      self',
      ground arith,
      get-apply_update now u peer keyed self.local_id ∙ rw (same, heard) (ap some believed),
    )

-- The queue of updates stays within 64.
pub queue_update-le :
    (u : GossipUpdate) (updates : List GossipUpdate)
    → length updates ≤ 64
    → length (queue_update u updates) ≤ 64
unfolding queue_update
queue_update-le u updates h =
    ground (arith, length-append updates (u ∷ []), length-drop 1 (updates ++ u ∷ []))
