-- ===== src/Membership/MemberList.antt =====
-- pkg/membership/memberlist.go. The mutex makes each call one step; where a method lets go of it
-- and calls another, the model runs the two in a row. A callback that the source starts in a
-- goroutine is a notification in a list. Times are numbers of nanoseconds, and readings of the clock
-- are arguments. `range` visits a map in the order of its list.
pub mod Gossip
use hermes.Base.{
  ℕ, ◌+◌, ◌-◌, Bool, true, false, ◌&&◌, ◌||◌, not, Option, none, some, List, [], ◌∷◌, ◌++◌, ltb,
  ◌==◌, if◌then◌else◌, length, take, drop, u64, GoString, str_eq, string_eq,
}
use hermes.Base.Dict.{Dict, get, put, delete}

pub data MemberState : Type 0 where
  alive suspected dead left : MemberState

pub record Member : Type 0 where
  pub node_id : GoString
  pub address : GoString
  pub state : MemberState
  pub incarnation : ℕ
  pub last_seen : ℕ
  pub meta : Dict GoString GoString

abbrev pub state_priority : MemberState → ℕ
state_priority alive = 0
state_priority suspected = 1
state_priority dead = 2
state_priority left = 3

pub supersedes : Member → Member → Bool
supersedes m other =
    if str_eq m.node_id other.node_id
    then if ltb other.incarnation m.incarnation
      then true
      else if ltb m.incarnation other.incarnation
      then false
      else ltb (state_priority other.state) (state_priority m.state)
    else false

pub record GossipUpdate : Type 0 where
  pub node_id : GoString
  pub state : MemberState
  pub incarnation : ℕ
  pub address : GoString

pub data Notification : Type 0 where
  join leave suspect died : Member → Notification

pub record MemberList : Type 0 where
  pub local_id : GoString
  pub members : Dict GoString Member
  pub dead_gc_period : ℕ
  pub recent_updates : List GossipUpdate
  pub notified : List Notification

abbrev pub new_member : ℕ → GossipUpdate → Member
new_member now u = record {
  node_id = u.node_id;
  address = u.address;
  state = u.state;
  incarnation = u.incarnation;
  last_seen = now;
  meta = [];
}

unfoldable pub new_member_list : ℕ → GoString → MemberList
new_member_list now id = record {
  local_id = id;
  members =
      put id
        (new_member now (record { node_id = id; state = alive; incarnation = 1; address = [] })) [];
  dead_gc_period = 300000000000;
  recent_updates = [];
  notified = [];
}

-- A list longer than 64 loses its first entry.
pub queue_update : GossipUpdate → List GossipUpdate → List GossipUpdate
queue_update u updates =
    let longer = updates ++ u ∷ [] in if ltb 64 (length longer) then drop 1 longer else longer

abbrev pub same_state : MemberState → MemberState → Bool
same_state a b = state_priority a == state_priority b

-- The callback that a change of state starts.
abbrev pub notification : MemberState → Member → List Notification
notification before m = elim m.state [
  | suspected ↦ suspect m ∷ []
  | dead ↦ died m ∷ []
  | left ↦ leave m ∷ []
  | alive ↦ elim before [ suspected ↦ join m ∷ [] | dead ↦ join m ∷ [] | _ ↦ [] ]
]

abbrev pub announce : GossipUpdate → List Notification → MemberList → MemberList
announce u ns ml = record ml {
  recent_updates = queue_update u ml.recent_updates;
  notified = ml.notified ++ ns;
}

pub apply_to : Option Member → Member → GossipUpdate → MemberList → Bool × MemberList
unfolding supersedes
apply_to none new u ml =
    (true, announce u (join new ∷ []) (record ml { members = put u.node_id new ml.members }))
apply_to (some existing) new u ml =
    let ml' = record ml { members = put u.node_id new ml.members } in
    if supersedes new existing
    then (
      true,
      if same_state existing.state new.state
          then ml'
          else announce u (notification existing.state new) ml',
    )
    else (false, ml)

pub apply_update : ℕ → GossipUpdate → MemberList → Bool × MemberList
unfolding apply_to
apply_update now u ml = apply_to (get u.node_id ml.members) (new_member now u) u ml

abbrev pub is_alive : MemberState → Bool
is_alive alive = true
is_alive _ = false

abbrev pub is_dead : MemberState → Bool
is_dead dead = true
is_dead _ = false

pub suspect_node : ℕ → GoString → MemberList → MemberList
unfolding apply_update
suspect_node now id ml = elim (get id ml.members) [
  | none ↦ ml
  | some m ↦
      let u : GossipUpdate = record {
        node_id = id;
        state = suspected;
        incarnation = m.incarnation;
        address = m.address;
      } in
      let ml' = record ml { members = put id (record m { state = suspected }) ml.members } in
      if is_alive m.state then (apply_update now u ml').1 else ml
]

pub confirm_dead : ℕ → GoString → MemberList → MemberList
unfolding apply_update
confirm_dead now id ml = elim (get id ml.members) [
  | none ↦ ml
  | some m ↦
      let u : GossipUpdate = record {
        node_id = id;
        state = dead;
        incarnation = m.incarnation;
        address = [];
      } in
      let ml' = record ml { members = put id (record m { state = dead }) ml.members } in
      if is_dead m.state then ml else (apply_update now u ml').1
]

-- `none` is the panic where the local node is not a member.
pub refute_suspicion : MemberList → Option (GossipUpdate × MemberList)
refute_suspicion ml = elim (get ml.local_id ml.members) [
  | none ↦ none
  | some self ↦
      let incarnation = u64 (self.incarnation + 1) in
      some (
        record {
          node_id = ml.local_id;
          state = alive;
          incarnation = incarnation;
          address = self.address;
        },
        record ml {
          members =
              put ml.local_id (record self { incarnation = incarnation; state = alive }) ml.members;
        },
      )
]

alive_in : Dict GoString Member → List Member
alive_in [] = []
alive_in ((id, m) ∷ ms) = let rest = alive_in ms in if is_alive m.state then m ∷ rest else rest

pub alive_members : MemberList → List Member
unfolding alive_in
alive_members ml = alive_in ml.members

pub get_member : GoString → MemberList → Option Member
get_member id ml = get id ml.members

abbrev pub is_garbage : ℕ → GoString → Member → MemberList → Bool
is_garbage now id m ml =
    not (str_eq id ml.local_id) && is_dead m.state && ltb (m.last_seen + ml.dead_gc_period) now

-- The members that the range visits; the count of those removed.
pub gc_each : ℕ → Dict GoString Member → MemberList → ℕ × MemberList
gc_each now [] ml = (0, ml)
gc_each now ((id, m) ∷ visited) ml =
    let next =
      if is_garbage now id m ml then record ml { members = delete id ml.members } else ml in
    let (n, ml') = gc_each now visited next in ((if is_garbage now id m ml then 1 else 0) + n, ml')

pub gc : ℕ → MemberList → ℕ × MemberList
unfolding gc_each
gc now ml = gc_each now ml.members ml

pub recent : ℕ → MemberList → List GossipUpdate
recent max ml = take max ml.recent_updates
