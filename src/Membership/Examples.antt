-- ===== src/Membership/Examples.antt =====
-- The theorems of this folder at concrete members.
use hermes.Base.{◌≡◌, arith, bytes, string_eq, str_eq_iff}
use hermes.Base.Dict.{get, put}
use hermes.Membership.MemberList.{
  MemberList, GossipUpdate, alive, suspected, apply_update, new_member_list,
}
use hermes.Membership.MemberList.Gossip.{view, IsKeyed, updates_commute}

abbrev peers : MemberList
peers = new_member_list 0 (bytes "a")

peers-IsKeyed : IsKeyed peers
unfolding new_member_list get put
peers-IsKeyed k m found = ground (arith, found, str_eq_iff (bytes "a") k)

abbrev said : GossipUpdate
said = record { node_id = bytes "b"; state = suspected; incarnation = 2; address = bytes "b:1" }

abbrev refuted : GossipUpdate
refuted = record { node_id = bytes "b"; state = alive; incarnation = 3; address = bytes "b:1" }

updates_commute_example :
    (view (bytes "b") (apply_update 2 refuted (apply_update 1 said peers).1).1
      ≡ view (bytes "b") (apply_update 1 said (apply_update 2 refuted peers).1).1)
    × (view (bytes "b") (apply_update 2 said (apply_update 1 said peers).1).1
        ≡ view (bytes "b") (apply_update 1 said peers).1)
updates_commute_example = updates_commute 1 2 said refuted peers (bytes "b") peers-IsKeyed
