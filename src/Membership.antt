-- ===== src/Membership.antt =====
-- pkg/membership: the list of members that gossip keeps.
pub mod MemberList
mod Examples
