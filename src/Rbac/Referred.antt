-- ===== src/Rbac/Referred.antt =====
-- What is left of `can` when the grants of referrals are ignored.
use pwms_project.Prelude.{ℕ, ◌≡◌, true, false, List, arith}
use pwms_project.Schema.{Capability, Membership, User, GroupAccess, Instance}
use pwms_project.Rbac.{can}
use pwms_project.Rbac.Grants.{Grants, by_role, by_state, by_group, can_iff_Granted}

module _ (state : ℕ) (what : Capability) (m : Membership) (a : GroupAccess) where
  Grants-forget : Grants true state what m a → Grants false state what m a
  Grants-forget (by_role rp found applies granted) = by_role rp found applies granted
  Grants-forget (by_state sp free found granted) = by_state sp free found granted
  Grants-forget (by_group free granted counted) = by_group free granted (ground arith)

module _ (accesses : List GroupAccess) (inst : Instance) (user : User) (what : Capability) where
  -- Ignoring what referrals conferred never widens the answer: what is granted without their
  -- grants is granted with them.
  pub can-ignore_le :
      can true accesses inst user what ≡ true → can false accesses inst user what ≡ true
  can-ignore_le h =
      let g = (can_iff_Granted true accesses inst user what).0 h in
      (can_iff_Granted false accesses inst user what).1 (record {
        member = g.member;
        held = g.held;
        active = g.active;
        row = g.row;
        found = g.found;
        counted = ground arith;
        layer = Grants-forget inst.current_state.pk what g.member g.row g.layer;
      })
