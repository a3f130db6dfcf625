-- ===== src/Team/Keeping.antt =====
-- The use cases that remove a member or change a role, and the workspace's last owner.
use omnipulse_backend.Base.{
  Text, Unicode, trim_space, to_lower, equal_fold, bytes, not, Option, none, some, ◌&&◌, select,
  leb, length, Option-cases, Bool-cases, ◌≡◌, ap, sym, subst, ◌∙◌, inl, inr, arith,
}
use omnipulse_backend.Billing.Types.{PlanTier}
use omnipulse_backend.Team.Store.{
  Role, is_owner, Member, Store, in_tenant, is_member, first, update, owners, with_role,
  list_members, update_role,
}
use omnipulse_backend.Team.Members.{
  too_small, parse_role, keep_owner, has_id, eject, assign, remove_member, update_member_role,
}
use omnipulse_backend.Team.Owners.{
  DistinctMembers, HasOwner, HasOwner-same, owner_of, owner_of-le, update-owners,
  list_members-cases, update_role-cases, keep_owner-cases, eject-keeps,
}

assign-keeps :
    (tenant id : Text) (role : Role) (o : Option Member) (s : Store)
    → first (has_id id) (select (in_tenant tenant) s.members) ≡ o
    → DistinctMembers s.members
    → HasOwner tenant s
    → HasOwner tenant (assign tenant id role o s).1
assign-keeps tenant id role none s found distinct h = h
assign-keeps tenant id role (some m) s found distinct h =
    let b = is_owner m.role && not (is_owner role) in
    let (same, outcome) = keep_owner-cases tenant b s in
    let t = (keep_owner tenant b s).1 in
    let end = (assign tenant id role (some m) s).1 in
    let counted = update-owners tenant id role s.members distinct in
    let who = ap owner_of found in
    elim outcome [
      | inl (x, e) ↦ HasOwner-same tenant s end (ground (arith, same, e)) h
      | inr (e, safe) ↦
          let last : end ≡ (update_role tenant id role t).1 = ground (arith, e) in
          elim (update_role-cases tenant id role t) [
            | inl kept ↦
                HasOwner-same tenant s end (ap (λ (u : Store). u.members) last ∙ (kept ∙ same)) h
            | inr changed ↦
                let now : end.members ≡ update (is_member tenant id) (with_role role) s.members =
                  ap (λ (u : Store). u.members) last
                  ∙ (changed ∙ ap (λ ms. update (is_member tenant id) (with_role role) ms) same) in
                let n = ap (λ ms. owners tenant ms) now in
                ground (arith, h, counted, who, safe, n, owner_of-le (some m))
          ]
    ]

module _ ⦃uni : Unicode⦄ where
  -- A workspace that has an owner still has one after a member was to be removed, whoever asked for
  -- whom and whatever failed.
  pub remove_member-HasOwner :
      (tenant caller_role id : Text) (s : Store)
      → DistinctMembers s.members
      → HasOwner tenant s
      → HasOwner tenant (remove_member tenant caller_role id s).1
  unfolding remove_member
  remove_member-HasOwner tenant caller_role id s distinct h =
      let end = (remove_member tenant caller_role id s).1 in
      let t = (list_members tenant s).1 in
      let (same, outcome) = list_members-cases tenant s in
      elim (Bool-cases (equal_fold caller_role (bytes "owner"))) [
        | inr stranger ↦ HasOwner-same tenant s end (ground (arith, stranger)) h
        | inl asks ↦ elim outcome [
          | inl (x, e) ↦ HasOwner-same tenant s end (ground (arith, asks, same, e)) h
          | inr e ↦
              let found = first (has_id id) (select (in_tenant tenant) s.members) in
              let last : end ≡ (eject tenant id found t).1 = ground (arith, asks, e) in
              let kept : HasOwner tenant (eject tenant id found t).1 =
                eject-keeps tenant id found t
                  (ap (λ ms. first (has_id id) (select (in_tenant tenant) ms)) same)
                  (subst (λ ms. DistinctMembers ms) (sym same) distinct)
                  (HasOwner-same tenant s t same h) in
              subst (λ (u : Store). HasOwner tenant u) (sym last) kept
        ]
      ]

  -- The same of a change of role.
  pub update_member_role-HasOwner :
      (plan : Option PlanTier) (tenant caller_role id raw : Text) (s : Store)
      → DistinctMembers s.members
      → HasOwner tenant s
      → HasOwner tenant (update_member_role plan tenant caller_role id raw s).1
  unfolding update_member_role
  update_member_role-HasOwner plan tenant caller_role id raw s distinct h =
      let end = (update_member_role plan tenant caller_role id raw s).1 in
      let t = (list_members tenant s).1 in
      let (same, outcome) = list_members-cases tenant s in
      let listed = select (in_tenant tenant) s.members in
      elim (Bool-cases (too_small plan tenant)) [
        | inl small ↦ HasOwner-same tenant s end (ground (arith, small)) h
        | inr large ↦ elim (Bool-cases (equal_fold caller_role (bytes "owner"))) [
          | inr stranger ↦ HasOwner-same tenant s end (ground (arith, large, stranger)) h
          | inl asks ↦ elim (Option-cases (parse_role (to_lower (trim_space raw)))) [
            | inl p ↦ HasOwner-same tenant s end (ground (arith, large, asks, p)) h
            | inr (role, p) ↦ elim outcome [
              | inl (x, e) ↦ HasOwner-same tenant s end (ground (arith, large, asks, p, same, e)) h
              | inr e ↦ elim (Bool-cases (leb (length listed) 1)) [
                | inl alone ↦
                    HasOwner-same tenant s end (ground (arith, large, asks, p, same, e, alone)) h
                | inr others ↦
                    let found = first (has_id id) listed in
                    let last : end ≡ (assign tenant id role found t).1 =
                      ground (arith, large, asks, p, e, others) in
                    let kept : HasOwner tenant (assign tenant id role found t).1 =
                      assign-keeps tenant id role found t
                        (ap (λ ms. first (has_id id) (select (in_tenant tenant) ms)) same)
                        (subst (λ ms. DistinctMembers ms) (sym same) distinct)
                        (HasOwner-same tenant s t same h) in
                    subst (λ (u : Store). HasOwner tenant u) (sym last) kept
              ]
            ]
          ]
        ]
      ]
