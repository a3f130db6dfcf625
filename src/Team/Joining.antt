-- ===== src/Team/Joining.antt =====
-- What an invitation may give, and what accepting one does to a workspace's owners.
use omnipulse_backend.Base.{
  ◌≤◌, Text, text_eq, Unicode, trim_space, to_lower, equal_fold, bytes, Bool, true, false, Option,
  none, some, List, [], ◌∷◌, ◌&&◌, All, any, is_empty, is_some, Bool-cases, ◌≡◌, refl, ap, sym, ◌⊎◌,
  inl, inr, arith, text_eq_iff, subst,
}
use omnipulse_backend.Base.State.{Outcome-cases}
use omnipulse_backend.Billing.Types.{PlanTier}
use omnipulse_backend.Team.Store.{
  Role, owner, admin, member, bad_role, not_allowed, is_owner, Member, Invitation, pending, Error,
  Store, M, ok, err, attempt, query, first, update, owners, in_tenant, with_role, list_members,
  list_invitations, create_invitation, has_seat, accept_row,
}
use omnipulse_backend.Team.Members.{
  too_small, parse_role, grantable, may_invite, invited_role, record_invitation, invite_member,
  accept_invitation,
}

-- What may stand in an invitation.
abbrev pub Allowed : ⦃uni : Unicode⦄ → Text → Role → Type 0
Allowed caller_role role =
    (is_owner role ≡ false) × ((equal_fold caller_role (bytes "admin") ≡ false) ⊎ (role ≡ member))

member-role : (t : Text) → text_eq t (bytes "member") ≡ true → parse_role t ≡ some member
unfolding text_eq
member-role t h = ap parse_role ((text_eq_iff t (bytes "member")).0 h)

grantable-cases :
    (o : Option Role) (s : Store)
    → ((grantable o s).1 ≡ s)
      × (((x : Error) × ((grantable o s).0 ≡ err x))
          ⊎ ((role : Role) × ((grantable o s).0 ≡ ok role)
              × (o ≡ some role)
              × (is_owner role ≡ false)))
grantable-cases none s = (refl, inl (bad_role, refl))
grantable-cases (some owner) s = (refl, inl (bad_role, refl))
grantable-cases (some admin) s = (refl, inr (admin, refl, refl, refl))
grantable-cases (some member) s = (refl, inr (member, refl, refl, refl))

attempt-total :
    {A : Type 0} (m : M A) (s : Store) → (r : Option A) × (attempt m s ≡ (ok r, (m s).1))
attempt-total m s = elim (Outcome-cases (m s).0) [
  | inl (a, e) ↦ (some a, ground arith)
  | inr (x, e) ↦ (none, ground arith)
]

-- Every owner of a workspace is one user.
abbrev pub OnlyOwner : Text → Text → List Member → Type 0
OnlyOwner tenant user ms =
    All
      (λ (m : Member).
        (in_tenant tenant m && is_owner m.role ≡ false) ⊎ (text_eq m.user_id user ≡ true))
      ms

demotes :
    (tenant user : Text) (role : Role) (ms : List Member)
    → is_owner role ≡ false
    → OnlyOwner tenant user ms
    → owners tenant (update (has_seat tenant user) (with_role role) ms) ≡ 0
demotes tenant user role [] low h = refl
demotes tenant user role (m ∷ ms) low h = ground (arith, h.0, demotes tenant user role ms low h.1)

-- A user's seat in a workspace has a role.
abbrev pub SeatedAs : Text → Text → Role → List Member → Type 0
SeatedAs tenant user role ms =
    All (λ (m : Member). (has_seat tenant user m ≡ false) ⊎ (m.role ≡ role)) ms

seats :
    (tenant user : Text) (role : Role) (ms : List Member)
    → SeatedAs tenant user role (update (has_seat tenant user) (with_role role) ms)
seats tenant user role [] = tt
seats tenant user role (m ∷ ms) = (ground arith, seats tenant user role ms)

module _ ⦃uni : Unicode⦄ where
  invited_role-cases :
      (caller_role raw : Text) (s : Store)
      → ((invited_role caller_role raw s).1 ≡ s)
        × (((x : Error) × ((invited_role caller_role raw s).0 ≡ err x))
            ⊎ ((role : Role) × ((invited_role caller_role raw s).0 ≡ ok role)
                × Allowed caller_role role))
  invited_role-cases caller_role raw s =
      let target = to_lower (trim_space raw) in
      let (same, outcome) = grantable-cases (parse_role target) s in
      elim (Bool-cases (equal_fold caller_role (bytes "admin"))) [
        | inr free ↦ elim outcome [
          | inl (x, e) ↦ (ground (arith, free, same), inl (x, ground (arith, free, e)))
          | inr (role, e, o, small) ↦
              (ground (arith, free, same), inr (role, ground (arith, free, e), (small, inl free)))
        ]
        | inl bound ↦ elim (Bool-cases (text_eq target (bytes "member"))) [
          | inr other ↦
              (ground (arith, bound, other), inl (not_allowed, ground (arith, bound, other)))
          | inl plain ↦ elim outcome [
            | inl (x, e) ↦
                (ground (arith, bound, plain, same), inl (x, ground (arith, bound, plain, e)))
            | inr (role, e, o, small) ↦ (
              ground (arith, bound, plain, same),
              inr (
                role,
                ground (arith, bound, plain, e),
                (small, inr (ground (arith, o, member-role target plain))),
              ),
            )
          ]
        ]
      ]

  record_invitation-ok :
      (token tenant caller email : Text) (role : Role) (s : Store) (i : Invitation)
      → (record_invitation token tenant caller email role s).0 ≡ ok i
      → (i.role ≡ role) × (i.status ≡ pending) × (i.tenant_id ≡ tenant) × (i.email ≡ email)
  unfolding record_invitation create_invitation query
  record_invitation-ok token tenant caller email role s i h =
      let (r, e) = attempt-total (list_members tenant) s in
      let t = (list_members tenant s).1 in
      let (q, f) = attempt-total (list_invitations tenant) t in ground (arith, h, e, f)

  -- Where an invitation comes from, whatever failed: the caller is an owner or admin, it never gives
  -- the role of owner, and from an admin it gives the role of member; it is pending, and for an
  -- address that is valid.
  pub invite_member-Allowed :
      (valid_email : Text → Bool) (token : Text) (plan : Option PlanTier)
      (tenant caller caller_role email role : Text) (s : Store) (i : Invitation)
      → (invite_member valid_email token plan tenant caller caller_role email role s).0 ≡ ok i
      → (may_invite caller_role ≡ true)
        × Allowed caller_role i.role
        × (i.status ≡ pending)
        × (i.tenant_id ≡ tenant)
        × (i.email ≡ to_lower (trim_space email))
        × (valid_email (to_lower (trim_space email)) ≡ true)
  unfolding invite_member
  invite_member-Allowed valid_email token plan tenant caller caller_role email role s i h =
      let address = to_lower (trim_space email) in
      let (same, outcome) = invited_role-cases caller_role role s in
      elim (Bool-cases (too_small plan tenant)) [
        | inl small ↦ ground (arith, h, small)
        | inr large ↦ elim (Bool-cases (may_invite caller_role)) [
          | inr stranger ↦ ground (arith, h, large, stranger)
          | inl may ↦ elim outcome [
            | inl (x, e) ↦ ground (arith, h, large, may, e)
            | inr (given, e, allowed) ↦ elim (Bool-cases (valid_email address)) [
              | inr bad ↦ ground (arith, h, large, may, e, bad)
              | inl valid ↦
                  let u = (invited_role caller_role role s).1 in
                  let ran : (record_invitation token tenant caller address given u).0 ≡ ok i =
                    ground (arith, h, large, may, e, valid) in
                  let (a, b, c, d) =
                    record_invitation-ok token tenant caller address given u i ran in
                  (may, subst (λ (r : Role). Allowed caller_role r) (sym a) allowed, b, c, d, valid)
            ]
          ]
        ]
      ]

-- Accepting an invitation can take a workspace's last owner away: a user who is the only owner, and
-- accepts a pending invitation of that workspace to another role, in time, has the invitation's
-- role in it, and the workspace has no owner any more. (No database statement fails.)
pub accept_invitation-ownerless :
    ⦃uni : Unicode⦄ (raw user : Text) (s : Store) (i : Invitation)
    → s.faults ≡ []
    → is_empty (trim_space raw) ≡ false
    → is_empty user ≡ false
    → first (λ (j : Invitation). text_eq j.token (trim_space raw)) s.invitations ≡ some i
    → i.status ≡ pending
    → s.now ≤ i.expires_at
    → is_some (s.active_tenant user) ≡ true
    → is_owner i.role ≡ false
    → any (has_seat i.tenant_id user) s.members ≡ true
    → OnlyOwner i.tenant_id user s.members
    → ((accept_invitation raw user s).0 ≡ ok i.tenant_id)
      × SeatedAs i.tenant_id user i.role (accept_invitation raw user s).1.members
      × (owners i.tenant_id (accept_invitation raw user s).1.members ≡ 0)
unfolding accept_invitation accept_row query
accept_invitation-ownerless raw user s i quiet given named found waiting soon known low seated
      only =
    let demoted = demotes i.tenant_id user i.role s.members low only in
    let seated_as = seats i.tenant_id user i.role s.members in
    let (answer, last) : ((accept_invitation raw user s).0 ≡ ok i.tenant_id)
        × ((accept_invitation raw user s).1.members
            ≡ update (has_seat i.tenant_id user) (with_role i.role) s.members) =
      ground arith in
    (
      answer,
      subst (λ (ms : List Member). SeatedAs i.tenant_id user i.role ms) (sym last) seated_as,
      ground (arith, last, demoted),
    )
