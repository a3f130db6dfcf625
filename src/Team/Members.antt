-- ===== src/Team/Members.antt =====
-- apps/api-gateway/internal/usecase/team_usecase.go: who may invite, remove and promote whom. The
-- workspace's plan is `none` where the use case has no subscription to read; `valid_email` is
-- mail.ParseAddress, and the random token an argument. The mails that are sent are left out.
use omnipulse_backend.Base.{
  ◌+◌, Text, bytes, text_eq, Unicode, trim_space, to_lower, equal_fold, Bool, true, false, Option,
  none, some, List, [], ◌&&◌, ◌||◌, not, leb, any, is_empty, length, if◌then◌else◌,
}
use omnipulse_backend.Billing.Types.{PlanTier, agency}
use omnipulse_backend.Team.Store.{
  Role, owner, admin, member, is_owner, Member, pending, Invitation, plan_too_small, not_allowed,
  bad_role, sole_member, sole_owner, bad_email, already_member, already_invited, member_not_found,
  no_token, no_user, M, pure, raise, ◌>>=◌, ◌>>◌, raise_if, get, attempt, first, list_members,
  count_owners, update_role, remove_row, list_invitations, create_invitation, revoke_row,
  accept_row,
}

abbrev is_agency : PlanTier → Bool
is_agency agency = true
is_agency _ = false

-- A plan below Agency, for a workspace that is named.
abbrev pub too_small : Option PlanTier → Text → Bool
too_small none tenant = false
too_small (some plan) tenant = not (is_empty tenant) && not (is_agency plan)

abbrev pub parse_role : Text → Option Role
parse_role t =
    if text_eq t (bytes "owner")
    then some owner
    else if text_eq t (bytes "admin")
    then some admin
    else if text_eq t (bytes "member")
    then some member
    else none

abbrev or_nil {ℓ} : {A : Type ℓ} → Option (List A) → List A
or_nil none = []
or_nil (some xs) = xs

-- The test before an owner is removed or demoted.
abbrev pub keep_owner : Text → Bool → M (Unit {0})
keep_owner tenant false = pure tt
keep_owner tenant true = do n ← count_owners tenant; raise_if (leb n 1) sole_owner

abbrev pub has_id : Text → Member → Bool
has_id id m = text_eq m.id id

-- The end of `RemoveMember` and of `UpdateMemberRole`, for the member that was found.
abbrev pub eject : Text → Text → Option Member → M (Unit {0})
eject tenant id none = raise member_not_found
eject tenant id (some m) = do keep_owner tenant (is_owner m.role); remove_row tenant id

abbrev pub assign : Text → Text → Role → Option Member → M (Unit {0})
assign tenant id role none = raise member_not_found
assign tenant id role (some m) = do
  keep_owner tenant (is_owner m.role && not (is_owner role))
  update_role tenant id role

-- A role that an invitation may carry.
abbrev pub grantable : Option Role → M Role
grantable none = raise bad_role
grantable (some owner) = raise bad_role
grantable (some admin) = pure admin
grantable (some member) = pure member

module _ ⦃uni : Unicode⦄ where
  -- The role that an invitation may give: never owner, and from an admin only member.
  abbrev pub invited_role : Text → Text → M Role
  invited_role caller_role raw = do
    let target = to_lower (trim_space raw)
    raise_if (equal_fold caller_role (bytes "admin") && not (text_eq target (bytes "member")))
        not_allowed
    grantable (parse_role target)

  abbrev pub may_invite : Text → Bool
  may_invite caller_role =
      equal_fold caller_role (bytes "owner") || equal_fold caller_role (bytes "admin")

  -- From the search for duplicates on.
  unfoldable pub record_invitation : Text → Text → Text → Text → Role → M Invitation
  record_invitation token tenant caller email role = do
    members ← attempt (list_members tenant)
    raise_if (any (λ (m : Member). equal_fold m.email email) (or_nil members)) already_member
    waiting ← attempt (list_invitations tenant)
    raise_if (any (λ (i : Invitation). equal_fold i.email email) (or_nil waiting)) already_invited
    s ← get
    create_invitation (record {
      id = [];
      tenant_id = tenant;
      email = email;
      role = role;
      token = token;
      invited_by = caller;
      status = pending;
      expires_at = s.now + 604800;
    })

  unfoldable pub invite_member :
      (Text → Bool) → Text → Option PlanTier → Text → Text → Text → Text → Text → M Invitation
  invite_member valid_email token plan tenant caller caller_role raw_email raw_role = do
    raise_if (too_small plan tenant) plan_too_small
    raise_if (not (may_invite caller_role)) not_allowed
    role ← invited_role caller_role raw_role
    let email = to_lower (trim_space raw_email)
    raise_if (not (valid_email email)) bad_email
    record_invitation token tenant caller email role

  unfoldable pub revoke_invitation : Text → Text → Text → M (Unit {0})
  revoke_invitation tenant caller_role id = do
    raise_if (not (may_invite caller_role)) not_allowed
    revoke_row tenant id

  unfoldable pub remove_member : Text → Text → Text → M (Unit {0})
  remove_member tenant caller_role id = do
    raise_if (not (equal_fold caller_role (bytes "owner"))) not_allowed
    members ← list_members tenant
    eject tenant id (first (has_id id) members)

  unfoldable pub update_member_role : Option PlanTier → Text → Text → Text → Text → M (Unit {0})
  update_member_role plan tenant caller_role id raw_role = do
    raise_if (too_small plan tenant) plan_too_small
    raise_if (not (equal_fold caller_role (bytes "owner"))) not_allowed
    elim (parse_role (to_lower (trim_space raw_role))) [
      | none ↦ raise bad_role
      | some role ↦ do
        members ← list_members tenant
        raise_if (leb (length members) 1) sole_member
        assign tenant id role (first (has_id id) members)
    ]

  -- `AcceptInvitation` of the use case; the name that the user gives is left out.
  unfoldable pub accept_invitation : Text → Text → M Text
  accept_invitation raw user = do
    let token = trim_space raw
    raise_if (is_empty token) no_token
    raise_if (is_empty user) no_user
    accept_row token user
