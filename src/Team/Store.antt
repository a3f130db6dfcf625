-- ===== src/Team/Store.antt =====
-- The tables `tenant_members` and `team_invitations`, and of `users` the active workspace:
-- apps/api-gateway/internal/domain/identity.go and the statements of
-- apps/api-gateway/internal/repository/postgres_identity.go. `draws` are the ids that the database
-- draws, of which `drawn` are used; `faults` lists which statements fail. The order in which
-- members are listed is left out: nothing reads it.
use omnipulse_backend.Base.{
  ℕ, suc, Text, text_eq, Bool, true, false, Option, none, some, List, [], ◌∷◌, ◌&&◌, not, ltb, any,
  select, tally, is_some, if◌then◌else◌,
}
pub use omnipulse_backend.Base.State.{
  ok, err, pure, raise, ◌>>=◌, ◌>>◌, raise_if, get, put, attempt,
}
use omnipulse_backend.Base.State.{Action}

-- `CHECK (role IN ('owner', 'admin', 'member'))`
pub data Role : Type 0 where
  owner admin member : Role

abbrev pub is_owner : Role → Bool
is_owner owner = true
is_owner _ = false

-- `TenantMember`
pub record Member : Type 0 where
  pub id : Text
  pub tenant_id : Text
  pub user_id : Text
  pub role : Role
  pub email : Text

pub data InvitationStatus : Type 0 where
  pending accepted revoked expired : InvitationStatus

abbrev pub is_pending : InvitationStatus → Bool
is_pending pending = true
is_pending _ = false

-- `TeamInvitation`
pub record Invitation : Type 0 where
  pub id : Text
  pub tenant_id : Text
  pub email : Text
  pub role : Role
  pub token : Text
  pub invited_by : Text
  pub status : InvitationStatus
  pub expires_at : ℕ

-- The errors of the use case and the repository.
pub data Error : Type 0 where
  database member_not_found invitation_not_found not_pending invitation_expired : Error
  plan_too_small not_allowed bad_role sole_member sole_owner bad_email : Error
  already_member already_invited no_token no_user unknown_user : Error

-- `active_tenant` is `none` for a user that there is not.
pub record Store : Type 0 where
  pub members : List Member
  pub invitations : List Invitation
  pub active_tenant : Text → Option Text
  pub emails : Text → Text
  pub draws : ℕ → Text
  pub drawn : ℕ
  pub faults : List Bool
  pub now : ℕ

abbrev pub M : Type 0 → Type 0
M A = Action Store Error A

unfoldable pub query : M (Unit {0})
query s = elim s.faults [
  | [] ↦ (ok tt, s)
  | fails ∷ rest ↦ (if fails then err database else ok tt, record s { faults = rest })
]

abbrev pub in_tenant : Text → Member → Bool
in_tenant tenant m = text_eq m.tenant_id tenant

-- `WHERE id = $1 AND tenant_id = $2`
abbrev pub is_member : Text → Text → Member → Bool
is_member tenant id m = text_eq m.id id && in_tenant tenant m

abbrev pub first {ℓ} : {A : Type ℓ} → (A → Bool) → List A → Option A
first p [] = none
first p (x ∷ xs) = if p x then some x else first p xs

-- The rows for which a test holds, changed.
abbrev pub update {ℓ} : {A : Type ℓ} → (A → Bool) → (A → A) → List A → List A
update p f [] = []
update p f (x ∷ xs) = (if p x then f x else x) ∷ update p f xs

abbrev pub discard {ℓ} : {A : Type ℓ} → (A → Bool) → List A → List A
discard p [] = []
discard p (x ∷ xs) = if p x then discard p xs else x ∷ discard p xs

unfoldable pub list_members : Text → M (List Member)
unfolding query
list_members tenant = do query; s ← get; pure (select (in_tenant tenant) s.members)

abbrev pub owners : Text → List Member → ℕ
owners tenant ms = tally (λ m. in_tenant tenant m && is_owner m.role) ms

unfoldable pub count_owners : Text → M ℕ
unfolding query
count_owners tenant = do query; s ← get; pure (owners tenant s.members)

abbrev pub with_role : Role → Member → Member
with_role role m = record m { role = role }

unfoldable pub update_role : Text → Text → Role → M (Unit {0})
unfolding query
update_role tenant id role = do
  query
  s ← get
  raise_if (not (any (is_member tenant id) s.members)) member_not_found
  put (record s { members = update (is_member tenant id) (with_role role) s.members })

unfoldable pub remove_row : Text → Text → M (Unit {0})
unfolding query
remove_row tenant id = do
  query
  s ← get
  raise_if (not (any (is_member tenant id) s.members)) member_not_found
  put (record s { members = discard (is_member tenant id) s.members })

-- `AND status = 'pending' AND expires_at > CURRENT_TIMESTAMP`
abbrev is_waiting : Text → ℕ → Invitation → Bool
is_waiting tenant now i =
    text_eq i.tenant_id tenant && (is_pending i.status && ltb now i.expires_at)

unfoldable pub list_invitations : Text → M (List Invitation)
unfolding query
list_invitations tenant = do query; s ← get; pure (select (is_waiting tenant s.now) s.invitations)

abbrev invited : Invitation → Store → Invitation
invited i s = record i { id = s.draws s.drawn }

unfoldable pub create_invitation : Invitation → M Invitation
unfolding query
create_invitation i = do
  query
  s ← get
  put (record s { invitations = invited i s ∷ s.invitations; drawn = suc s.drawn })
  pure (invited i s)

abbrev revocable : Text → Text → Invitation → Bool
revocable tenant id i = text_eq i.id id && (text_eq i.tenant_id tenant && is_pending i.status)

abbrev with_status : InvitationStatus → Invitation → Invitation
with_status status i = record i { status = status }

unfoldable pub revoke_row : Text → Text → M (Unit {0})
unfolding query
revoke_row tenant id = do
  query
  s ← get
  raise_if (not (any (revocable tenant id) s.invitations)) invitation_not_found
  put (record s { invitations = update (revocable tenant id) (with_status revoked) s.invitations })

abbrev pub has_seat : Text → Text → Member → Bool
has_seat tenant user m = in_tenant tenant m && text_eq m.user_id user

abbrev new_seat : Text → Invitation → Store → Member
new_seat user i s = record {
  id = s.draws s.drawn;
  tenant_id = i.tenant_id;
  user_id = user;
  role = i.role;
  email = s.emails user;
}

-- `ON CONFLICT (tenant_id, user_id) DO UPDATE SET role = EXCLUDED.role`
abbrev pub seat : Text → Invitation → Store → Store
seat user i s =
    if any (has_seat i.tenant_id user) s.members
    then record s { members = update (has_seat i.tenant_id user) (with_role i.role) s.members }
    else record s { members = new_seat user i s ∷ s.members; drawn = suc s.drawn }

abbrev mark : Text → InvitationStatus → Store → Store
mark id status s = record s {
  invitations = update (λ (i : Invitation). text_eq i.id id) (with_status status) s.invitations;
}

abbrev activate : Text → Text → Store → Store
activate user tenant s = record s {
  active_tenant = λ u. if text_eq u user then some tenant else s.active_tenant u;
}

-- What the transaction of `AcceptInvitation` commits.
abbrev pub joined : Text → Invitation → Store → Store
joined user i s = mark i.id accepted (activate user i.tenant_id (seat user i s))

-- An expired invitation is marked so, if both statements succeed, and refused in any case.
abbrev refuse_expired : Invitation → M Text
refuse_expired i = do
  done ← attempt (do query; query; s ← get; put (mark i.id expired s))
  raise invitation_expired

-- The member, the active workspace, the invitation, the workspace's name and the commit.
abbrev join : Text → Invitation → M Text
join user i = do
  query
  query
  s ← get
  raise_if (not (is_some (s.active_tenant user))) unknown_user
  query
  query
  query
  t ← get
  put (joined user i t)
  pure i.tenant_id

-- `AcceptInvitation`, one transaction. Returns the workspace.
unfoldable pub accept_row : Text → Text → M Text
unfolding query
accept_row token user = do
  query
  query
  s ← get
  elim (first (λ (i : Invitation). text_eq i.token token) s.invitations) [
    | none ↦ raise invitation_not_found
    | some i ↦ do
      raise_if (not (is_pending i.status)) not_pending
      if ltb i.expires_at s.now then refuse_expired i else join user i
  ]
