-- ===== src/Examples/Team.antt =====
-- The theorems on members and invitations, applied.
use omnipulse_backend.Base.{
  Text, bytes, text_eq, is_ascii, ascii_trim, trim_space, to_lower, equal_fold, true, some, none,
  [], ◌∷◌, ◌≡◌, refl, inl, inr, arith,
}
use omnipulse_backend.Billing.Types.{agency}
use omnipulse_backend.Team.Store.{
  Role, owner, admin, member, Member, pending, Invitation, Store, ok, query, list_members,
  list_invitations, create_invitation, owners,
}
use omnipulse_backend.Team.Members.{
  may_invite, record_invitation, invite_member, remove_member, update_member_role,
  accept_invitation,
}
use omnipulse_backend.Team.Owners.{HasOwner}
use omnipulse_backend.Team.Keeping.{remove_member-HasOwner, update_member_role-HasOwner}
use omnipulse_backend.Team.Joining.{
  SeatedAs, Allowed, invite_member-Allowed, accept_invitation-ownerless,
}
use omnipulse_backend.Examples.World.{plain_unicode}

abbrev acme : Text
acme = bytes "acme"

abbrev seat_of : Text → Role → Member
seat_of name role = record {
  id = name;
  tenant_id = acme;
  user_id = name;
  role = role;
  email = name;
}

abbrev invitation : Invitation
invitation = record {
  id = bytes "i1";
  tenant_id = acme;
  email = bytes "o@new.org";
  role = member;
  token = bytes "secret";
  invited_by = bytes "olga";
  status = pending;
  expires_at = 200;
}

-- Olga owns the workspace, Adam is an admin.
abbrev office : Store
office = record {
  members = seat_of (bytes "olga") owner ∷ seat_of (bytes "adam") admin ∷ [];
  invitations = invitation ∷ [];
  active_tenant = λ user. some acme;
  emails = λ user. user;
  draws = λ n. n ∷ [];
  drawn = 0;
  faults = [];
  now = 100;
}

remove_member-HasOwner_example :
    HasOwner acme (remove_member acme (bytes "owner") (bytes "olga") office).1
unfolding text_eq
remove_member-HasOwner_example =
    remove_member-HasOwner acme (bytes "owner") (bytes "olga") office ((refl, tt), (tt, tt))
      (omega arith)

update_member_role-HasOwner_example :
    HasOwner acme
      (update_member_role none acme (bytes "owner") (bytes "olga") (bytes "member") office).1
unfolding text_eq
update_member_role-HasOwner_example =
    update_member_role-HasOwner none acme (bytes "owner") (bytes "olga") (bytes "member") office
      ((refl, tt), (tt, tt)) (omega arith)

abbrev new_invitation : Invitation
new_invitation = record invitation {
  id = 0 ∷ [];
  email = bytes "eve@new.org";
  token = bytes "t2";
  invited_by = bytes "adam";
  expires_at = 604900;
}

invites :
    (invite_member
      (λ e. true)
      (bytes "t2")
      (some agency)
      acme
      (bytes "adam")
      (bytes "admin")
      (bytes "Eve@new.org")
      (bytes "member")
      office).0
    ≡ ok new_invitation
unfolding text_eq invite_member record_invitation list_members list_invitations create_invitation
    query trim_space to_lower equal_fold is_ascii ascii_trim
invites = refl

invite_member-Allowed_example :
    (may_invite (bytes "admin") ≡ true)
    × Allowed (bytes "admin") member
    × (pending ≡ pending)
    × (acme ≡ acme)
    × (bytes "eve@new.org" ≡ to_lower (trim_space (bytes "Eve@new.org")))
    × (true ≡ true)
invite_member-Allowed_example =
    invite_member-Allowed (λ e. true) (bytes "t2") (some agency) acme (bytes "adam") (bytes "admin")
      (bytes "Eve@new.org") (bytes "member") office new_invitation invites

-- Olga opens the link that she sent to another address of hers.
accept_invitation-ownerless_example :
    ((accept_invitation (bytes "secret") (bytes "olga") office).0 ≡ ok acme)
    × SeatedAs acme
        (bytes "olga")
        invitation.role
        (accept_invitation (bytes "secret") (bytes "olga") office).1.members
    × (owners acme (accept_invitation (bytes "secret") (bytes "olga") office).1.members ≡ 0)
unfolding text_eq trim_space is_ascii ascii_trim
accept_invitation-ownerless_example =
    accept_invitation-ownerless (bytes "secret") (bytes "olga") office invitation refl refl refl
      refl refl (omega arith) refl refl refl (inr refl, (inl refl, tt))
