-- ===== src/Team/Owners.antt =====
-- A workspace with an owner keeps one, whoever is removed or given another role.
use omnipulse_backend.Base.{
  ℕ, ◌+◌, ◌≤◌, Text, text_eq, text_eq_iff, Bool, true, false, Option, none, some, List, [], ◌∷◌,
  All, select, leb, Bool-cases, ◌≡◌, refl, ap, subst, ◌∙◌, ◌⊎◌, inl, inr, arith, if◌then◌else◌,
}
use omnipulse_backend.Team.Store.{
  Role, is_owner, Member, Error, Store, ok, err, query, in_tenant, is_member, first, update,
  discard, owners, with_role, list_members, count_owners, update_role, remove_row,
}
use omnipulse_backend.Team.Members.{keep_owner, has_id, eject}

abbrev Elsewhere : Text → List Member → Type 0
Elsewhere id ms = All (λ (m : Member). text_eq m.id id ≡ false) ms

-- The primary key of the table of members.
abbrev pub DistinctMembers : List Member → Type 0
DistinctMembers [] = Unit
DistinctMembers (m ∷ ms) = All (λ (n : Member). text_eq n.id m.id ≡ false) ms × DistinctMembers ms

-- How many owners the member that is looked for is.
abbrev pub owner_of : Option Member → ℕ
owner_of none = 0
owner_of (some m) = if is_owner m.role then 1 else 0

discard-Elsewhere :
    (tenant id : Text) (ms : List Member)
    → Elsewhere id ms
    → owners tenant (discard (is_member tenant id) ms) ≡ owners tenant ms
discard-Elsewhere tenant id [] h = refl
discard-Elsewhere tenant id (m ∷ ms) h = ground (arith, h.0, discard-Elsewhere tenant id ms h.1)

update-Elsewhere :
    (tenant id : Text) (role : Role) (ms : List Member)
    → Elsewhere id ms
    → owners tenant (update (is_member tenant id) (with_role role) ms) ≡ owners tenant ms
update-Elsewhere tenant id role [] h = refl
update-Elsewhere tenant id role (m ∷ ms) h =
    ground (arith, h.0, update-Elsewhere tenant id role ms h.1)

Elsewhere-id :
    (i j : Text) (ms : List Member)
    → text_eq i j ≡ true
    → All (λ (n : Member). text_eq n.id i ≡ false) ms
    → Elsewhere j ms
Elsewhere-id i j ms e h =
    subst (λ (k : Text). All (λ (n : Member). text_eq n.id k ≡ false) ms) ((text_eq_iff i j).0 e) h

-- A removal takes away the owner that was found, and no other.
discard-owners :
    (tenant id : Text) (ms : List Member)
    → DistinctMembers ms
    → owners tenant (discard (is_member tenant id) ms)
        + owner_of (first (has_id id) (select (in_tenant tenant) ms))
      ≡ owners tenant ms
discard-owners tenant id [] h = refl
discard-owners tenant id (m ∷ ms) h = elim (Bool-cases (text_eq m.id id)) [
  | inl same ↦ ground (
    arith,
    same,
    discard-Elsewhere tenant id ms (Elsewhere-id m.id id ms same h.0),
    discard-owners tenant id ms h.1,
  )
  | inr other ↦ ground (arith, other, discard-owners tenant id ms h.1)
]

-- A change of role takes away at most the owner that was found, and none if the role is owner.
pub update-owners :
    (tenant id : Text) (role : Role) (ms : List Member)
    → DistinctMembers ms
    → owners tenant ms
      ≤ owners tenant (update (is_member tenant id) (with_role role) ms)
        + (if is_owner role then 0 else owner_of (first (has_id id) (select (in_tenant tenant) ms)))
update-owners tenant id role [] h = omega arith
update-owners tenant id role (m ∷ ms) h = elim (Bool-cases (text_eq m.id id)) [
  | inl same ↦ ground (
    arith,
    same,
    update-Elsewhere tenant id role ms (Elsewhere-id m.id id ms same h.0),
    update-owners tenant id role ms h.1,
  )
  | inr other ↦ ground (arith, other, update-owners tenant id role ms h.1)
]

pub list_members-cases :
    (tenant : Text) (s : Store)
    → ((list_members tenant s).1.members ≡ s.members)
      × (((x : Error) × ((list_members tenant s).0 ≡ err x))
          ⊎ ((list_members tenant s).0 ≡ ok (select (in_tenant tenant) s.members)))
unfolding list_members query
list_members-cases tenant s = ground arith

count_owners-cases :
    (tenant : Text) (s : Store)
    → ((count_owners tenant s).1.members ≡ s.members)
      × (((x : Error) × ((count_owners tenant s).0 ≡ err x))
          ⊎ ((count_owners tenant s).0 ≡ ok (owners tenant s.members)))
unfolding count_owners query
count_owners-cases tenant s = ground arith

remove_row-cases :
    (tenant id : Text) (s : Store)
    → ((remove_row tenant id s).1.members ≡ s.members)
      ⊎ ((remove_row tenant id s).1.members ≡ discard (is_member tenant id) s.members)
unfolding remove_row query
remove_row-cases tenant id s = ground arith

pub update_role-cases :
    (tenant id : Text) (role : Role) (s : Store)
    → ((update_role tenant id role s).1.members ≡ s.members)
      ⊎ ((update_role tenant id role s).1.members
          ≡ update (is_member tenant id) (with_role role) s.members)
unfolding update_role query
update_role-cases tenant id role s = ground arith

-- A workspace has an owner.
abbrev pub HasOwner : Text → Store → Type 0
HasOwner tenant s = 1 ≤ owners tenant s.members

pub HasOwner-same :
    (tenant : Text) (s t : Store) → t.members ≡ s.members → HasOwner tenant s → HasOwner tenant t
HasOwner-same tenant s t e h = omega (arith, h, ap (λ ms. owners tenant ms) e)

-- After the test there is another owner, or none is about to go.
pub keep_owner-cases :
    (tenant : Text) (b : Bool) (s : Store)
    → ((keep_owner tenant b s).1.members ≡ s.members)
      × (((x : Error) × ((keep_owner tenant b s).0 ≡ err x))
          ⊎ (((keep_owner tenant b s).0 ≡ ok tt) × ((b ≡ false) ⊎ (2 ≤ owners tenant s.members))))
keep_owner-cases tenant false s = (refl, inr (refl, inl refl))
keep_owner-cases tenant true s =
    let (same, outcome) = count_owners-cases tenant s in
    elim outcome [
      | inl (x, e) ↦ ground (arith, same, e)
      | inr e ↦ elim (Bool-cases (leb (owners tenant s.members) 1)) [
        | inl few ↦ ground (arith, same, e, few)
        | inr many ↦ ground (arith, same, e, many)
      ]
    ]

pub owner_of-le : (o : Option Member) → owner_of o ≤ 1
owner_of-le none = omega arith
owner_of-le (some m) = ground arith

pub eject-keeps :
    (tenant id : Text) (o : Option Member) (s : Store)
    → first (has_id id) (select (in_tenant tenant) s.members) ≡ o
    → DistinctMembers s.members
    → HasOwner tenant s
    → HasOwner tenant (eject tenant id o s).1
eject-keeps tenant id none s found distinct h = h
eject-keeps tenant id (some m) s found distinct h =
    let (same, outcome) = keep_owner-cases tenant (is_owner m.role) s in
    let t = (keep_owner tenant (is_owner m.role) s).1 in
    let counted = discard-owners tenant id s.members distinct in
    let who = ap owner_of found in
    elim outcome [
      | inl (x, e) ↦
          HasOwner-same tenant s (eject tenant id (some m) s).1 (ground (arith, same, e)) h
      | inr (e, safe) ↦
          let last : (eject tenant id (some m) s).1 ≡ (remove_row tenant id t).1 =
            ground (arith, e) in
          elim (remove_row-cases tenant id t) [
            | inl kept ↦
                HasOwner-same tenant s (eject tenant id (some m) s).1
                  (ap (λ (u : Store). u.members) last ∙ (kept ∙ same)) h
            | inr gone ↦
                let now : (eject tenant id (some m) s).1.members
                    ≡ discard (is_member tenant id) s.members =
                  ap (λ (u : Store). u.members) last
                  ∙ (gone ∙ ap (λ ms. discard (is_member tenant id) ms) same) in
                let n = ap (λ ms. owners tenant ms) now in
                ground (arith, h, counted, who, safe, n, owner_of-le (some m))
          ]
    ]
