-- ===== src/Billing/Moves.antt =====
-- The subscriptions as their users see them: a plan for each workspace, and two moves on it.
use omnipulse_backend.Base.{
  Text, text_eq, text_eq_iff, Bool, true, false, Option, none, some, List, [], ◌∷◌, ◌≡◌, ap, sym,
  ◌∙◌, inl, inr, arith, any, Bool-cases, if◌then◌else◌,
}
use omnipulse_backend.Billing.Types.{PlanTier, starter, Subscription}
use omnipulse_backend.Billing.Store.{Store, first_row, of_tenant, put_row}

abbrev pub tier_or_starter : Option Subscription → PlanTier
tier_or_starter none = starter
tier_or_starter (some r) = r.tier

-- The plan of a workspace.
abbrev pub tier_in : List Subscription → Text → PlanTier
tier_in rows tenant = tier_or_starter (first_row (of_tenant tenant) rows)

abbrev pub tier_of : Store → Text → PlanTier
tier_of s tenant = tier_in s.subscriptions tenant

pub data Move : Type 0 where
  stay : Move
  -- The workspace is given a plan.
  grant : Text → PlanTier → Move
  -- It is put back to Starter.
  revoke : Text → Move

abbrev pub apply : Move → (Text → PlanTier) → Text → PlanTier
apply stay plans tenant = plans tenant
apply (grant t tier) plans tenant = if text_eq t tenant then tier else plans tenant
apply (revoke t) plans tenant = if text_eq t tenant then starter else plans tenant

-- `UNIQUE (tenant_id)`
abbrev has_tenant : Text → List Subscription → Bool
has_tenant t rows = any (of_tenant t) rows

abbrev pub DistinctTenants : List Subscription → Type 0
DistinctTenants [] = Unit
DistinctTenants (r ∷ rows) = (has_tenant r.tenant_id rows ≡ false) × DistinctTenants rows

-- Texts that equal one text are tested alike.
text_eq-same : (a b c : Text) → text_eq a b ≡ true → text_eq a c ≡ text_eq b c
text_eq-same a b c h = ap (λ (x : Text). text_eq x c) ((text_eq_iff a b).0 h)

pub tier_in-put_row :
    (new : Subscription) (rows : List Subscription) (tenant : Text)
    → tier_in (put_row new rows) tenant
      ≡ (if text_eq new.tenant_id tenant then new.tier else tier_in rows tenant)
unfolding put_row first_row
tier_in-put_row new [] tenant = ground arith
tier_in-put_row new (r ∷ rows) tenant = elim (Bool-cases (text_eq r.tenant_id new.tenant_id)) [
  | inl same ↦ ground (arith, same, text_eq-same r.tenant_id new.tenant_id tenant same)
  | inr other ↦ elim (Bool-cases (text_eq r.tenant_id tenant)) [
    | inr elsewhere ↦ ground (arith, other, elsewhere, tier_in-put_row new rows tenant)
    | inl here ↦ elim (Bool-cases (text_eq new.tenant_id tenant)) [
      | inr apart ↦ ground (arith, other, here, apart)
      | inl both ↦
          let a = (text_eq_iff r.tenant_id tenant).0 here in
          let b = (text_eq_iff new.tenant_id tenant).0 both in
          let c : text_eq r.tenant_id new.tenant_id ≡ true =
            (text_eq_iff r.tenant_id new.tenant_id).1 (a ∙ sym b) in
          ground (arith, other, c)
    ]
  ]
]

missing-apart :
    (p : Subscription → Bool) (t : Text) (rows : List Subscription) (r : Subscription)
    → has_tenant t rows ≡ false
    → first_row p rows ≡ some r
    → text_eq t r.tenant_id ≡ false
unfolding first_row
missing-apart p t [] r h e = cc
missing-apart p t (q ∷ rows) r h e = elim (Bool-cases (p q)) [
  | inr later ↦ missing-apart p t rows r (ground arith) (ground arith)
  | inl here ↦
      let same : q ≡ r = ground arith in
      let apart : text_eq q.tenant_id t ≡ false = ground arith in
      elim (Bool-cases (text_eq t r.tenant_id)) [
        | inr done ↦ done
        | inl eq ↦
            let back : text_eq q.tenant_id t ≡ true = (text_eq_iff q.tenant_id t).1 (
              ap (λ (x : Subscription). x.tenant_id) same
              ∙ sym ((text_eq_iff t r.tenant_id).0 eq)) in
            ground (arith, back, apart)
      ]
]

-- Where a workspace has one row, any lookup that finds it finds its plan.
pub tier_in-found :
    (p : Subscription → Bool) (rows : List Subscription) (r : Subscription)
    → DistinctTenants rows
    → first_row p rows ≡ some r
    → tier_in rows r.tenant_id ≡ r.tier
unfolding first_row
tier_in-found p [] r h e = cc
tier_in-found p (q ∷ rows) r (apart, rest) e = elim (Bool-cases (p q)) [
  | inl here ↦
      let same : q ≡ r = ground arith in
      let eq : text_eq q.tenant_id r.tenant_id ≡ true =
        (text_eq_iff q.tenant_id r.tenant_id).1 (ap (λ (x : Subscription). x.tenant_id) same) in
      let tiers : q.tier ≡ r.tier = ap (λ (x : Subscription). x.tier) same in
      ground (arith, eq, tiers)
  | inr later ↦
      let there : first_row p rows ≡ some r = ground arith in
      ground
        (arith, missing-apart p q.tenant_id rows r apart there, tier_in-found p rows r rest there)
]
