-- ===== src/Campaign/Breakdown.antt =====
-- What the failures of a campaign add up to in its statistics.
use omnipulse_backend.Base.{
  ℕ, Text, text_eq, text_eq_iff, Bool, true, false, Option, none, some, List, [], ◌∷◌, ◌&&◌, ◌+◌,
  ◌≤◌, ◌<◌, ◌≡◌, refl, inl, inr, arith, tally, any, select, length, length-select, All, Bool-cases,
  Option-cases, if◌then◌else◌,
}
use omnipulse_backend.Campaign.Types.{Campaign}
use omnipulse_backend.Campaign.Task.{Delivery, sent, delivered, failed}
use omnipulse_backend.Campaign.Store.{Store, ok, query}
use omnipulse_backend.Campaign.Stats.{
  Group, CampaignStats, same_bool, same_code, add_to_group, group_rows, code_name, breakdown,
  failed_in, with_status, stats_header, get_campaign_stats,
}

-- A group has a row at least.
abbrev Counted : List Group → Type 0
Counted gs = All (λ g. 1 ≤ g.count) gs

-- How many rows the groups of a name hold.
abbrev weight : Text → List Group → ℕ
weight name [] = 0
weight name (g ∷ gs) = (if text_eq (code_name g.code) name then g.count else 0) + weight name gs

-- The name has a group with the flag.
abbrev has_group : Text → Bool → List Group → Bool
has_group name flag gs = any (λ g. text_eq (code_name g.code) name && same_bool g.retryable flag) gs

-- The failure has the name.
abbrev pub is_named : Text → Delivery → Bool
is_named name d = text_eq (code_name d.failure_code) name

abbrev pub is_kept : Bool → Delivery → Bool
is_kept flag d = same_bool d.retryable flag

same_code-name : (a b : Option Text) → same_code a b ≡ true → code_name a ≡ code_name b
same_code-name none none h = refl
same_code-name none (some b) h = cc
same_code-name (some a) none h = cc
same_code-name (some a) (some b) h = (text_eq_iff a b).0 h

same_bool-eq : (a b : Bool) → same_bool a b ≡ true → a ≡ b
same_bool-eq true true h = refl
same_bool-eq true false h = cc
same_bool-eq false true h = cc
same_bool-eq false false h = refl

same_bool_refl : (b : Bool) → same_bool b b ≡ true
same_bool_refl true = refl
same_bool_refl false = refl

add_to_group-Counted :
    (code : Option Text) (flag : Bool) (gs : List Group)
    → Counted gs
    → Counted (add_to_group code flag gs)
unfolding add_to_group
add_to_group-Counted code flag [] h = (omega arith, tt)
add_to_group-Counted code flag (g ∷ gs) h = ground (arith, add_to_group-Counted code flag gs h.1)

failed_in-add_to_group :
    (code : Option Text) (flag kept : Bool) (gs : List Group)
    → failed_in kept (add_to_group code flag gs)
      ≡ (if same_bool flag kept then 1 else 0) + failed_in kept gs
unfolding add_to_group failed_in
failed_in-add_to_group code flag kept [] = ground arith
failed_in-add_to_group code flag kept (g ∷ gs) = ground (
  arith,
  failed_in-add_to_group code flag kept gs,
  same_bool-eq g.retryable flag,
  same_bool_refl flag,
)

weight-add_to_group :
    (code : Option Text) (flag : Bool) (name : Text) (gs : List Group)
    → weight name (add_to_group code flag gs)
      ≡ (if text_eq (code_name code) name then 1 else 0) + weight name gs
unfolding add_to_group
weight-add_to_group code flag name [] = ground arith
weight-add_to_group code flag name (g ∷ gs) =
    ground (arith, weight-add_to_group code flag name gs, same_code-name g.code code)

has_group-add_to_group :
    (code : Option Text) (flag : Bool) (name : Text) (kept : Bool) (gs : List Group)
    → has_group name kept (add_to_group code flag gs) ≡ (
        if text_eq (code_name code) name && same_bool flag kept
        then true
        else has_group name kept gs)
unfolding add_to_group
has_group-add_to_group code flag name kept [] = ground arith
has_group-add_to_group code flag name kept (g ∷ gs) = ground (
  arith,
  has_group-add_to_group code flag name kept gs,
  same_code-name g.code code,
  same_bool-eq g.retryable flag,
)

breakdown-weight :
    (name : Text) (gs : List Group) (n : ℕ) → breakdown gs name ≡ some n → n ≤ weight name gs
unfolding breakdown
breakdown-weight name [] n h = cc
breakdown-weight name (g ∷ gs) n h = elim (Option-cases (breakdown gs name)) [
  | inl none_later ↦ ground (arith, none_later)
  | inr (m, e) ↦ ground (arith, e, breakdown-weight name gs m e)
]

-- A name that has a group is in the breakdown, with at most the rows of its groups.
breakdown-le :
    (name : Text) (flag : Bool) (gs : List Group)
    → has_group name flag gs ≡ true
    → (n : ℕ) × (breakdown gs name ≡ some n) × (n ≤ weight name gs)
unfolding breakdown
breakdown-le name flag [] h = cc
breakdown-le name flag (g ∷ gs) h = elim (Bool-cases (has_group name flag gs)) [
  | inl later ↦
      let (n, e, le) = breakdown-le name flag gs later in (n, ground (arith, e), ground (arith, le))
  | inr last ↦ elim (Option-cases (breakdown gs name)) [
    | inl none_later ↦ (g.count, ground (arith, none_later, last), ground (arith, last))
    | inr (n, e) ↦ (n, ground (arith, e), ground (arith, breakdown-weight name gs n e))
  ]
]

-- Where a name has two groups, one of them is lost.
breakdown-lt :
    (name : Text) (gs : List Group)
    → Counted gs
    → has_group name true gs ≡ true
    → has_group name false gs ≡ true
    → (n : ℕ) × (breakdown gs name ≡ some n) × (n < weight name gs)
unfolding breakdown
breakdown-lt name [] counted a b = cc
breakdown-lt name (g ∷ gs) counted a b = elim (Bool-cases (text_eq (code_name g.code) name)) [
  | inr elsewhere ↦
      let (n, e, lt) = breakdown-lt name gs counted.1 (ground arith) (ground arith) in
      (n, ground (arith, e), ground (arith, lt))
  | inl here ↦ elim (Bool-cases g.retryable) [
    | inl may ↦
        let (n, e, le) = breakdown-le name false gs (ground arith) in
        (n, ground (arith, e), ground (arith, le))
    | inr may_not ↦
        let (n, e, le) = breakdown-le name true gs (ground arith) in
        (n, ground (arith, e), ground (arith, le))
  ]
]

group_rows-Counted : (ds : List Delivery) → Counted (group_rows ds)
unfolding group_rows
group_rows-Counted [] = tt
group_rows-Counted (d ∷ ds) =
    add_to_group-Counted d.failure_code d.retryable (group_rows ds) (group_rows-Counted ds)

failed_in-group_rows :
    (kept : Bool) (ds : List Delivery)
    → failed_in kept (group_rows ds) ≡ tally (λ d. is_kept kept d) ds
unfolding group_rows failed_in
failed_in-group_rows kept [] = refl
failed_in-group_rows kept (d ∷ ds) = ground (
  arith,
  failed_in-add_to_group d.failure_code d.retryable kept (group_rows ds),
  failed_in-group_rows kept ds,
)

weight-group_rows :
    (name : Text) (ds : List Delivery)
    → weight name (group_rows ds) ≡ tally (λ d. is_named name d) ds
unfolding group_rows
weight-group_rows name [] = refl
weight-group_rows name (d ∷ ds) = ground (
  arith,
  weight-add_to_group d.failure_code d.retryable name (group_rows ds),
  weight-group_rows name ds,
)

has_group-group_rows :
    (name : Text) (kept : Bool) (ds : List Delivery)
    → any (λ d. is_named name d && is_kept kept d) ds ≡ true
    → has_group name kept (group_rows ds) ≡ true
unfolding group_rows
has_group-group_rows name kept [] h = cc
has_group-group_rows name kept (d ∷ ds) h = ground (
  arith,
  has_group-add_to_group d.failure_code d.retryable name kept (group_rows ds),
  has_group-group_rows name kept ds,
)

any-select :
    (p q : Delivery → Bool) (ds : List Delivery)
    → any (λ d. p d && q d) ds ≡ true
    → any q (select p ds) ≡ true
any-select p q [] h = cc
any-select p q (d ∷ ds) h = ground (arith, any-select p q ds)

tally-select :
    (p q : Delivery → Bool) (ds : List Delivery)
    → tally q (select p ds) ≡ tally (λ d. p d && q d) ds
tally-select p q [] = refl
tally-select p q (d ∷ ds) = ground (arith, tally-select p q ds)

tally-is_kept :
    (ds : List Delivery)
    → tally (λ d. is_kept true d) ds + tally (λ d. is_kept false d) ds ≡ length ds
tally-is_kept [] = refl
tally-is_kept (d ∷ ds) = ground (arith, tally-is_kept ds)

-- What is returned where no statement fails.
abbrev stats : ℕ × ℕ → Text → Campaign → Store → CampaignStats
stats payments id c s =
    let groups = group_rows (select (with_status id failed) s.deliveries) in
    record {
      campaign_id = id;
      tenant_id = c.tenant_id;
      status = c.status;
      total_targets = c.total_targets;
      processed_targets = c.processed_targets;
      sent = tally (with_status id sent) s.deliveries;
      delivered = tally (with_status id delivered) s.deliveries;
      failed = tally (with_status id failed) s.deliveries;
      retryable_failed = failed_in true groups;
      terminal_failed = failed_in false groups;
      failure_breakdown = breakdown groups;
      revenue_kobo = payments.0;
      paid_orders_count = payments.1;
    }

-- The failures of a campaign in its statistics: those that may be retried and those that may not add
-- up to all of them. But where some of a code may be retried and some may not, the breakdown by
-- code counts fewer than there are. (No database statement fails.)
pub get_campaign_stats-breakdown :
    (payments : ℕ × ℕ) (tenant id name : Text) (s : Store) (row : Campaign)
    → s.faults ≡ []
    → stats_header tenant id s ≡ some row
    → any (λ d. with_status id failed d && (is_named name d && is_kept true d)) s.deliveries ≡ true
    → any (λ d. with_status id failed d && (is_named name d && is_kept false d)) s.deliveries ≡ true
    → (p : CampaignStats) × (get_campaign_stats payments tenant id s ≡ (ok p, s))
      × (p.failed ≡ tally (with_status id failed) s.deliveries)
      × (p.retryable_failed + p.terminal_failed ≡ p.failed)
      × (n : ℕ) × (p.failure_breakdown name ≡ some n)
      × (n < tally (λ d. with_status id failed d && is_named name d) s.deliveries)
unfolding get_campaign_stats query
get_campaign_stats-breakdown payments tenant id name s row quiet found may may_not =
    let ds = select (with_status id failed) s.deliveries in
    let gs = group_rows ds in
    let (n, e, lt) =
      breakdown-lt name gs (group_rows-Counted ds)
        (has_group-group_rows name true ds (
          any-select (with_status id failed) (λ d. is_named name d && is_kept true d) s.deliveries
            may))
        (has_group-group_rows name false ds (
          any-select (with_status id failed) (λ d. is_named name d && is_kept false d) s.deliveries
            may_not)) in
    (
      stats payments id row s,
      ground (arith, found),
      refl,
      omega (
        arith,
        failed_in-group_rows true ds,
        failed_in-group_rows false ds,
        tally-is_kept ds,
        length-select (with_status id failed) s.deliveries,
      ),
      n,
      e,
      omega (
        arith,
        lt,
        weight-group_rows name ds,
        tally-select (with_status id failed) (λ d. is_named name d) s.deliveries,
      ),
    )
