-- ===== src/Billing/Lookups.antt =====
-- What the lookups of the table find, and what a statement leaves of its rows.

use omnipulse_backend.Base.{
  Text, Bool, true, Option, none, some, List, [], ◌∷◌, ◌||◌, ◌∙◌, ◌≡◌, subst, sym, ap, ◌⊎◌, inl,
  inr, arith, Bool-cases, Option-cases,
}
use omnipulse_backend.Base.State.{Outcome-cases}
use omnipulse_backend.Billing.Types.{Subscription, Provider, stripe}
use omnipulse_backend.Billing.Store.{
  Error, Store, M, ok, err, query, first_row, of_subscription, of_customer, put_row, upsert,
  get_by_subscription_id, get_by_customer_id,
}
use omnipulse_backend.Billing.Webhooks.{row_by_customer, find_stripe, change}

pub upsert-cases :
    (new : Subscription) (s : Store)
    → ((upsert new s).1.subscriptions ≡ s.subscriptions)
      ⊎ ((upsert new s).1.subscriptions ≡ put_row new s.subscriptions)
unfolding upsert query
upsert-cases new s = ground arith

-- What a lookup found is the first row of some WHERE clause, and passes the test `q`.
abbrev pub Found : (Subscription → Bool) → List Subscription → Subscription → Type 0
Found q rows r = (p : Subscription → Bool) × (first_row p rows ≡ some r) × (q r ≡ true)

-- A lookup changes no row, and finds none or such a row.
abbrev pub Finds : (Subscription → Bool) → M (Option Subscription) → Type 0
Finds q m =
    (s : Store)
    → ((m s).1.subscriptions ≡ s.subscriptions)
      × (((m s).0 ≡ ok none)
          ⊎ ((r : Subscription) × ((m s).0 ≡ ok (some r)) × Found q s.subscriptions r))

first_row-holds :
    (p : Subscription → Bool) (rows : List Subscription) (r : Subscription)
    → first_row p rows ≡ some r
    → p r ≡ true
unfolding first_row
first_row-holds p [] r e = cc
first_row-holds p (q ∷ rows) r e = elim (Bool-cases (p q)) [
  | inl here ↦ let same : q ≡ r = ground arith in subst (λ (x : Subscription). p x ≡ true) same here
  | inr later ↦ first_row-holds p rows r (ground arith)
]

abbrev pub of_stripe : Text → Text → Subscription → Bool
of_stripe id customer r = of_subscription stripe id r || of_customer stripe customer r

pub row_by_customer-Finds :
    (provider : Provider) (id : Text)
    → Finds (of_customer provider id) (row_by_customer provider id)
unfolding row_by_customer get_by_customer_id query
row_by_customer-Finds provider id s =
    elim (Option-cases (first_row (of_customer provider id) s.subscriptions)) [
      | inl gone ↦ (ground (arith, gone), inl (ground (arith, gone)))
      | inr (r, e) ↦ elim (Outcome-cases (query s).0) [
        | inr (x, failed) ↦ (ground (arith, failed, e), inl (ground (arith, failed, e)))
        | inl (done, asked) ↦ (
          ground (arith, asked, e),
          inr (
            r,
            ground (arith, asked, e),
            (
              of_customer provider id,
              e,
              first_row-holds (of_customer provider id) s.subscriptions r e,
            ),
          ),
        )
      ]
    ]

by_subscription-cases :
    (id : Text) (s : Store)
    → let out = get_by_subscription_id stripe id s in
      (out.1.subscriptions ≡ s.subscriptions)
      × (((r : Subscription) × (out.0 ≡ ok (some r))
            × (first_row (of_subscription stripe id) s.subscriptions ≡ some r))
          ⊎ ((out.0 ≡ ok none) ⊎ ((x : Error) × (out.0 ≡ err x))))
unfolding get_by_subscription_id query
by_subscription-cases id s = (
  ground arith,
  elim (Outcome-cases (get_by_subscription_id stripe id s).0) [
    | inr (x, failed) ↦ inr (inr (x, failed))
    | inl (none, missed) ↦ inr (inl missed)
    | inl (some r, found) ↦ inl (r, found, ground (arith, found))
  ],
)

pub find_stripe-Finds :
    (id customer : Text) → Finds (of_stripe id customer) (find_stripe id customer)
unfolding find_stripe
find_stripe-Finds id customer s =
    let t = (get_by_subscription_id stripe id s).1 in
    let (same, either) = by_subscription-cases id s in
    let (again, second) = row_by_customer-Finds stripe customer t in
    elim either [
      | inl (r, found, e) ↦
          let holds = first_row-holds (of_subscription stripe id) s.subscriptions r e in
          (
            ground (arith, found, same),
            inr (r, ground (arith, found), (of_subscription stripe id, e, ground (arith, holds))),
          )
      | inr missed ↦
          let left : find_stripe id customer s ≡ row_by_customer stripe customer t =
            ground (arith, missed) in
          (
            ground (arith, left, same, again),
            elim second [
              | inl none_too ↦ inl (ground (arith, left, none_too))
              | inr (r, found, (p, e, holds)) ↦ inr (
                r,
                ground (arith, left, found),
                (
                  p,
                  ap (λ (rows : List Subscription). first_row p rows) (sym same) ∙ e,
                  ground (arith, holds),
                ),
              )
            ],
          )
    ]

-- What becomes of the rows when what is found is changed and written back.
pub change-cases :
    (q : Subscription → Bool) (m : M (Option Subscription)) (f : Subscription → Subscription)
    → Finds q m
    → (s : Store)
    → ((change m f s).1.subscriptions ≡ s.subscriptions)
      ⊎ ((r : Subscription) × Found q s.subscriptions r
          × ((change m f s).1.subscriptions ≡ put_row (f r) s.subscriptions))
unfolding change
change-cases q m f finds s =
    let t = (m s).1 in
    let (same, either) = finds s in
    elim either [
      | inl missed ↦ inl (ground (arith, missed, same))
      | inr (r, found, at) ↦ elim (upsert-cases (f r) t) [
        | inl failed ↦ inl (ground (arith, found, failed, same))
        | inr put ↦
            let rows : put_row (f r) t.subscriptions ≡ put_row (f r) s.subscriptions =
              ap (λ (rows : List Subscription). put_row (f r) rows) same in
            inr (r, at, ground (arith, found, put, rows))
      ]
    ]
