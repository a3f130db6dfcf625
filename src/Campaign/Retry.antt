-- ===== src/Campaign/Retry.antt =====
-- What a retry of failed deliveries does where neither a statement nor a publication fails.
use omnipulse_backend.Base.{
  ℕ, ◌==◌, Text, text_eq_refl, Bool, true, false, not, ◌&&◌, ◌||◌, Option, some, List, [], ◌∷◌,
  ◌++◌, map, is_empty, length, length-map, length-select, select, tally, ◌≡◌, refl, ap, sym, ◌∙◌,
  Bool-cases, inl, inr, arith, if◌then◌else◌,
}
use omnipulse_backend.Campaign.Types.{processing, Campaign, is_processing, is_completed}
use omnipulse_backend.Campaign.Task.{Task, Delivery}
use omnipulse_backend.Campaign.Store.{Result, ok, Store, attempt, query, find, set_row}
use omnipulse_backend.Campaign.Repo.{get_by_id, update_status}
use omnipulse_backend.Campaign.Dispatch.{publish_dispatch_task}
use omnipulse_backend.Campaign.Deliveries.{
  is_claimable, claim_row, claim_rows, owns, claim_deliveries_for_retry, retry_task, republish,
  RetryResponse, retry_tail, retry_deliveries,
}
use omnipulse_backend.Campaign.Moves.{find_row, find_same}
use omnipulse_backend.Campaign.Approval.{reading, get_by_id-quiet}
use omnipulse_backend.Campaign.Sending.{publishing, publishing_nil, publishing_twice}

publish-quiet :
    (task : Task) (s : Store)
    → s.faults ≡ []
    → attempt (publish_dispatch_task task) s ≡ (ok (some tt), publishing s (task ∷ []))
unfolding publish_dispatch_task query
publish-quiet task s quiet = ground arith

republish-quiet :
    (c : Campaign) (ds : List Delivery) (s : Store)
    → s.faults ≡ []
    → republish c ds s ≡ (ok (length ds, []), publishing s (map (retry_task c s.now) ds))
unfolding republish
republish-quiet c [] s quiet = ap (λ (t : Store). (ok (0, []), t)) (sym (publishing_nil s))
republish-quiet c (d ∷ ds) s quiet =
    let t = publishing s (retry_task c s.now d ∷ []) in
    ground (
      arith,
      publish-quiet (retry_task c s.now d) s quiet,
      republish-quiet c ds t quiet,
      publishing_twice s (retry_task c s.now d ∷ []) (map (retry_task c s.now) ds),
    )

-- The rows that a retry claims, as it claims them.
abbrev pub claimed : Text → List Text → Store → List Delivery
claimed id ids s = map (claim_row s.now) (select (is_claimable id ids) s.deliveries)

select-same {ℓ} :
    {A : Type ℓ} (b : Bool) (p : A → Bool) (xs : List A)
    → b ≡ true
    → select (λ x. b && p x) xs ≡ select p xs
select-same b p xs h = ap (λ (c : Bool). select (λ x. c && p x) xs) h

claim_rows-same :
    (b : Bool) (p : Delivery → Bool) (now : ℕ) (ds : List Delivery)
    → b ≡ true
    → claim_rows (λ d. b && p d) now ds ≡ claim_rows p now ds
claim_rows-same b p now ds h = ap (λ (c : Bool). claim_rows (λ d. c && p d) now ds) h

owns-found :
    (tenant id : Text) (s : Store) (row : Campaign)
    → find tenant id s ≡ some row
    → owns tenant id s ≡ true
owns-found tenant id s row found = ground (arith, find_row tenant id s row found)

-- The store once the rows are claimed.
abbrev pub claiming : Text → List Text → Store → Store
claiming id ids s = record s { deliveries = claim_rows (is_claimable id ids) s.now s.deliveries }

claim-quiet :
    (tenant id : Text) (ids : List Text) (s : Store) (row : Campaign)
    → s.faults ≡ []
    → find tenant id s ≡ some row
    → claim_deliveries_for_retry tenant id ids s ≡ (ok (claimed id ids s), claiming id ids s)
unfolding claim_deliveries_for_retry query
claim-quiet tenant id ids s row quiet found =
    let own : owns tenant id s ≡ true = owns-found tenant id s row found in
    ground (
      arith,
      select-same (owns tenant id s) (is_claimable id ids) s.deliveries own,
      claim_rows-same (owns tenant id s) (is_claimable id ids) s.now s.deliveries own,
    )

update_status-quiet :
    (tenant id : Text) (s : Store) (row : Campaign)
    → s.faults ≡ []
    → find tenant id s ≡ some row
    → attempt (update_status tenant id processing) s
      ≡ (ok (some tt), set_row id (some (record row { status = processing })) s)
unfolding update_status query
update_status-quiet tenant id s row quiet found = ground arith

abbrev pub response : List Delivery → RetryResponse
response l = record { retried = length l; total_tasks = length l }

retry_tail-kept :
    (tenant id : Text) (c : Campaign) (l : List Delivery) (s : Store)
    → s.faults ≡ []
    → not (is_empty l) && is_completed c.status ≡ false
    → retry_tail tenant id c l s ≡ (ok (response l), publishing s (map (retry_task c s.now) l))
unfolding retry_tail
retry_tail-kept tenant id c l s quiet h = ground (arith, republish-quiet c l s quiet)

retry_tail-reopened :
    (tenant id : Text) (c row : Campaign) (l : List Delivery) (s : Store)
    → s.faults ≡ []
    → find tenant id s ≡ some row
    → not (is_empty l) && is_completed c.status ≡ true
    → retry_tail tenant id c l s ≡ (
      ok (response l),
      publishing
          (set_row id (some (record row { status = processing })) s)
          (map (retry_task c s.now) l),
    )
unfolding retry_tail
retry_tail-reopened tenant id c row l s quiet found h =
    let t = set_row id (some (record row { status = processing })) s in
    let some_rows : length l == 0 ≡ false = ground arith in
    ground (
      arith,
      update_status-quiet tenant id s row quiet found,
      republish-quiet c l t quiet,
      some_rows,
    )

-- The row of a campaign whose deliveries are tried again.
abbrev pub reopened : List Delivery → Campaign → Campaign
reopened l row =
    if not (is_empty l) && is_completed row.status then record row { status = processing } else row

no_longer_claimable :
    (id : Text) (ids : List Text) (now : ℕ) (ds : List Delivery)
    → tally (is_claimable id ids) (claim_rows (is_claimable id ids) now ds) ≡ 0
unfolding claim_rows
no_longer_claimable id ids now [] = refl
no_longer_claimable id ids now (d ∷ ds) = ground (arith, no_longer_claimable id ids now ds)

-- A retry of a campaign in status processing or completed claims every delivery of it that failed,
-- may be tried again and is asked for: none of those is left in the table. Each is queued, and
-- published once, in order, after what was on the stream; the answer counts them; and a completed
-- campaign is in status processing again exactly if there were any, else its row is as it was.
-- (No database statement and no publication fails.)
pub retry_deliveries-sent :
    (tenant id : Text) (ids : List Text) (s : Store) (row : Campaign)
    → s.faults ≡ []
    → find tenant id s ≡ some row
    → is_processing row.status || is_completed row.status ≡ true
    → let l = claimed id ids s in
      let t = (retry_deliveries tenant id ids s).1 in
      ((retry_deliveries tenant id ids s).0 ≡ ok (response l))
      × (t.outbox ≡ s.outbox ++ map (retry_task (reading tenant id s row) s.now) l)
      × (t.deliveries ≡ claim_rows (is_claimable id ids) s.now s.deliveries)
      × (tally (is_claimable id ids) t.deliveries ≡ 0)
      × (length l ≡ tally (is_claimable id ids) s.deliveries)
      × (t.rows id ≡ some (reopened l row))
unfolding retry_deliveries
retry_deliveries-sent tenant id ids s row quiet found may =
    let c = reading tenant id s row in
    let l = claimed id ids s in
    let k = claiming id ids s in
    let read : get_by_id tenant id s ≡ (ok c, s) = get_by_id-quiet tenant id s row quiet found in
    let claim = claim-quiet tenant id ids s row quiet found in
    let here : s.rows id ≡ some row = (find_row tenant id s row found).0 in
    let counted : length l ≡ tally (is_claimable id ids) s.deliveries =
      length-map (claim_row s.now) (select (is_claimable id ids) s.deliveries)
      ∙ length-select (is_claimable id ids) s.deliveries in
    let there : find tenant id k ≡ some row = find_same tenant id s k refl ∙ found in
    let Outcome = Result RetryResponse × Store in
    let ran : Outcome → Result RetryResponse = λ p. p.0 in
    let sent : Outcome → List Task = λ p. p.1.outbox in
    let kept_rows : Outcome → List Delivery = λ p. p.1.deliveries in
    let left : Outcome → ℕ = λ p. tally (is_claimable id ids) p.1.deliveries in
    let row_now : Outcome → Option Campaign = λ p. p.1.rows id in
    let choose : Bool → Campaign = λ b. if b then record row { status = processing } else row in
    let cleared = no_longer_claimable id ids s.now s.deliveries in
    elim (Bool-cases (not (is_empty l) && is_completed c.status)) [
      | inr kept ↦
          let e : retry_deliveries tenant id ids s
              ≡ (ok (response l), publishing k (map (retry_task c s.now) l)) =
            ground (arith, read, claim, retry_tail-kept tenant id c l k quiet kept) in
          (
            ap ran e,
            ap sent e,
            ap kept_rows e,
            ap left e ∙ cleared,
            counted,
            ap row_now e ∙ (here ∙ ap (λ (b : Bool). some (choose b)) (sym kept)),
          )
      | inl reopens ↦
          let e : retry_deliveries tenant id ids s ≡ (
            ok (response l),
            publishing (set_row id (some (record row { status = processing })) k)
                (map (retry_task c s.now) l),
          ) =
            ground
              (arith, read, claim, retry_tail-reopened tenant id c row l k quiet there reopens) in
          (
            ap ran e,
            ap sent e,
            ap kept_rows e,
            ap left e ∙ cleared,
            counted,
            ap row_now e
                ∙ (ground (arith, text_eq_refl id)
                    ∙ ap (λ (b : Bool). some (choose b)) (sym reopens)),
          )
    ]
