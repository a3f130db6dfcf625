-- ===== src/Contact/Tallies.antt =====
-- The numbers of an import's summary add up, whatever fails on the way.
use omnipulse_backend.Base.{
  ℕ, suc, ◌+◌, ◌≤◌, ℤ, Text, Unicode, Option, none, some, List, [], ◌∷◌, reverse, Option-cases,
  Bool-cases, length, ltb, ◌≡◌, refl, inl, inr, arith, length-reverse, subst,
}
use omnipulse_backend.Base.State.{Outcome, Outcome-cases}
use omnipulse_backend.Contact.Consent.{EventType, granted, revoked}
use omnipulse_backend.Contact.Store.{Error, Store, M, ok, attempt, create_contact, apply_event}
use omnipulse_backend.Contact.Import.{
  Row, Request, Prepared, Progress, Summary, Complaint, consent_not_recorded, previously_opted_out,
  not_saved, error_limit, add_error, prepare_rows, parse_import_consent,
}
use omnipulse_backend.Contact.ImportWrite.{
  is_refused, lookup_rows, count_row, count_consent, consent_event, new_contact, record_consent,
  write_row, write_rows, empty_summary, finish, limited, check_import_quota, default_channel_of,
  import_rows, import_contacts,
}
use omnipulse_backend.Contact.Rows.{
  settled, accounted, saved, Tidy, add_error-Tidy, prepare_rows-Balanced, lookup_rows-Balanced,
}

attempt-total : {A : Type 0} (m : M A) (s : Store) → (r : Option A) × ((attempt m s).0 ≡ ok r)
attempt-total m s = elim (Outcome-cases (m s).0) [
  | inl (a, e) ↦ (some a, ground arith)
  | inr (x, e) ↦ (none, ground arith)
]

-- One step of the last loop: it never fails, and accounts for one row more.
abbrev Counted : ℕ → Summary → Summary → Type 0
Counted total s t = Tidy total t × (accounted t ≡ suc (accounted s)) × (saved t ≤ suc (saved s))

add_error-Counted :
    (total n : ℕ) (routing : Text) (why : Complaint) (s : Summary)
    → Tidy total s
    → Counted total s (add_error n routing why s)
add_error-Counted total n routing why s h =
    let (x, y, z) = add_error-Tidy total n routing why s h in (x, y, omega (arith, z))

count_consent-Counted :
    (total : ℕ) (consent : Option EventType) (row : Prepared) (s : Summary)
    → Tidy total s
    → Counted total s (count_consent consent (count_row row s))
count_consent-Counted total none row s h = ground (arith, h)
count_consent-Counted total (some granted) row s h = ground (arith, h)
count_consent-Counted total (some revoked) row s h = ground (arith, h)

count_row-Tidy :
    (total : ℕ) (row : Prepared) (s : Summary)
    → Tidy total s
    → Tidy total (count_row row s)
      × (accounted (count_row row s) ≡ accounted s)
      × (saved (count_row row s) ≡ suc (saved s))
count_row-Tidy total row s h = ground (arith, h)

record_consent-Counted :
    (total : ℕ) (tenant id : Text) (row : Prepared) (s : Summary) (st : Store)
    → Tidy total s
    → (t : Summary) × ((record_consent tenant id row (count_row row s) st).0 ≡ ok t)
      × Counted total s t
unfolding record_consent
record_consent-Counted total tenant id row s st h = elim (Option-cases row.consent) [
  | inl e ↦
      (count_consent none (count_row row s), ground arith, count_consent-Counted total none row s h)
  | inr (t, e) ↦
      let counted = count_row row s in
      let failed = add_error row.number row.routing consent_not_recorded counted in
      let (a, b, c) = count_row-Tidy total row s h in
      let (x, y, z) = add_error-Tidy total row.number row.routing consent_not_recorded counted a in
      let lost_consent : Counted total s failed = (x, omega (arith, y, b), omega (arith, z, c)) in
      let (r, tried) = attempt-total (apply_event (consent_event tenant id row t)) st in
      elim (Option-cases r) [
        | inl lost ↦ (failed, ground (arith, tried), lost_consent)
        | inr (applied, done) ↦ (
          count_consent (some t) counted,
          ground (arith, tried),
          count_consent-Counted total (some t) row s h,
        )
      ]
]

write_row-Counted :
    (total : ℕ) (tenant : Text) (row : Prepared) (s : Summary) (st : Store)
    → Tidy total s
    → (t : Summary) × ((write_row tenant row s st).0 ≡ ok t) × Counted total s t
unfolding write_row
write_row-Counted total tenant row s st h = elim (Bool-cases (is_refused row)) [
  | inl refused ↦ (
    add_error row.number row.routing previously_opted_out s,
    ground arith,
    add_error-Counted total row.number row.routing previously_opted_out s h,
  )
  | inr allowed ↦
      let m = create_contact (new_contact tenant row) in
      let (r, tried) = attempt-total m st in
      elim (Option-cases r) [
        | inl lost ↦ (
          add_error row.number row.routing not_saved s,
          ground (arith, tried),
          add_error-Counted total row.number row.routing not_saved s h,
        )
        | inr (id, done) ↦
            let (t, e, k) = record_consent-Counted total tenant id row s (attempt m st).1 h in
            (t, ground (arith, tried, e), k)
      ]
]

write_rows-Counted :
    (total : ℕ) (tenant : Text) (rows : List Prepared) (s : Summary) (st : Store)
    → Tidy total s
    → (t : Summary) × ((write_rows tenant rows s st).0 ≡ ok t)
      × Tidy total t
      × (accounted t ≡ length rows + accounted s)
      × (saved t ≤ length rows + saved s)
unfolding write_rows
write_rows-Counted total tenant [] s st h = (s, refl, h, omega arith, omega arith)
write_rows-Counted total tenant (row ∷ rows) s st h =
    let (t, e, (k, n, v)) = write_row-Counted total tenant row s st h in
    let (u, f, l, m, w) = write_rows-Counted total tenant rows t (write_row tenant row s st).1 k in
    (u, ground (arith, e, f), l, omega (arith, m, n), omega (arith, w, v))

answer_unique : {A : Type 0} (r : Outcome Error A) (a b : A) → r ≡ ok a → r ≡ ok b → a ≡ b
answer_unique r a b h k = ground (arith, h, k)

-- The numbers of an answer to `n` rows: the rows that were duplicates or invalid, and those whose
-- consent was counted as granted, revoked or absent, are together `n`.
abbrev pub Accounted : ℕ → Summary → Type 0
Accounted n s =
    (s.total ≡ n)
    × (accounted s ≡ n)
    × (settled s ≤ saved s)
    × (saved s ≤ n)
    × (length s.errors ≤ error_limit)
    × (s.truncated_errors ≡ ltb (length s.errors) s.invalid)

finish-Accounted :
    (n m : ℕ) (s : Summary)
    → Tidy n s
    → accounted s ≡ n
    → saved s ≤ m
    → m ≤ n
    → Accounted n (finish s)
finish-Accounted n m s (t, e, i, v) k w le = (t, k, v, omega (arith, w, le), e, refl)

import_rows-Accounted :
    ⦃uni : Unicode⦄ (capacity : Option ℤ) (tenant channel : Text) (consent : Option EventType)
    (rows : List Row) (st : Store) (s : Summary)
    → (import_rows capacity tenant channel consent rows st).0 ≡ ok s
    → Accounted (length rows) s
unfolding import_rows
import_rows-Accounted capacity tenant channel consent rows st s h =
    let n = length rows in
    let start : Progress = record { prepared = []; seen = []; summary = empty_summary n } in
    let p = prepare_rows channel consent 1 rows start in
    let (a, b, c) =
      prepare_rows-Balanced n 1 0 channel consent rows start
        ((refl, omega arith, omega arith, omega arith), omega arith, omega arith) in
    let ready = reverse p.prepared in
    let (r, e, x, y, z) =
      lookup_rows-Balanced n n tenant ready [] p.summary st a
        (omega (arith, b, length-reverse p.prepared)) c in
    let found = reverse r.0 in
    let after = (lookup_rows tenant ready ([], p.summary) st).1 in
    let check = check_import_quota (limited capacity) tenant found in
    let (t, f, l, m, w) = write_rows-Counted n tenant found r.1 (check after).1 x in
    let done : Accounted n (finish t) =
      finish-Accounted n (length found) t l (omega (arith, m, y, length-reverse r.0))
        (omega (arith, w, z)) (omega (arith, y, length-reverse r.0)) in
    elim (Outcome-cases (check after).0) [
      | inr (full, k) ↦ ground (arith, h, e, k)
      | inl (passed, k) ↦
          let answer = (import_rows capacity tenant channel consent rows st).0 in
          let ran : answer ≡ ok (finish t) = ground (arith, e, k, f) in
          subst (λ (u : Summary). Accounted n u) (answer_unique answer (finish t) s ran h) done
    ]

-- What an import that is not refused answers, whatever fails on the way: the rows that were
-- duplicates or invalid, and those whose consent was counted as granted, revoked or absent, are
-- together as many as the rows of the request; no more rows are counted as saved than there are,
-- and no fewer than have their consent counted; at most 50 errors are listed, and the answer says
-- whether there were more.
pub import_contacts-Accounted :
    ⦃uni : Unicode⦄ (capacity : Option ℤ) (tenant : Text) (req : Request) (st : Store) (s : Summary)
    → (import_contacts capacity tenant req st).0 ≡ ok s
    → Accounted (length req.rows) s
unfolding import_contacts
import_contacts-Accounted capacity tenant req st s h =
    elim (Option-cases (default_channel_of req.default_channel)) [
      | inl e ↦ ground arith
      | inr (channel, e) ↦ elim (Option-cases (parse_import_consent req.default_consent)) [
        | inl f ↦ ground arith
        | inr (consent, f) ↦
            import_rows-Accounted capacity tenant channel consent req.rows st s
              (ground (arith, h, e, f))
      ]
    ]
