-- ===== src/Contact/Rows.antt =====
-- The first two loops of an import: each row is put on the list or accounted for.
use omnipulse_backend.Base.{
  ℕ, suc, ◌+◌, ◌≤◌, Text, Unicode, Option, List, [], ◌∷◌, Bool-cases, length, length-append, ◌≡◌,
  refl, inl, inr, arith, text_mem,
}
use omnipulse_backend.Base.State.{Outcome, outcome_of}
use omnipulse_backend.Contact.Types.{Contact}
use omnipulse_backend.Contact.Consent.{EventType}
use omnipulse_backend.Contact.Store.{Error, Store, M, ok, err, get_by_routing_value}
use omnipulse_backend.Contact.Import.{
  Row, Prepared, Progress, Summary, Complaint, not_checked, error_limit, add_error, read_row,
  enter_row, row_key, prepare_row, prepare_rows,
}
use omnipulse_backend.Contact.ImportWrite.{is_not_found, looked_up, lookup_rows}

-- The rows whose consent was counted.
abbrev pub settled : Summary → ℕ
settled s = s.consent_granted + (s.consent_revoked + s.no_consent)

-- The rows that are accounted for.
abbrev pub accounted : Summary → ℕ
accounted s = s.duplicates + (s.invalid + settled s)

abbrev pub saved : Summary → ℕ
saved s = s.created + s.existing

-- What every step keeps: the total, the length of the list of errors, and that a row whose consent
-- was counted was saved.
abbrev pub Tidy : ℕ → Summary → Type 0
Tidy total s =
    (s.total ≡ total)
    × (length s.errors ≤ error_limit)
    × (length s.errors ≤ s.invalid)
    × (settled s ≤ saved s)

pub add_error-Tidy :
    (total n : ℕ) (routing : Text) (why : Complaint) (s : Summary)
    → Tidy total s
    → Tidy total (add_error n routing why s)
      × (accounted (add_error n routing why s) ≡ suc (accounted s))
      × (saved (add_error n routing why s) ≡ saved s)
unfolding add_error
add_error-Tidy total n routing why s (t, e, i, v) =
    let grown =
      length-append s.errors (record { row = n; routing = routing; complaint = why } ∷ []) in
    ((t, ground (arith, e, grown), ground (arith, i, grown), v), omega arith, refl)

-- The first loop puts every row on the list or accounts for it.
abbrev pub Balanced : ℕ → ℕ → Progress → Type 0
Balanced total n p =
    Tidy total p.summary × (length p.prepared + accounted p.summary ≡ n) × (saved p.summary ≡ 0)

enter_row-Balanced :
    ⦃uni : Unicode⦄ (total k n : ℕ) (row : Row)
    (o : Outcome (Text × Complaint) (Text × Text × Option EventType)) (p : Progress)
    → Balanced total n p
    → Balanced total (suc n) (enter_row k row o p)
enter_row-Balanced total k n row (err (routing, why)) p h =
    ground (arith, add_error-Tidy total k routing why p.summary h.0)
enter_row-Balanced total k n row (ok (channel, routing, consent)) p h =
    elim (Bool-cases (text_mem (row_key channel routing) p.seen)) [
      | inl twice ↦ ground arith
      | inr once ↦ ground arith
    ]

pub prepare_rows-Balanced :
    ⦃uni : Unicode⦄ (total k n : ℕ) (channel : Text) (consent : Option EventType) (rows : List Row)
    (p : Progress)
    → Balanced total n p
    → Balanced total (n + length rows) (prepare_rows channel consent k rows p)
unfolding prepare_rows prepare_row
prepare_rows-Balanced total k n channel consent [] p h = ground (arith, h)
prepare_rows-Balanced total k n channel consent (row ∷ rows) p h =
    let next : Progress = enter_row k row (read_row channel consent row) p in
    let rest : Balanced total (suc n + length rows)
        (prepare_rows channel consent (suc k) rows next) =
      prepare_rows-Balanced total (suc k) (suc n) channel consent rows next
        (enter_row-Balanced total k n row (read_row channel consent row) p h) in
    (rest.0, omega (arith, rest.1), rest.2)

looked_up-Balanced :
    (total n m : ℕ) (row : Prepared) (o : Outcome Error Contact) (found : List Prepared)
    (s : Summary)
    → Tidy total s
    → length found + suc m + accounted s ≡ n
    → saved s ≡ 0
    → Tidy total (looked_up row o (found, s)).1
      × (length (looked_up row o (found, s)).0 + m + accounted (looked_up row o (found, s)).1 ≡ n)
      × (saved (looked_up row o (found, s)).1 ≡ 0)
looked_up-Balanced total n m row (ok c) found s h k v = (h, omega (arith, k), v)
looked_up-Balanced total n m row (err e) found s h k v = elim (Bool-cases (is_not_found e)) [
  | inl missing ↦ ground (arith, h, k, v)
  | inr failed ↦ ground (arith, add_error-Tidy total row.number row.routing not_checked s h, k, v)
]

outcome-total : {A : Type 0} (m : M A) (s : Store) → outcome_of m s ≡ (ok (m s).0, (m s).1)
outcome-total m s = refl

pub lookup_rows-Balanced :
    (total n : ℕ) (tenant : Text) (rows found : List Prepared) (s : Summary) (t : Store)
    → Tidy total s
    → length found + length rows + accounted s ≡ n
    → saved s ≡ 0
    → (r : List Prepared × Summary) × ((lookup_rows tenant rows (found, s) t).0 ≡ ok r)
      × Tidy total r.1
      × (length r.0 + accounted r.1 ≡ n)
      × (saved r.1 ≡ 0)
unfolding lookup_rows
lookup_rows-Balanced total n tenant [] found s t h k v = ((found, s), refl, h, omega (arith, k), v)
lookup_rows-Balanced total n tenant (row ∷ rows) found s t h k v =
    let m = get_by_routing_value tenant row.channel row.routing in
    let (a, b, c) = looked_up-Balanced total n (length rows) row (m t).0 found s h k v in
    let next = looked_up row (m t).0 (found, s) in
    lookup_rows-Balanced total n tenant rows next.0 next.1 (m t).1 a b c
