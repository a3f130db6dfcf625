-- ===== src/Review/LinkRows.antt =====
-- What the statements on the table of links leave, and how long a link lives.
use omnipulse_backend.Base.{
  ℕ, ◌≤◌, ◌<◌, Text, text_eq, text_eq_refl, Bool, true, false, none, some, is_some, List, [], ◌∷◌,
  any, Bool-cases, ◌≡◌, ◌⊎◌, refl, subst, inl, inr, arith,
}
use omnipulse_backend.Base.State.{Outcome, ok, err}
use omnipulse_backend.Review.Portal.{Token}
use omnipulse_backend.Review.LinkStore.{
  LinkError, database, Row, Desk, ask, add_token, create_token, is_revocable, revoke_if,
  revoke_rows, revoke_token, of_hash,
}
use omnipulse_backend.Review.Links.{ttl_max, clamp_ttl}
use omnipulse_backend.Review.Handover.{revoke_if-hash}

-- The row that is stored.
abbrev pub stored : Row → Desk → Token
stored row d = record row.token { id = d.ids d.drawn; revoked_at = none }

abbrev Added : Row → Desk → Outcome LinkError Token × Desk → Type 0
Added row d end =
    (end.0 ≡ ok (stored row d)) × (end.1.links ≡ record row { token = stored row d } ∷ d.links)

add_token-cases :
    (row : Row) (d : Desk)
    → ((x : LinkError) × ((add_token row d).0 ≡ err x)) ⊎ Added row d (add_token row d)
unfolding add_token
add_token-cases row d = elim (Bool-cases (any (λ (r : Row). text_eq r.hash row.hash) d.links)) [
  | inl known ↦ inl (database, ground (arith, known))
  | inr fresh ↦ inr (ground (arith, fresh), ground (arith, fresh))
]

pub create_token-cases :
    (row : Row) (d : Desk) (faults : List Bool)
    → let end = create_token row (record d { faults = faults }) in
      ((x : LinkError) × (end.0 ≡ err x)) ⊎ Added row d end
unfolding create_token ask
create_token-cases row d [] = add_token-cases row (record d { faults = [] })
create_token-cases row d (true ∷ rest) = inl (database, refl)
create_token-cases row d (false ∷ rest) = add_token-cases row (record d { faults = rest })

own-revoked :
    (now : ℕ) (r : Row)
    → let p = is_revocable r.token.tenant_id r.token.campaign_id r.token.id in
      is_some (revoke_if (p r) now r).token.revoked_at ≡ true
own-revoked now r = ground (
  arith,
  text_eq_refl r.token.id,
  text_eq_refl r.token.tenant_id,
  text_eq_refl r.token.campaign_id,
)

-- From the time that it is revoked.
pub of_hash-final :
    (h : Text) (t : Token) (now : ℕ) (rs : List Row)
    → of_hash h rs ≡ some t
    → (u : Token) × (of_hash h (revoke_rows (is_revocable t.tenant_id t.campaign_id t.id) now rs)
        ≡ some u)
      × (is_some u.revoked_at ≡ true)
of_hash-final h t now [] found = cc
of_hash-final h t now (r ∷ rs) found = elim (Bool-cases (text_eq r.hash h)) [
  | inr other ↦
      let (u, found_u, gone) = of_hash-final h t now rs (ground (arith, found, other)) in
      let p = is_revocable t.tenant_id t.campaign_id t.id in
      (u, ground (arith, other, revoke_if-hash (p r) now r, found_u), gone)
  | inl here ↦
      let p = is_revocable t.tenant_id t.campaign_id t.id in
      let e : r.token ≡ t = ground (arith, found, here) in
      (
        (revoke_if (p r) now r).token,
        ground (arith, here, revoke_if-hash (p r) now r),
        subst
            (λ (x : Token).
              is_some
                (revoke_if (is_revocable x.tenant_id x.campaign_id x.id r) now r).token.revoked_at
              ≡ true)
            e (own-revoked now r),
      )
]

pub revoke_token-links :
    (tenant campaign id : Text) (d : Desk) (faults : List Bool)
    → let end = revoke_token tenant campaign id (record d { faults = faults }) in
      end.0 ≡ ok tt → end.1.links ≡ revoke_rows (is_revocable tenant campaign id) d.now d.links
unfolding revoke_token ask
revoke_token-links tenant campaign id d [] done = ground (arith, done)
revoke_token-links tenant campaign id d (true ∷ rest) done = cc
revoke_token-links tenant campaign id d (false ∷ rest) done = ground (arith, done)

pub clamp_ttl-bounds : (ttl : ℕ) → (0 < clamp_ttl ttl) × (clamp_ttl ttl ≤ ttl_max)
clamp_ttl-bounds ttl = (ground arith, ground arith)
