-- ===== src/Review/Handover.antt =====
-- What becomes of the row of a link, whatever links are made and revoked.
use omnipulse_backend.Base.{
  ℕ, suc, ℤ, Text, text_eq, text_eq_iff, Unicode, Bool, true, false, Option, none, some, is_some,
  List, [], ◌∷◌, any, Bool-cases, ◌≡◌, refl, ap, subst, ◌∙◌, inl, inr, arith,
}
use omnipulse_backend.Base.Frames.{Keeps, keeps, seq, try, choose, still, fails, guard, read}
use omnipulse_backend.Campaign.Types.{Campaign}
use omnipulse_backend.Review.Portal.{Token}
use omnipulse_backend.Review.LinkStore.{
  LinkError, Row, Desk, ask, change, need, Mail, revision, add_token, create_token, is_revocable,
  revoke_if, revoke_rows, revoke_token, list_tokens, of_hash,
}
use omnipulse_backend.Review.Links.{
  ReviewLink, generate_review_token, mint_link, create_link, email_brand_link, sent_to, mint_all,
  notify_brand_revision, Recipient,
}

-- The same link, still revoked if it was.
pub record Follows (t u : Token) : Type 0 where
  pub same_id : u.id ≡ t.id
  pub same_tenant : u.tenant_id ≡ t.tenant_id
  pub same_campaign : u.campaign_id ≡ t.campaign_id
  pub same_expiry : u.expires_at ≡ t.expires_at
  pub still_revoked : is_some t.revoked_at ≡ true → is_some u.revoked_at ≡ true

Follows-refl : (t : Token) → Follows t t
Follows-refl t = record {
  same_id = refl;
  same_tenant = refl;
  same_campaign = refl;
  same_expiry = refl;
  still_revoked = λ h. h;
}

Follows-trans : (t u v : Token) → Follows t u → Follows u v → Follows t v
Follows-trans t u v h k = record {
  same_id = k.same_id ∙ h.same_id;
  same_tenant = k.same_tenant ∙ h.same_tenant;
  same_campaign = k.same_campaign ∙ h.same_campaign;
  same_expiry = k.same_expiry ∙ h.same_expiry;
  still_revoked = λ r. k.still_revoked (h.still_revoked r);
}

-- What is found by a hash is found by it afterwards.
pub record Step (d e : Desk) : Type 0 where
  pub follow :
      (h : Text) (t : Token)
      → of_hash h d.links ≡ some t
      → (u : Token) × (of_hash h e.links ≡ some u) × Follows t u

pub Step-refl : (d : Desk) → Step d d
Step-refl d = record { follow = λ h t found. (t, found, Follows-refl t) }

pub Step-trans : (c d e : Desk) → Step c d → Step d e → Step c e
Step-trans c d e p q = record {
  follow = λ h t found.
      (let (u, found_u, f) = p.follow h t found in
        let (v, found_v, g) = q.follow h u found_u in (v, found_v, Follows-trans t u v f g));
}

same-Step : (d e : Desk) → e.links ≡ d.links → Step d e
same-Step d e same = record {
  follow = λ h t found. (t, ap (λ (rs : List Row). of_hash h rs) same ∙ found, Follows-refl t);
}

ask-Step : Keeps Step ask
unfolding ask
ask-Step = keeps λ d. elim d.faults as (λ x. Step d (ask (record d { faults = x })).1) [
  | [] ↦ same-Step d (record d { faults = [] }) refl
  | fault ∷ rest ↦ same-Step d (record d { faults = rest }) refl
]

need-Step : {A : Type 0} (o : Option A) (e : LinkError) → Keeps Step (need o e)
need-Step none e = keeps Step-refl
need-Step (some a) e = keeps Step-refl

changes : (f : Desk → Desk) → ((d : Desk) → Step d (f d)) → Keeps Step (change f)
changes f h = keeps h

ruleset handing = (
  seq, try, choose, still, fails, guard, read, ask-Step, need-Step, changes, Step-refl, Step-trans,
)

-- A new row, under a hash that no other has.
of_hash-new :
    (row : Row) (h : Text) (t : Token) (rs : List Row)
    → any (λ (r : Row). text_eq r.hash row.hash) rs ≡ false
    → of_hash h rs ≡ some t
    → text_eq row.hash h ≡ false
of_hash-new row h t [] fresh found = cc
of_hash-new row h t (r ∷ rs) fresh found = ground (
  arith,
  of_hash-new row h t rs,
  text_eq_iff r.hash h,
  text_eq_iff row.hash h,
  text_eq_iff r.hash row.hash,
)

revoke_if-Follows : (b : Bool) (now : ℕ) (r : Row) → Follows r.token (revoke_if b now r).token
revoke_if-Follows true now r = record {
  same_id = refl;
  same_tenant = refl;
  same_campaign = refl;
  same_expiry = refl;
  still_revoked = λ h. refl;
}
revoke_if-Follows false now r = Follows-refl r.token

pub revoke_if-hash : (b : Bool) (now : ℕ) (r : Row) → (revoke_if b now r).hash ≡ r.hash
revoke_if-hash true now r = refl
revoke_if-hash false now r = refl

of_hash-revoked :
    (p : Row → Bool) (now : ℕ) (h : Text) (t : Token) (rs : List Row)
    → of_hash h rs ≡ some t
    → (u : Token) × (of_hash h (revoke_rows p now rs) ≡ some u) × Follows t u
of_hash-revoked p now h t [] found = cc
of_hash-revoked p now h t (r ∷ rs) found = elim (Bool-cases (text_eq r.hash h)) [
  | inl here ↦
      let e : r.token ≡ t = ground (arith, found, here) in
      (
        (revoke_if (p r) now r).token,
        ground (arith, here, revoke_if-hash (p r) now r),
        subst (λ (x : Token). Follows x (revoke_if (p r) now r).token) e
            (revoke_if-Follows (p r) now r),
      )
  | inr other ↦
      let (u, found_u, f) = of_hash-revoked p now h t rs (ground (arith, found, other)) in
      (u, ground (arith, other, revoke_if-hash (p r) now r, found_u), f)
]

add_token-Step : (row : Row) → Keeps Step (add_token row)
unfolding add_token
add_token-Step row = keeps λ d.
    let end = (add_token row d).1 in
    elim (Bool-cases (any (λ (r : Row). text_eq r.hash row.hash) d.links)) [
      | inl known ↦ same-Step d end (ground (arith, known))
      | inr fresh ↦ record {
        follow = λ h t found. (
          t,
          ground (arith, fresh, found, of_hash-new row h t d.links fresh found),
          Follows-refl t,
        );
      }
    ]

pub revoke_token-Step : (tenant campaign id : Text) → Keeps Step (revoke_token tenant campaign id)
unfolding revoke_token
revoke_token-Step tenant campaign id =
    let p = is_revocable tenant campaign id in
    let h : (d : Desk) → Step d (record d { links = revoke_rows p d.now d.links }) =
      λ d. record { follow = λ h t found. of_hash-revoked p d.now h t d.links found } in
    search (handing, h) depth 20

module _ ⦃uni : Unicode⦄ (hash : Text → Text) where
  pub mint_link-Step :
      (c : Campaign) (label by : Text) (ttl : ℕ) (to : Text)
      → Keeps Step (mint_link hash c label by ttl to)
  unfolding mint_link generate_review_token create_token
  mint_link-Step c label by ttl to =
      let h : (d : Desk) → Step d (record d { rolled = suc d.rolled }) =
        λ d. same-Step d (record d { rolled = suc d.rolled }) refl in
      search (handing, h, add_token-Step) depth 20

  pub create_link-Step :
      (campaign : Option Campaign) (label by : Text) (days : ℤ)
      → Keeps Step (create_link hash campaign label by days)
  unfolding create_link
  create_link-Step campaign label by days = search (handing, mint_link-Step) depth 20

  pub email_brand_link-Step :
      (parse : Text → Option Text) (has : Bool) (campaign : Option Campaign) (to name by : Text)
      → Keeps Step (email_brand_link hash parse has campaign to name by)
  unfolding email_brand_link
  email_brand_link-Step parse has campaign to name by =
      let h : (mail : Mail) (d : Desk) → Step d (record d { mails = mail ∷ d.mails }) =
        λ mail d. same-Step d (record d { mails = mail ∷ d.mails }) refl in
      search (handing, mint_link-Step, h) depth 20

  sent_to-Step : (to : Text) (made : Option ReviewLink) → Keeps Step (sent_to hash to made)
  sent_to-Step to none = keeps Step-refl
  sent_to-Step to (some link) =
      let h : (d : Desk) → Step d (record d { mails = revision to link.raw ∷ d.mails }) =
        λ d. same-Step d (record d { mails = revision to link.raw ∷ d.mails }) refl in
      search (handing, h) depth 20

  mint_all-Step :
      (c : Campaign) (by : Text) (rs : List Recipient) → Keeps Step (mint_all hash c by rs)
  unfolding mint_all
  mint_all-Step c by [] = keeps Step-refl
  mint_all-Step c by (r ∷ rs) =
      search (handing, mint_link-Step, sent_to-Step, mint_all-Step c by rs) depth 20

  pub notify_brand_revision-Step :
      (has : Bool) (c : Campaign) (by : Text) → Keeps Step (notify_brand_revision hash has c by)
  unfolding notify_brand_revision list_tokens
  notify_brand_revision-Step has c by = search (handing, mint_all-Step) depth 20
