-- ===== src/Review/Lasting.antt =====
-- How long a link can be used, whatever links are made and revoked after it.
use omnipulse_backend.Base.{
  ℕ, suc, ℤ, ◌+◌, ◌≤◌, ◌<◌, Text, text_eq_refl, Unicode, trim_space, Bool, true, false, Option,
  none, some, is_some, is_empty, take, List, [], ◌∷◌, Bool-cases, Option-cases, ◌≡◌, ◌≢◌, ◌⊎◌, refl,
  ap, sym, subst, ◌∙◌, inl, inr, arith,
}
use omnipulse_backend.Base.Frames.{at}
use omnipulse_backend.Base.State.{Outcome, ok, err}
use omnipulse_backend.Campaign.Types.{Campaign}
use omnipulse_backend.Campaign.Store.{Store, query, link_not_found}
use omnipulse_backend.Review.Portal.{Token, resolve_token}
use omnipulse_backend.Review.LinkStore.{
  LinkError, Row, Desk, ask, create_token, is_revocable, revoke_token, of_hash, tokens_of,
}
use omnipulse_backend.Review.Links.{
  ReviewLink, ttl_max, clamp_ttl, ttl_of_days, generate_review_token, mint_link, create_link,
  is_rejected,
}
use omnipulse_backend.Review.LinkRuns.{Command, run, run-Step}
use omnipulse_backend.Review.LinkRows.{
  clamp_ttl-bounds, create_token-cases, of_hash-final, revoke_token-links, stored,
}

module _ ⦃uni : Unicode⦄ (hash : Text → Text) where
  -- What a link that was made is found by.
  abbrev Made : Campaign → ReviewLink → Desk → Type 0
  Made c link d =
      (t : Token) × (of_hash (hash link.raw) d.links ≡ some t)
      × (t.tenant_id ≡ c.tenant_id)
      × (t.campaign_id ≡ c.id)
      × (t.expires_at ≡ link.expires_at)

  abbrev row_of : Campaign → Text → Text → ℕ → Text → Text → ℕ → Row
  row_of c label by ttl to raw now = record {
    token = record {
      id = [];
      tenant_id = c.tenant_id;
      campaign_id = c.id;
      label = take 120 (trim_space label);
      expires_at = now + clamp_ttl ttl;
      revoked_at = none;
    };
    hash = hash raw;
    recipient_email = trim_space to;
    created_by = by;
  }

  mint_link-Made :
      (c : Campaign) (label by : Text) (ttl : ℕ) (to : Text) (d : Desk) (link : ReviewLink)
      → (mint_link hash c label by ttl to d).0 ≡ ok link
      → Made c link (mint_link hash c label by ttl to d).1
        × (link.expires_at ≡ d.now + clamp_ttl ttl)
  unfolding mint_link generate_review_token
  mint_link-Made c label by ttl to d link done = elim (Option-cases (d.randoms d.rolled)) [
    | inl empty ↦ ground (arith, empty, done)
    | inr (raw, rolled) ↦
        let d1 = record d { rolled = suc d.rolled } in
        let row = row_of c label by ttl to raw d.now in
        let end = create_token row d1 in
        let all = mint_link hash c label by ttl to d in
        elim (create_token-cases row d1 d.faults) [
          | inl (x, e) ↦ ground (arith, rolled, e, done)
          | inr (e, links) ↦
              let made : ReviewLink = record {
                raw = raw;
                label = take 120 (trim_space label);
                expires_at = d.now + clamp_ttl ttl;
              } in
              let same : all.1 ≡ end.1 = ground (arith, rolled, e) in
              let built : all.0 ≡ ok made = ground (arith, rolled, e) in
              let it : made ≡ link = ground (arith, built, done) in
              let found : of_hash (hash raw) all.1.links ≡ some (stored row d1) =
                ap (λ (z : Desk). of_hash (hash raw) z.links) same
                ∙ (ap (λ (rs : List Row). of_hash (hash raw) rs) links
                    ∙ ground (arith, text_eq_refl (hash raw))) in
              subst (λ (z : ReviewLink). Made c z all.1 × (z.expires_at ≡ d.now + clamp_ttl ttl)) it
                ((stored row d1, found, refl, refl, refl), refl)
        ]
  ]

  -- A raw token is base64 of random bytes: it is not empty, and holds no white space.
  abbrev pub IsRaw : Text → Type 0
  IsRaw raw = (trim_space raw ≡ raw) × (is_empty raw ≡ false)

  -- What a link resolves to: its campaign, or, once it is revoked, nothing.
  abbrev pub Resolves : Campaign → ReviewLink → Desk → Store → Type 0
  Resolves c link d s =
      let r = (resolve_token (tokens_of hash d.links) link.raw s).0 in
      ((t : Token) × (r ≡ ok t)
        × (t.tenant_id ≡ c.tenant_id)
        × (t.campaign_id ≡ c.id)
        × (t.expires_at ≡ link.expires_at)
        × (t.revoked_at ≡ none))
      ⊎ ((t : Token) × (of_hash (hash link.raw) d.links ≡ some t)
          × (is_some t.revoked_at ≡ true)
          × (r ≡ err link_not_found))

  Made-Resolves :
      (c : Campaign) (link : ReviewLink) (d : Desk) (s : Store)
      → IsRaw link.raw
      → s.faults ≡ []
      → s.now ≤ link.expires_at
      → Made c link d
      → Resolves c link d s
  unfolding resolve_token query
  Made-Resolves c link d s (trimmed, full) quiet early (t, found, tenant, campaign, expiry) =
      let found_it : of_hash (hash (trim_space link.raw)) d.links ≡ some t =
        ap (λ (x : Text). of_hash (hash x) d.links) trimmed ∙ found in
      let full_it : is_empty (trim_space link.raw) ≡ false =
        ap (λ (x : Text). is_empty x) trimmed ∙ full in
      elim (Option-cases t.revoked_at) [
        | inl alive ↦ inl (
          t,
          ground (arith, quiet, early, expiry, found_it, full_it, alive),
          tenant,
          campaign,
          expiry,
          alive,
        )
        | inr (at, gone) ↦ inr (
          t,
          found,
          ap (λ (x : Option ℕ). is_some x) gone,
          ground (arith, quiet, found_it, full_it, gone),
        )
      ]

  run-Made :
      (c : Campaign) (link : ReviewLink) (ks : List Command) (d : Desk)
      → Made c link d
      → Made c link (run hash ks d)
  run-Made c link ks d (t, found, tenant, campaign, expiry) =
      let (u, found_u, f) = (run-Step hash ks d).follow (hash link.raw) t found in
      (u, found_u, f.same_tenant ∙ tenant, f.same_campaign ∙ campaign, f.same_expiry ∙ expiry)

  resolve_token-refused :
      (d : Desk) (raw : Text) (s : Store) (faults : List Bool) (t u : Token)
      → of_hash (hash (trim_space raw)) d.links ≡ some t
      → is_some t.revoked_at ≡ true
      → (resolve_token (tokens_of hash d.links) raw (record s { faults = faults })).0 ≢ ok u
  unfolding resolve_token query
  resolve_token-refused d raw s [] t u found gone good = ground (arith, found, gone, good)
  resolve_token-refused d raw s (b ∷ rest) t u found gone good = ground (arith, found, gone, good)

  -- A link that is made can be used until it expires or is revoked, whatever links are made and
  -- revoked in between and whatever statements fail, while its campaign and workspace are not
  -- deleted: it resolves to the campaign and the workspace for which it was made. It expires, but
  -- not after more than 30 days. (The raw token is not empty and holds no white space, and no
  -- statement fails when it is used.)
  pub create_link-Resolves :
      (campaign : Option Campaign) (label by : Text) (days : ℤ) (d : Desk) (link : ReviewLink)
      (ks : List Command) (s : Store)
      → (create_link hash campaign label by days d).0 ≡ ok link
      → IsRaw link.raw
      → s.faults ≡ []
      → s.now ≤ link.expires_at
      → ((c : Campaign) × (campaign ≡ some c)
          × Resolves c link (run hash ks (create_link hash campaign label by days d).1) s)
        × ((d.now < link.expires_at) × (link.expires_at ≤ d.now + ttl_max))
  unfolding create_link
  create_link-Resolves none label by days d link ks s done raw quiet early = cc
  create_link-Resolves (some c) label by days d link ks s done raw quiet early =
      let end = create_link hash (some c) label by days d in
      let minted = mint_link hash c label by (ttl_of_days days) [] d in
      elim (Bool-cases (is_rejected c.status)) [
        | inl shut ↦ ground (arith, shut, done)
        | inr ready ↦
            let same : end ≡ minted = ground (arith, ready) in
            let minted_it : minted.0 ≡ ok link =
              ap (λ (z : Outcome LinkError ReviewLink × Desk). z.0) (sym same) ∙ done in
            let (made, at) = mint_link-Made c label by (ttl_of_days days) [] d link minted_it in
            let lasting =
              Made-Resolves c link (run hash ks minted.1) s raw quiet early
                (run-Made c link ks minted.1 made) in
            (
              (
                c,
                refl,
                subst
                    (λ (z : Outcome LinkError ReviewLink × Desk).
                      Resolves c link (run hash ks z.1) s)
                    (sym same) lasting,
              ),
              (
                omega (arith, at, clamp_ttl-bounds (ttl_of_days days)),
                omega (arith, at, clamp_ttl-bounds (ttl_of_days days)),
              ),
            )
      ]

  -- A link that is revoked can never be used again, whatever links are made and revoked after that
  -- and whatever statements fail.
  pub revoke_token-final :
      (t : Token) (raw : Text) (d : Desk) (ks : List Command) (s : Store) (u : Token)
      → of_hash (hash (trim_space raw)) d.links ≡ some t
      → (revoke_token t.tenant_id t.campaign_id t.id d).0 ≡ ok tt
      → let e = run hash ks (revoke_token t.tenant_id t.campaign_id t.id d).1 in
        (resolve_token (tokens_of hash e.links) raw s).0 ≢ ok u
  unfolding revoke_token ask
  revoke_token-final t raw d ks s u found done =
      let p = is_revocable t.tenant_id t.campaign_id t.id in
      let h = hash (trim_space raw) in
      let end = (revoke_token t.tenant_id t.campaign_id t.id d).1 in
      let links = revoke_token-links t.tenant_id t.campaign_id t.id d d.faults done in
      let (v, found_v, gone) = of_hash-final h t d.now d.links found in
      let (w, found_w, f) =
        (run-Step hash ks end).follow h v (ap (λ (rs : List Row). of_hash h rs) links ∙ found_v) in
      resolve_token-refused (run hash ks end) raw s s.faults w u found_w (f.still_revoked gone)
