-- ===== src/Sharing/Links.antt =====
-- The life of a share link: from its creation to its end it opens the recording, and after that
-- nothing does.
use soriham_api.Prelude.{
  ℕ, ◌≡◌, ◌≢◌, ◌↔◌, refl, String, Bool, true, ◌||◌, ◌==◌, Option, none, some, List, [], ◌∷◌, ◌++◌,
  Option-cases, Bool-cases, inl, inr, arith, str_eq, str_eq_refl, eq_iff, is_some, is_none,
  if◌then◌else◌,
}
use soriham_api.Table.{find_where, Row, Unique}
use soriham_api.Table.Find.{
  find_where-Row, find_where-insert_self, find_where-update_where, find_where-Unique,
}
use soriham_api.Models.{ShareLink}
use soriham_api.Sharing.{
  Keys, NewLink, new_link, create_link, revoke_link, load_link, has_token, is_link_of, live_link,
  days_allowed, is_unlocked, unlock_value, expiry_of, cookie_fits, is_past,
}

abbrev pub same_public_id : ShareLink → ShareLink → Bool
same_public_id a b = a.public_id == b.public_id

-- A new link with an allowed life, under a token whose digest is not in the table, loads before the
-- end of its days and not from then on; without a number of days it always loads.
pub load_link-create_link :
    (strip hash : String → String) (links after : List ShareLink) (k : Keys) (recording : ℕ)
    (opts : NewLink) (raw : String) (now later : ℕ)
    → find_where (has_token (hash raw)) links ≡ none
    → create_link strip hash links k recording opts raw now ≡ some after
    → load_link hash after raw later ≡ (
        if is_past later (expiry_of now opts.expires_in_days)
        then none
        else some (new_link strip hash k recording opts raw now))
unfolding load_link create_link new_link
load_link-create_link strip hash links after k recording opts raw now later fresh made =
    elim (Bool-cases (days_allowed opts.expires_in_days)) [
      | inl e ↦
          let same : some (links ++ new_link strip hash k recording opts raw now ∷ [])
              ≡ some after =
            rw e at made in
          let rows : links ++ new_link strip hash k recording opts raw now ∷ [] ≡ after = cc in
          rw (← rows) (
            rw
              (find_where-insert_self (has_token (hash raw)) links
                (new_link strip hash k recording opts raw now) fresh (str_eq_refl (hash raw)))
              refl)
      | inr e ↦ let bad : none ≡ some after = rw e at made in cc
    ]

live_link-some :
    (now : ℕ) (o : Option ShareLink) (l : ShareLink)
    → live_link now o ≡ some l
    → (o ≡ some l) × (is_none l.revoked_at ≡ true)
live_link-some now none l h = cc
live_link-some now (some x) l h =
    elim (Bool-cases (is_some x.revoked_at || is_past now x.expires_at)) [
      | inl e ↦ let bad : none ≡ some l = rw e at h in cc
      | inr e ↦
          let same : some x ≡ some l = rw e at h in
          let eq : x ≡ l = cc in (same, rw (← eq) (ground arith))
    ]

-- A link that loads is refused from its revocation on, where public ids are unique.
pub load_link-revoke_link :
    (hash : String → String) (links : List ShareLink) (raw : String) (l : ShareLink)
    (now at later : ℕ)
    → Unique same_public_id links
    → load_link hash links raw now ≡ some l
    → load_link hash (revoke_link links l.recording_id l.public_id at).0 raw later ≡ none
unfolding load_link revoke_link
load_link-revoke_link hash links raw l now at later up loads = rw found (
    rw
      (find_where-update_where (has_token (hash raw)) (λ x. x.id == l.id)
        (λ x. record x { revoked_at = some at }) links (λ x. refl))
      (rw row (ground arith)))
  where
    row : find_where (has_token (hash raw)) links ≡ some l
    row = (live_link-some now (find_where (has_token (hash raw)) links) l loads).0

    here : Row l links
    here = (find_where-Row (has_token (hash raw)) links l row).0

    open_link : is_none l.revoked_at ≡ true
    open_link = (live_link-some now (find_where (has_token (hash raw)) links) l loads).1

    found : find_where (is_link_of l.recording_id l.public_id) links ≡ some l
    found =
        find_where-Unique same_public_id (is_link_of l.recording_id l.public_id) links l up
          (λ y hy hl. ground arith) here (ground arith)

module _ (hash : String → String) (ne : (s : String) → hash s ≢ "") where
  cookie_fits_exact :
      (cookie : Option String) (p : String)
      → (cookie_fits cookie (some (hash p)) ≡ true)
        ↔ ((h : String) → some p ≡ some h → cookie ≡ some (hash h))
  cookie_fits_exact none p = (λ x. cc, λ f. let bad : none ≡ some (hash p) = f p refl in cc)
  cookie_fits_exact (some c) p = elim (Bool-cases (str_eq c "")) [
    | inl e ↦
        let empty : c ≡ "" = (eq_iff c "").0 e in
        rw e (λ x. cc, λ f. let fits : some c ≡ some (hash p) = f p refl in absurd (ne p (cc)))
    | inr e ↦ rw e (
      λ x h q. let eq : hash p ≡ c = (eq_iff (hash p) c).0 x in cc,
      λ f. let fits : some c ≡ some (hash p) = f p refl in (eq_iff (hash p) c).1 (cc),
    )
  ]

  -- Where no digest is the empty text, a link with no password is open, and one with a password
  -- opens exactly for a cookie that is the digest of the stored hash.
  pub is_unlocked_exact :
      (l : ShareLink) (cookie : Option String)
      → (is_unlocked hash l cookie ≡ true)
        ↔ ((h : String) → l.password_hash ≡ some h → cookie ≡ some (hash h))
  unfolding is_unlocked unlock_value
  is_unlocked_exact l cookie = elim (Option-cases l.password_hash) [
    | inl e ↦ rw e (λ _ h f. cc, λ _. refl)
    | inr (p, e) ↦ rw e (cookie_fits_exact cookie p)
  ]
