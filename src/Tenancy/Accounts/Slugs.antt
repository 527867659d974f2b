-- ===== src/Tenancy/Accounts/Slugs.antt =====
-- A slug that is drawn is free, and the loop ends where some drawn candidate is.
use soriham_api.Prelude.{
  String, ◌≡◌, refl, true, Option, none, some, List, [], ◌∷◌, is_none, Bool-cases, inl, inr,
}
use soriham_api.Table.{Row, here, there}
use soriham_api.Models.{Workspace}
use soriham_api.Tenancy.Accounts.{Naming, find_workspace, draw_slug, unique_slug, with_token}

none_of {ℓ} : {A : Type ℓ} (o : Option A) → is_none o ≡ true → o ≡ none
none_of none h = refl
none_of (some a) h = cc

draw_slug-free :
    (workspaces : List Workspace) (base : String) (tokens : List String) (s : String)
    → draw_slug workspaces base tokens ≡ some s
    → find_workspace workspaces s ≡ none
unfolding draw_slug
draw_slug-free workspaces base [] s h = cc
draw_slug-free workspaces base (t ∷ tokens) s h =
    elim (Bool-cases (is_none (find_workspace workspaces (with_token base t)))) [
      | inl e ↦
          let same : some (with_token base t) ≡ some s = rw e at h in
          let eq : with_token base t ≡ s = cc in
          rw (← eq) (none_of (find_workspace workspaces (with_token base t)) e)
      | inr e ↦ draw_slug-free workspaces base tokens s (rw e at h)
    ]

draw_slug-total :
    (workspaces : List Workspace) (base : String) (tokens : List String) (t : String)
    → Row t tokens
    → find_workspace workspaces (with_token base t) ≡ none
    → (s : String) × (draw_slug workspaces base tokens ≡ some s)
unfolding draw_slug
draw_slug-total workspaces base [] t row free = elim row [ ]
draw_slug-total workspaces base (x ∷ tokens) t (here _) free = (with_token base x, rw free refl)
draw_slug-total workspaces base (x ∷ tokens) t (there _ _ row) free =
    elim (Bool-cases (is_none (find_workspace workspaces (with_token base x)))) [
      | inl e ↦ (with_token base x, rw e refl)
      | inr e ↦ let (s, h) = draw_slug-total workspaces base tokens t row free in (s, rw e h)
    ]

-- A slug that is found is free, and one is found wherever some drawn token makes a free candidate.
pub unique_slug_exact :
    (n : Naming) (workspaces : List Workspace) (raw : String) (tokens : List String)
    → ((s : String)
        → unique_slug n workspaces raw tokens ≡ some s
        → find_workspace workspaces s ≡ none)
      × ((t : String)
          → Row t tokens
          → find_workspace workspaces (with_token (n.slugify raw) t) ≡ none
          → (s : String) × (unique_slug n workspaces raw tokens ≡ some s))
unfolding unique_slug
unique_slug_exact n workspaces raw tokens =
    elim (Bool-cases (is_none (find_workspace workspaces (n.slugify raw)))) [
      | inl e ↦ (
        λ s h.
            let same : some (n.slugify raw) ≡ some s = rw e at h in
            let eq : n.slugify raw ≡ s = cc in
            rw (← eq) (none_of (find_workspace workspaces (n.slugify raw)) e),
        λ t row free. (n.slugify raw, rw e refl),
      )
      | inr e ↦ (
        λ s h. draw_slug-free workspaces (n.slugify raw) tokens s (rw e at h),
        λ t row free.
            let (s, h) = draw_slug-total workspaces (n.slugify raw) tokens t row free in
            (s, rw e h),
      )
    ]
