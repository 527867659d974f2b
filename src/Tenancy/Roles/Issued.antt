-- ===== src/Tenancy/Roles/Issued.antt =====
-- What a created invitation is good for.
use soriham_api.Prelude.{
  ℕ, ◌≡◌, refl, String, false, ◌&&◌, leb, Option, none, some, List, [], ◌∷◌, ◌++◌, arith,
  Bool-cases, inl, inr, str_eq_refl, if◌then◌else◌,
}
use soriham_api.Table.{find_where}
use soriham_api.Table.Find.{find_where-insert_self}
use soriham_api.Models.{Invite}
use soriham_api.Sharing.{Addresses, Keys, expiry_of}
use soriham_api.Tenancy.{is_owner, live_invite, has_digest, is_over}
use soriham_api.Tenancy.Roles.{
  NewInvite, new_invite, insert_invite, create_invite, invite_address, are_days_allowed,
}

inserted :
    (a : Addresses) (hash : String → String) (invites after : List Invite) (k : Keys)
    (workspace : ℕ) (opts : NewInvite) (raw : String) (now : ℕ) (email : Option (Option String))
    → insert_invite hash invites k workspace opts raw now email ≡ some after
    → (e : Option String) × (after ≡ invites ++ new_invite hash k workspace opts e raw now ∷ [])
inserted a hash invites after k workspace opts raw now none made = cc
inserted a hash invites after k workspace opts raw now (some e) made = (e, cc)

-- An invitation that is created, under a token whose digest is not in the table, makes no owner, and
-- it is live until its days are over and not from then on.
pub create_invite-live_invite :
    (a : Addresses) (hash : String → String) (invites after : List Invite) (k : Keys)
    (workspace : ℕ) (opts : NewInvite) (raw : String) (now later : ℕ)
    → find_where (has_digest (hash raw)) invites ≡ none
    → create_invite a hash invites k workspace opts raw now ≡ some after
    → (is_owner opts.role ≡ false)
      × ((e : Option String) × (live_invite hash after raw later ≡ (
            if is_over later (expiry_of now opts.expires_in_days)
            then none
            else some (new_invite hash k workspace opts e raw now))))
unfolding create_invite live_invite new_invite
create_invite-live_invite a hash invites after k workspace opts raw now later fresh made =
    elim (Bool-cases (is_owner opts.role)) [
      | inl o ↦ absurd (let bad : none ≡ some after = rw o at made in cc)
      | inr o ↦ elim (Bool-cases (are_days_allowed opts.expires_in_days && leb 1 opts.max_uses)) [
        | inr d ↦ absurd (let bad : none ≡ some after = rw (o, d) at made in cc)
        | inl d ↦
            let (e, rows) =
              inserted a hash invites after k workspace opts raw now (invite_address a opts.email)
                (rw (o, d) at made) in
            let unused : leb opts.max_uses 0 ≡ false = ground arith in
            (
              o,
              (
                e,
                rw rows (
                    rw
                      (find_where-insert_self (has_digest (hash raw)) invites
                        (new_invite hash k workspace opts e raw now) fresh (str_eq_refl (hash raw)))
                      (elim (Bool-cases (is_over later (expiry_of now opts.expires_in_days))) [
                        | inl v ↦ rw v refl
                        | inr v ↦ rw (v, unused) refl
                      ])),
              ),
            )
      ]
    ]
