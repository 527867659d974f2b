-- ===== src/Sharing/Shares.antt =====
-- What a share with a person gives, what its revocation takes, and whom that leaves alone.
use soriham_api.Prelude.{
  ◌∙◌, ℕ, ◌≡◌, ◌≢◌, refl, String, Bool, true, false, ◌&&◌, ◌==◌, Option, none, some, List,
  Option-cases, Bool-cases, inl, inr, arith, str_eq, str_eq_refl, sql_eq,
}
use mathlib.Core.Option
use soriham_api.Table.{find_where, Row, Unique}
use soriham_api.Table.Find.{
  find_where-Row, find_where-insert_self, find_where-update_where, find_where-Unique,
  find_where-delete_where-Unique, unless,
}
use soriham_api.Models.{User, SharePermission, RecordingShare}
use soriham_api.Sharing.{
  Addresses, Keys, Shared, shared, refused, valid_email, validate_permission, find_share,
  share_with_email, revoke_share, new_share, put_share, goes_to, is_self, is_user_share,
  is_share_of, without_share,
}

-- the table after the call
abbrev pub table_of : List RecordingShare → Shared → List RecordingShare
table_of shares (refused e) = shares
table_of shares (shared rows s) = rows

abbrev pub permission_of : RecordingShare → SharePermission
permission_of s = s.permission

new_share-goes_to :
    (k : Keys) (recording : ℕ) (target : Option User) (email : String) (p : SharePermission)
    (by : Option ℕ)
    → goes_to recording target email (new_share k recording target email p by) ≡ true
unfolding new_share
new_share-goes_to k recording none email p by = rw (str_eq_refl email) (ground arith)
new_share-goes_to k recording (some u) email p by = ground arith

goes_to-permission :
    (recording : ℕ) (target : Option User) (email : String) (p : SharePermission)
    (s : RecordingShare)
    → goes_to recording target email (record s { permission = p })
      ≡ goes_to recording target email s
goes_to-permission recording none email p s = refl
goes_to-permission recording (some u) email p s = refl

put_share-find :
    (shares : List RecordingShare) (recording : ℕ) (target : Option User) (email : String)
    (new : RecordingShare) (row : Option RecordingShare)
    → goes_to recording target email new ≡ true
    → find_where (goes_to recording target email) shares ≡ row
    → Option.map permission_of
        (find_where (goes_to recording target email) (table_of shares (put_share shares new row)))
      ≡ some new.permission
put_share-find shares recording target email new none fits e =
    rw (find_where-insert_self (goes_to recording target email) shares new e fits) refl
put_share-find shares recording target email new (some old) fits e =
    rw
      (find_where-update_where (goes_to recording target email) (λ s. s.id == old.id)
        (λ s. record s { permission = new.permission }) shares
        (goes_to-permission recording target email new.permission))
      (rw e (ground arith))

-- After a share with a valid permission and address that is not the caller's own, the share found
-- for that person, or for the address of nobody yet, has the permission that was asked for, whether
-- there was one before or not.
pub share_with_email-find_share :
    (a : Addresses) (users : List User) (shares : List RecordingShare) (k : Keys) (recording : ℕ)
    (raw permission : String) (by : Option ℕ) (email : String) (p : SharePermission)
    (target : Option User)
    → validate_permission permission ≡ some p
    → valid_email a raw ≡ some email
    → find_where (λ u. str_eq u.email email) users ≡ target
    → is_self target by ≡ false
    → Option.map permission_of (
        find_share
          (table_of shares (share_with_email a users shares k recording raw permission by))
          recording
          target
          email)
      ≡ some p
unfolding share_with_email find_share new_share
share_with_email-find_share a users shares k recording raw permission by email p target hp he ht
      hs =
    rw hp (
      rw he (
        rw ht (
          rw hs (
            put_share-find shares recording target email (new_share k recording target email p by)
              (find_where (goes_to recording target email) shares)
              (new_share-goes_to k recording target email p by) refl
            ∙ new_share-permission))))
  where
    new_share-permission : some (new_share k recording target email p by).permission ≡ some p
    new_share-permission = refl

-- uq_recording_shares_user, the primary key and the public id
abbrev pub same_share : RecordingShare → RecordingShare → Bool
same_share a b = a.recording_id == b.recording_id && sql_eq a.user_id b.user_id

abbrev pub same_id : RecordingShare → RecordingShare → Bool
same_id a b = a.id == b.id

abbrev pub same_public_id : RecordingShare → RecordingShare → Bool
same_public_id a b = a.public_id == b.public_id

without_share-find :
    (shares : List RecordingShare) (recording user : ℕ) (row : Option RecordingShare)
    → Unique same_share shares
    → find_where (is_user_share recording user) (without_share shares row).0 ≡ (elim row [
      | none ↦ find_where (is_user_share recording user) shares
      | some s ↦ unless (λ x. x.id == s.id) (find_where (is_user_share recording user) shares)
    ])
without_share-find shares recording user none u = refl
without_share-find shares recording user (some s) u =
    find_where-delete_where-Unique same_share (is_user_share recording user) (λ x. x.id == s.id)
      shares u (λ x y hx hy. ground arith)

-- Where the keys of the table are unique, revoking the share of a user by its public id leaves that
-- user without a share on the recording.
pub revoke_share-find :
    (shares : List RecordingShare) (recording user : ℕ) (s : RecordingShare)
    → Unique same_share shares
    → Unique same_public_id shares
    → Row s shares
    → s.recording_id ≡ recording
    → s.user_id ≡ some user
    → find_where (is_user_share recording user) (revoke_share shares recording s.public_id).0 ≡ none
unfolding revoke_share
revoke_share-find shares recording user s us up row hr hu =
    rw found (without_share-find shares recording user (some s) us ∙ rw mine (ground arith))
  where
    found : find_where (is_share_of recording s.public_id) shares ≡ some s
    found =
        find_where-Unique same_public_id (is_share_of recording s.public_id) shares s up
          (λ y hy hs. ground arith) row (ground arith)

    mine : find_where (is_user_share recording user) shares ≡ some s
    mine =
        find_where-Unique same_share (is_user_share recording user) shares s us
          (λ y hy hs. ground arith) row (ground arith)

-- Where the keys of the table are unique, a revocation on one recording changes no user's share on
-- another recording, whatever public id it is given.
pub revoke_share-find_ne :
    (shares : List RecordingShare) (recording other user public_id : ℕ)
    → Unique same_share shares
    → Unique same_id shares
    → recording ≢ other
    → find_where (is_user_share other user) (revoke_share shares recording public_id).0
      ≡ find_where (is_user_share other user) shares
unfolding revoke_share
revoke_share-find_ne shares recording other user public_id us ui ne =
    elim (Option-cases (find_where (is_share_of recording public_id) shares)) [
      | inl e ↦ rw e refl
      | inr (s, e) ↦ rw e (without_share-find shares other user (some s) us ∙ kept s e)
    ]
  where
    by_id :
        (s x : RecordingShare)
        → Row x shares
        → x.id ≡ s.id
        → find_where (λ y. y.id == s.id) shares ≡ some x
    by_id s x row e =
        find_where-Unique same_id (λ y. y.id == s.id) shares x ui (λ y hy hx. ground arith) row
          (ground arith)

    clash :
        (s x : RecordingShare)
        → find_where (is_share_of recording public_id) shares ≡ some s
        → find_where (is_user_share other user) shares ≡ some x
        → (x.id == s.id) ≡ true
        → recording ≡ other
    clash s x e f same =
        let hs = find_where-Row (is_share_of recording public_id) shares s e in
        let hx = find_where-Row (is_user_share other user) shares x f in
        let id : x.id ≡ s.id = ground arith in
        let one : find_where (λ y. y.id == s.id) shares ≡ some x = by_id s x hx.0 id in
        let two : find_where (λ y. y.id == s.id) shares ≡ some s = by_id s s hs.0 refl in
        let eq : x ≡ s = cc in
        let tx : is_user_share other user x ≡ true = hx.1 in
        let ts : is_share_of recording public_id s ≡ true = hs.1 in
        let rx : x.recording_id ≡ other = ground arith in
        let rs : s.recording_id ≡ recording = ground arith in cc

    kept :
        (s : RecordingShare)
        → find_where (is_share_of recording public_id) shares ≡ some s
        → unless (λ x. x.id == s.id) (find_where (is_user_share other user) shares)
          ≡ find_where (is_user_share other user) shares
    kept s e = elim (Option-cases (find_where (is_user_share other user) shares)) [
      | inl f ↦ rw f refl
      | inr (x, f) ↦ rw f (elim (Bool-cases (x.id == s.id)) [
        | inl same ↦ absurd (ne (clash s x e f same))
        | inr apart ↦ rw apart refl
      ])
    ]
