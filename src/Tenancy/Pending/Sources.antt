-- ===== src/Tenancy/Pending/Sources.antt =====
-- Where the shares of the user come from after claim_shares: from rows that were theirs before, or
-- reserved for their address.
use soriham_api.Prelude.{
  ℕ, ◌≡◌, refl, sym, String, true, Option, none, some, List, arith, Bool-cases, ◌⊎◌, inl, inr,
}
use soriham_api.Table.{find_where, All, Unique, Row}
use soriham_api.Table.Rows.{All-Row, All-delete_where}
use soriham_api.Table.Keys.{All-update_where_Row}
use soriham_api.Table.Find.{find_where-Row}
use soriham_api.Models.{RecordingShare, SharePermission}
use soriham_api.Sharing.{is_user_share}
use soriham_api.Sharing.Shares.{same_id}
use soriham_api.Tenancy.Pending.{claim_from, raise, given_to, has_share_id, is_edit, is_reserved}
use soriham_api.Tenancy.Pending.Given.{one_row}

-- a row for the same recording which was the user's, or reserved for the address, and permitted no
-- less than `x`
pub record Origin (email : String) (user : ℕ) (x y : RecordingShare) : Type 0 where
  pub meant : (is_reserved email y ≡ true) ⊎ (y.user_id ≡ some user)
  pub of : y.recording_id ≡ x.recording_id
  pub no_less : is_edit x.permission ≡ true → is_edit y.permission ≡ true

abbrev pub Comes : String → ℕ → List RecordingShare → RecordingShare → Type 0
Comes email user before x =
    x.user_id ≡ some user → (y : RecordingShare) × Row y before × Origin email user x y

module _ (email : String) (user : ℕ) (before : List RecordingShare) where
  raise-Comes :
      (shares : List RecordingShare) (w direct : RecordingShare)
      → Unique same_id shares
      → Row direct shares
      → direct.recording_id ≡ w.recording_id
      → Row w before
      → is_reserved email w ≡ true
      → All (Comes email user before) shares
      → All (Comes email user before) (raise shares w direct)
  raise-Comes shares w direct unique row of from meant h =
      elim (Bool-cases (is_edit w.permission)) [
        | inl e ↦ rw e (
            All-update_where_Row (Comes email user before) (has_share_id direct.id)
              (λ x. record x { permission = SharePermission.edit }) shares
              (λ x there hit owner.
                let same : x ≡ direct = one_row shares x direct unique there row (ground arith) in
                (w, from, record { meant = inl meant; of = rw same (sym of); no_less = λ _. e }))
              (λ x there miss. All-Row (Comes email user before) shares x h there))
        | inr e ↦ rw e h
      ]

  -- a claimed share was reserved
  pub claim_from-Comes :
      (shares : List RecordingShare) (w : RecordingShare) (direct : Option RecordingShare)
      → find_where (is_user_share w.recording_id user) shares ≡ direct
      → Unique same_id shares
      → Row w shares
      → Row w before
      → is_reserved email w ≡ true
      → All (Comes email user before) shares
      → All (Comes email user before) (claim_from shares user w direct)
  claim_from-Comes shares w none e unique row from meant h =
      All-update_where_Row (Comes email user before) (has_share_id w.id) (given_to user) shares
        (λ x there hit owner.
          let same : x ≡ w = one_row shares x w unique there row (ground arith) in
          (
            w,
            from,
            record { meant = inl meant; of = rw same refl; no_less = λ edit. rw same at edit },
          ))
        (λ x there miss. All-Row (Comes email user before) shares x h there)
  claim_from-Comes shares w (some direct) e unique row from meant h =
      let (row_d, found) = find_where-Row (is_user_share w.recording_id user) shares direct e in
      All-delete_where (Comes email user before) (has_share_id w.id) (raise shares w direct)
        (raise-Comes shares w direct unique row_d (ground arith) from meant h)
