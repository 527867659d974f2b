-- ===== src/Tenancy/Pending/Given.antt =====
-- What the user has after claim_shares: a share of every recording that was shared with them or with
-- their address.
use soriham_api.Prelude.{
  ℕ, ◌≡◌, ◌≢◌, refl, ap, sym, ◌∙◌, Bool, true, false, Option, none, some, List, arith, Bool-cases,
  inl, inr, if◌then◌else◌,
}
use soriham_api.Table.{find_where, update_where, All, Unique, Row, here, there}
use soriham_api.Table.Keys.{Unique-one, All-of_Row, Row-delete_where_miss}
use soriham_api.Table.Find.{find_where-Row}
use soriham_api.Models.{RecordingShare, SharePermission}
use soriham_api.Sharing.{is_user_share}
use soriham_api.Sharing.Shares.{same_id}
use soriham_api.Tenancy.Pending.{claim_from, raise, given_to, has_share_id, is_edit}
use soriham_api.Tenancy.Pending.Claimed.{HasShareKeys, IsOf}

-- a share of the user for the recording of `s`, which permits no less than `s`
pub record Gives (user : ℕ) (s x : RecordingShare) : Type 0 where
  pub whose : x.user_id ≡ some user
  pub of : x.recording_id ≡ s.recording_id
  pub no_less : is_edit s.permission ≡ true → is_edit x.permission ≡ true

abbrev pub Covers : ℕ → RecordingShare → List RecordingShare → Type 0
Covers user s shares = (x : RecordingShare) × Row x shares × Gives user s x

-- the rows that wait to be claimed are in the table, each once, and are nobody's
pub record Ready (waiting shares : List RecordingShare) : Type 0 where
  pub keys : HasShareKeys shares
  pub once : Unique same_id waiting
  pub stored : All (λ w. Row w shares) waiting
  pub unowned : All (λ w. w.user_id ≡ none) waiting

Row-update_where :
    (p : RecordingShare → Bool) (f : RecordingShare → RecordingShare) (x : RecordingShare)
    (xs : List RecordingShare)
    → Row x xs
    → Row (if p x then f x else x) (update_where p f xs)
unfolding update_where
Row-update_where p f x _ (here xs) = here (update_where p f xs)
Row-update_where p f x _ (there y xs r) =
    there (if p y then f y else y) (update_where p f xs) (Row-update_where p f x xs r)

-- rows of one id are one row
pub one_row :
    (shares : List RecordingShare) (x y : RecordingShare)
    → Unique same_id shares
    → Row x shares
    → Row y shares
    → x.id ≡ y.id
    → x ≡ y
one_row shares x y unique rx ry same =
    Unique-one same_id (has_share_id y.id) shares x y unique (λ a b ha hb. ground arith) rx ry
      (ground arith) (ground arith)

-- a row with an owner has not the id of one without
not_same :
    (shares : List RecordingShare) (user : ℕ) (x w : RecordingShare)
    → Unique same_id shares
    → Row x shares
    → Row w shares
    → x.user_id ≡ some user
    → w.user_id ≡ none
    → (has_share_id w.id x ≡ false) × (has_share_id x.id w ≡ false)
not_same shares user x w unique rx rw_ owner nobody =
    let ne : x.id ≢ w.id = λ same.
      let eq : x ≡ w = one_row shares x w unique rx rw_ same in
      let bad : some user ≡ none = sym owner ∙ ap (λ s. s.user_id) eq ∙ nobody in cc in
    (ground arith, ground arith)

pub Ready-IsOf :
    (shares : List RecordingShare) (w : RecordingShare)
    → Unique same_id shares
    → Row w shares
    → IsOf w shares
Ready-IsOf shares w unique row =
    All-of_Row (λ x. x.id ≡ w.id → x.recording_id ≡ w.recording_id) shares
      (λ x there same. ap (λ t. t.recording_id) (one_row shares x w unique there row same))

-- a direct share after `raise`
abbrev raised : RecordingShare → RecordingShare → RecordingShare
raised s x = if is_edit s.permission then record x { permission = SharePermission.edit } else x

Row-raise :
    (shares : List RecordingShare) (s direct x : RecordingShare)
    → Row x shares
    → Row (if has_share_id direct.id x then raised s x else x) (raise shares s direct)
Row-raise shares s direct x row = elim (Bool-cases (is_edit s.permission)) [
  | inl e ↦ rw e (
      Row-update_where (has_share_id direct.id)
        (λ x. record x { permission = SharePermission.edit }) x shares row)
  | inr e ↦
      rw e (elim (Bool-cases (has_share_id direct.id x)) [ inl h ↦ rw h row | inr h ↦ rw h row ])
]

module _ (user : ℕ) (shares : List RecordingShare) (w : RecordingShare)
    (unique : Unique same_id shares) (row_w : Row w shares) (nobody : w.user_id ≡ none) where
  -- who has a share keeps one that permits no less
  pub claim_from-keeps :
      (direct : Option RecordingShare) (s : RecordingShare)
      → Covers user s shares
      → Covers user s (claim_from shares user w direct)
  claim_from-keeps none s (x, row, g) = (
    (if has_share_id w.id x then given_to user x else x),
    Row-update_where (has_share_id w.id) (given_to user) x shares row,
    elim (Bool-cases (has_share_id w.id x)) [
      | inl e ↦ rw e (record { whose = refl; of = g.of; no_less = g.no_less })
      | inr e ↦ rw e g
    ],
  )
  claim_from-keeps (some direct) s (x, row, g) =
      let x' : RecordingShare = if has_share_id direct.id x then raised w x else x in
      let apart = not_same shares user x w unique row row_w g.whose nobody in
      (
        x',
        Row-delete_where_miss (has_share_id w.id) x' (ground (arith, apart)) (raise shares w direct)
            (Row-raise shares w direct x row),
        record {
          whose = ground (arith, g.whose);
          of = ground (arith, g.of);
          no_less = λ e. ground (arith, g.no_less);
        },
      )

  -- the claimed share is given
  pub claim_from-gives :
      (direct : Option RecordingShare)
      → find_where (is_user_share w.recording_id user) shares ≡ direct
      → Covers user w (claim_from shares user w direct)
  claim_from-gives none e =
      let hit : (if has_share_id w.id w then given_to user w else w) ≡ given_to user w =
        ground arith in
      (
        given_to user w,
        rw hit at (Row-update_where (has_share_id w.id) (given_to user) w shares row_w),
        record { whose = refl; of = refl; no_less = λ e. e },
      )
  claim_from-gives (some direct) e =
      let (row, found) = find_where-Row (is_user_share w.recording_id user) shares direct e in
      let owner : direct.user_id ≡ some user = ground arith in
      let of : direct.recording_id ≡ w.recording_id = ground arith in
      let apart = not_same shares user direct w unique row row_w owner nobody in
      let hit : (if has_share_id direct.id direct then raised w direct else direct)
          ≡ raised w direct =
        ground arith in
      (
        raised w direct,
        Row-delete_where_miss (has_share_id w.id) (raised w direct) (ground (arith, apart))
            (raise shares w direct) (rw hit at (Row-raise shares w direct direct row)),
        record { whose = ground arith; of = ground arith; no_less = λ edit. rw edit refl },
      )

  -- another row, which is not the user's, stays as it is
  pub claim_from-stays :
      (direct : Option RecordingShare) (v : RecordingShare)
      → find_where (is_user_share w.recording_id user) shares ≡ direct
      → has_share_id w.id v ≡ false
      → v.user_id ≢ some user
      → Row v shares
      → Row v (claim_from shares user w direct)
  claim_from-stays none v e other foreign row =
      rw other at (Row-update_where (has_share_id w.id) (given_to user) v shares row)
  claim_from-stays (some direct) v e other foreign row =
      let (row_d, found) = find_where-Row (is_user_share w.recording_id user) shares direct e in
      let owner : direct.user_id ≡ some user = ground arith in
      let ne : v.id ≢ direct.id = λ same.
        foreign (ap (λ s. s.user_id) (one_row shares v direct unique row row_d same) ∙ owner) in
      let apart : has_share_id direct.id v ≡ false = ground arith in
      Row-delete_where_miss (has_share_id w.id) v other (raise shares w direct)
        (rw apart at (Row-raise shares w direct v row))
