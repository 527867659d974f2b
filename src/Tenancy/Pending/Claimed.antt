-- ===== src/Tenancy/Pending/Claimed.antt =====
-- What claim_pending makes of reserved shares: none is left reserved, and no user gets two shares of
-- one recording.
use soriham_api.Prelude.{
  ℕ, ◌≡◌, ◌∙◌, refl, ap, String, Bool, true, false, ◌&&◌, Option, none, some, List, [], ◌∷◌, arith,
  Bool-cases, inl, inr,
}
use soriham_api.Table.{find_where, filter_where, All, Unique}
use soriham_api.Table.Rows.{All-Row, All-map, All-update_where, All-delete_where}
use soriham_api.Table.Keys.{
  Takes, Unique-one, All-of_Row, All-delete_where_miss, All-update_where_Row, Unique-delete_where,
  Unique-update_where_sub, Unique-update_where_fresh,
}
use soriham_api.Table.Find.{find_where-All_none}
use soriham_api.Table.Best.{filter_where-Row}
use soriham_api.Table.Chunks.{contains, keys_where, contains-keys_where, keys_where-filter_where}
use soriham_api.Models.{User, RecordingShare, SharePermission}
use soriham_api.Tenancy.{Tenants}
use soriham_api.Sharing.{is_user_share}
use soriham_api.Sharing.Shares.{same_share, same_id}
use soriham_api.Tenancy.Pending.{
  claim_pending, claim_from, claim_share, claim_shares, raise, given_to, has_share_id, is_reserved,
  is_edit,
}

-- the keys of the table of shares
abbrev pub HasShareKeys : List RecordingShare → Type 0
HasShareKeys shares = Unique same_id shares × Unique same_share shares

raise-HasShareKeys :
    (shares : List RecordingShare) (s direct : RecordingShare)
    → HasShareKeys shares
    → HasShareKeys (raise shares s direct)
raise-HasShareKeys shares s direct keys = elim (Bool-cases (is_edit s.permission)) [
  | inl e ↦ rw e (
    Unique-update_where_sub same_id (has_share_id direct.id)
        (λ x. record x { permission = SharePermission.edit }) shares (λ x y h. h) (λ x y h. h)
        keys.0,
    Unique-update_where_sub same_share (has_share_id direct.id)
        (λ x. record x { permission = SharePermission.edit }) shares (λ x y h. h) (λ x y h. h)
        keys.1,
  )
  | inr e ↦ rw e keys
]

-- the rows under the id of a share are of its recording
abbrev pub IsOf : RecordingShare → List RecordingShare → Type 0
IsOf s shares = All (λ x. x.id ≡ s.id → x.recording_id ≡ s.recording_id) shares

pub claim_from-HasShareKeys :
    (shares : List RecordingShare) (user : ℕ) (s : RecordingShare) (row : Option RecordingShare)
    → find_where (is_user_share s.recording_id user) shares ≡ row
    → IsOf s shares
    → HasShareKeys shares
    → HasShareKeys (claim_from shares user s row)
claim_from-HasShareKeys shares user s none e own keys = (
  Unique-update_where_sub same_id (has_share_id s.id) (given_to user) shares (λ x y h. h)
      (λ x y h. h) keys.0,
  Unique-update_where_fresh same_share same_id (is_user_share s.recording_id user)
      (has_share_id s.id) (given_to user) shares (λ x y hx hy. ground arith)
      (All-map (λ x. x.id ≡ s.id → x.recording_id ≡ s.recording_id)
        (λ x.
          has_share_id s.id x ≡ true
          → Takes same_share (is_user_share s.recording_id user) (given_to user x))
        shares
        (λ x h hit.
          let of : x.recording_id ≡ s.recording_id = h (ground arith) in
          (λ y t. ground arith, λ y t. ground arith))
        own)
      keys.0 keys.1 (find_where-All_none (is_user_share s.recording_id user) shares e),
)
claim_from-HasShareKeys shares user s (some direct) e own keys =
    let raised = raise-HasShareKeys shares s direct keys in
    (
      Unique-delete_where same_id (has_share_id s.id) (raise shares s direct) raised.0,
      Unique-delete_where same_share (has_share_id s.id) (raise shares s direct) raised.1,
    )

-- what the rows satisfy by id and recording alone, they keep
claim_from-All :
    (P : ℕ → ℕ → Type 0) (shares : List RecordingShare) (user : ℕ) (s : RecordingShare)
    (row : Option RecordingShare)
    → All (λ x. P x.id x.recording_id) shares
    → All (λ x. P x.id x.recording_id) (claim_from shares user s row)
claim_from-All P shares user s none h =
    All-update_where (λ x. P x.id x.recording_id) (has_share_id s.id) (given_to user) shares
      (λ x _ p. p) h
claim_from-All P shares user s (some direct) h =
    All-delete_where (λ x. P x.id x.recording_id) (has_share_id s.id) (raise shares s direct)
      (elim (Bool-cases (is_edit s.permission)) [
        | inl e ↦ rw e (
            All-update_where (λ x. P x.id x.recording_id) (has_share_id direct.id)
              (λ x. record x { permission = SharePermission.edit }) shares (λ x _ p. p) h)
        | inr e ↦ rw e h
      ])

claim_shares-HasShareKeys :
    (user : ℕ) (waiting shares : List RecordingShare)
    → All (λ s. IsOf s shares) waiting
    → HasShareKeys shares
    → HasShareKeys (claim_shares user waiting shares)
unfolding claim_shares
claim_shares-HasShareKeys user [] shares own keys = keys
claim_shares-HasShareKeys user (s ∷ waiting) shares own keys =
    claim_shares-HasShareKeys user waiting (claim_share user shares s)
      (All-map (λ w. IsOf w shares) (λ w. IsOf w (claim_share user shares s)) waiting
        (λ w h.
          claim_from-All (λ id recording. id ≡ w.id → recording ≡ w.recording_id) shares user s
            (find_where (is_user_share s.recording_id user) shares) h)
        own.1)
      (claim_from-HasShareKeys shares user s (find_where (is_user_share s.recording_id user) shares)
        refl own.0 keys)

abbrev share_id : RecordingShare → ℕ
share_id s = s.id

abbrev every : RecordingShare → Bool
every s = true

-- the rows that are still reserved are among those that wait
abbrev Waits : String → List RecordingShare → RecordingShare → Type 0
Waits email waiting x =
    is_reserved email x ≡ true → contains (keys_where share_id every waiting) x.id ≡ true

raise-Waits :
    (email : String) (waiting shares : List RecordingShare) (s direct : RecordingShare)
    → All (Waits email waiting) shares
    → All (Waits email waiting) (raise shares s direct)
raise-Waits email waiting shares s direct h = elim (Bool-cases (is_edit s.permission)) [
  | inl e ↦ rw e (
      All-update_where (Waits email waiting) (has_share_id direct.id)
        (λ x. record x { permission = SharePermission.edit }) shares (λ x _ w. w) h)
  | inr e ↦ rw e h
]

claim_from-Waits :
    (email : String) (waiting shares : List RecordingShare) (user : ℕ) (s : RecordingShare)
    (row : Option RecordingShare)
    → All (Waits email (s ∷ waiting)) shares
    → All (Waits email waiting) (claim_from shares user s row)
unfolding contains
claim_from-Waits email waiting shares user s none h =
    All-update_where_Row (Waits email waiting) (has_share_id s.id) (given_to user) shares
      (λ x _ _ gone. cc)
      (λ x row miss reserved.
        let waits : contains (keys_where share_id every (s ∷ waiting)) x.id ≡ true =
          All-Row (Waits email (s ∷ waiting)) shares x h row reserved in
        ground arith)
claim_from-Waits email waiting shares user s (some direct) h =
    All-delete_where_miss (Waits email waiting) (has_share_id s.id) (raise shares s direct) (
      All-map (Waits email (s ∷ waiting)) (λ x. has_share_id s.id x ≡ false → Waits email waiting x)
        (raise shares s direct)
        (λ x w miss reserved.
          let waits : contains (keys_where share_id every (s ∷ waiting)) x.id ≡ true = w reserved in
          ground arith)
        (raise-Waits email (s ∷ waiting) shares s direct h))

claim_shares-Waits :
    (email : String) (user : ℕ) (waiting shares : List RecordingShare)
    → All (Waits email waiting) shares
    → All (Waits email []) (claim_shares user waiting shares)
unfolding claim_shares
claim_shares-Waits email user [] shares h = h
claim_shares-Waits email user (s ∷ waiting) shares h =
    claim_shares-Waits email user waiting (claim_share user shares s) (
      claim_from-Waits email waiting shares user s
        (find_where (is_user_share s.recording_id user) shares) h)

module _ (email : String) (shares : List RecordingShare) (keys : HasShareKeys shares) where
  reserved-IsOf : All (λ s. IsOf s shares) (filter_where (is_reserved email) shares)
  reserved-IsOf =
      All-of_Row (λ s. IsOf s shares) (filter_where (is_reserved email) shares)
        (λ s row.
          All-of_Row (λ x. x.id ≡ s.id → x.recording_id ≡ s.recording_id) shares
            (λ x there e.
              ap (λ t. t.recording_id)
                (Unique-one same_id (has_share_id s.id) shares x s keys.0
                  (λ a b ha hb. ground arith) there
                  (filter_where-Row (is_reserved email) shares s row).0 (ground arith)
                  (ground arith))))

  reserved-Waits : All (Waits email (filter_where (is_reserved email) shares)) shares
  reserved-Waits =
      All-map
        (λ x.
          contains (keys_where share_id (λ r. is_reserved email r && every r) shares) x.id
          ≡ (is_reserved email x && every x))
        (Waits email (filter_where (is_reserved email) shares)) shares
        (λ x h reserved.
          rw (keys_where-filter_where share_id every (is_reserved email) shares)
            (h ∙ rw reserved refl))
        (contains-keys_where share_id (λ r. is_reserved email r && every r) shares keys.0)

-- Where ids are unique and a user has at most one share of a recording, an approval keeps it so, and
-- leaves no share reserved for the address of the account.
pub claim_pending-HasShareKeys :
    (t : Tenants) (shares : List RecordingShare) (key : ℕ) (user : User) (now : ℕ)
    → HasShareKeys shares
    → HasShareKeys (claim_pending t shares key user now).1
      × All (λ x. is_reserved user.email x ≡ false) (claim_pending t shares key user now).1
unfolding claim_pending contains
claim_pending-HasShareKeys t shares key user now keys = (
  claim_shares-HasShareKeys user.id (filter_where (is_reserved user.email) shares) shares
      (reserved-IsOf user.email shares keys) keys,
  All-map (Waits user.email []) (λ x. is_reserved user.email x ≡ false)
      (claim_shares user.id (filter_where (is_reserved user.email) shares) shares)
      (λ x w. ground (arith, w))
      (claim_shares-Waits user.email user.id (filter_where (is_reserved user.email) shares) shares
        (reserved-Waits user.email shares keys)),
)
