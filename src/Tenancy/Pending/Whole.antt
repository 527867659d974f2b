-- ===== src/Tenancy/Pending/Whole.antt =====
-- What was reserved for an address becomes the account's, all of it and nothing else.
use soriham_api.Prelude.{
  ℕ, ◌≡◌, ◌≢◌, refl, String, Bool, Bool-cases, true, false, none, some, is_some, List, [], ◌∷◌,
  arith, ◌⊎◌, inl, inr,
}
use soriham_api.Table.{find_where, filter_where, All, Unique, Row, here, there}
use soriham_api.Table.Rows.{All-Row, All-map2}
use soriham_api.Table.Keys.{All-of_Row}
use soriham_api.Table.Best.{filter_where-Row, Row-filter_where}
use soriham_api.Models.{User, RecordingShare}
use soriham_api.Sharing.{is_user_share}
use soriham_api.Sharing.Shares.{same_id}
use soriham_api.Tenancy.{Tenants}
use soriham_api.Tenancy.Pending.{
  claim_pending, claim_share, claim_shares, is_reserved, has_share_id,
}
use soriham_api.Tenancy.Pending.Claimed.{
  HasShareKeys, claim_from-HasShareKeys, claim_pending-HasShareKeys,
}
use soriham_api.Tenancy.Pending.Given.{
  Covers, Ready, Ready-IsOf, one_row, claim_from-keeps, claim_from-gives, claim_from-stays,
}
use soriham_api.Tenancy.Pending.Sources.{Comes, claim_from-Comes}

-- CHECK of the table: a share for an address is nobody's yet
abbrev pub HasOneTarget : RecordingShare → Type 0
HasOneTarget s = is_some s.invite_email ≡ true → s.user_id ≡ none

module _ (user : ℕ) where
  none_ne_some : (v : RecordingShare) → v.user_id ≡ none → v.user_id ≢ some user
  none_ne_some v free owner = cc

  Ready-step :
      (w : RecordingShare) (waiting shares : List RecordingShare)
      → Ready (w ∷ waiting) shares
      → Ready waiting (claim_share user shares w)
  unfolding claim_share
  Ready-step w waiting shares r =
      let direct = find_where (is_user_share w.recording_id user) shares in
      record {
        keys =
            claim_from-HasShareKeys shares user w direct refl
              (Ready-IsOf shares w r.keys.0 r.stored.0) r.keys;
        once = r.once.1;
        stored =
            All-map2 waiting
              (λ v (kept : Row v shares) (rest : (v.user_id ≡ none) × (same_id w v ≡ true → ⊥)).
                claim_from-stays user shares w r.keys.0 r.stored.0 r.unowned.0 direct v refl
                  (ground (arith, rest.1)) (none_ne_some v rest.0) kept)
              r.stored.1 (All-map2 waiting (λ v free ne. (free, ne)) r.unowned.1 r.once.0);
        unowned = r.unowned.1;
      }

  claim_shares-Covers :
      (s : RecordingShare) (waiting shares : List RecordingShare)
      → Ready waiting shares
      → Covers user s shares ⊎ Row s waiting
      → Covers user s (claim_shares user waiting shares)
  unfolding claim_shares claim_share
  claim_shares-Covers s [] shares r (inl c) = c
  claim_shares-Covers s [] shares r (inr row) = elim row [ ]
  claim_shares-Covers s (w ∷ waiting) shares r (inl c) =
      claim_shares-Covers s waiting (claim_share user shares w) (Ready-step w waiting shares r) (
        inl (
          claim_from-keeps user shares w r.keys.0 r.stored.0 r.unowned.0
            (find_where (is_user_share w.recording_id user) shares) s c))
  claim_shares-Covers s (_ ∷ waiting) shares r (inr (here _)) =
      claim_shares-Covers s waiting (claim_share user shares s) (Ready-step s waiting shares r) (
        inl (
          claim_from-gives user shares s r.keys.0 r.stored.0 r.unowned.0
            (find_where (is_user_share s.recording_id user) shares) refl))
  claim_shares-Covers s (w ∷ waiting) shares r (inr (there _ _ row)) =
      claim_shares-Covers s waiting (claim_share user shares w) (Ready-step w waiting shares r)
        (inr row)

  claim_shares-Comes :
      (email : String) (before waiting shares : List RecordingShare)
      → Ready waiting shares
      → All (λ w. Row w before) waiting
      → All (λ w. is_reserved email w ≡ true) waiting
      → All (Comes email user before) shares
      → All (Comes email user before) (claim_shares user waiting shares)
  unfolding claim_shares claim_share
  claim_shares-Comes email before [] shares r from meant h = h
  claim_shares-Comes email before (w ∷ waiting) shares r from meant h =
      claim_shares-Comes email before waiting (claim_share user shares w)
        (Ready-step w waiting shares r) from.1 meant.1
        (claim_from-Comes email user before shares w
          (find_where (is_user_share w.recording_id user) shares) refl r.keys.0 r.stored.0 from.0
          meant.0 h)

  claim_shares-stays :
      (v : RecordingShare) (waiting shares : List RecordingShare)
      → Ready waiting shares
      → All (λ w. has_share_id w.id v ≡ false) waiting
      → v.user_id ≢ some user
      → Row v shares
      → Row v (claim_shares user waiting shares)
  unfolding claim_shares claim_share
  claim_shares-stays v [] shares r others foreign row = row
  claim_shares-stays v (w ∷ waiting) shares r others foreign row =
      claim_shares-stays v waiting (claim_share user shares w) (Ready-step w waiting shares r)
        others.1 foreign
        (claim_from-stays user shares w r.keys.0 r.stored.0 r.unowned.0
          (find_where (is_user_share w.recording_id user) shares) v refl others.0 foreign row)

Unique-filter_where :
    (p : RecordingShare → Bool) (xs : List RecordingShare)
    → Unique same_id xs
    → Unique same_id (filter_where p xs)
unfolding filter_where
Unique-filter_where p [] u = tt
Unique-filter_where p (x ∷ xs) (ne, u) = elim (Bool-cases (p x)) [
  | inl e ↦ rw e (
    All-of_Row (λ y. same_id x y ≡ true → ⊥) (filter_where p xs)
        (λ y row. All-Row (λ y. same_id x y ≡ true → ⊥) xs y ne (filter_where-Row p xs y row).0),
    Unique-filter_where p xs u,
  )
  | inr e ↦ rw e (Unique-filter_where p xs u)
]

module _ (email : String) (shares : List RecordingShare) (keys : HasShareKeys shares)
    (targets : All HasOneTarget shares) where
  abbrev waiting : List RecordingShare
  waiting = filter_where (is_reserved email) shares

  waiting-Row : All (λ w. Row w shares) waiting
  waiting-Row =
      All-of_Row (λ w. Row w shares) waiting
        (λ w row. (filter_where-Row (is_reserved email) shares w row).0)

  waiting-is_reserved : All (λ w. is_reserved email w ≡ true) waiting
  waiting-is_reserved =
      All-of_Row (λ w. is_reserved email w ≡ true) waiting
        (λ w row. (filter_where-Row (is_reserved email) shares w row).1)

  waiting-Ready : Ready waiting shares
  waiting-Ready = record {
    keys = keys;
    once = Unique-filter_where (is_reserved email) shares keys.0;
    stored = waiting-Row;
    unowned =
        All-of_Row (λ w. w.user_id ≡ none) waiting
          (λ w row.
            let (stored, meant) = filter_where-Row (is_reserved email) shares w row in
            All-Row HasOneTarget shares w targets stored (ground arith));
  }

  others_miss :
      (v : RecordingShare)
      → is_reserved email v ≡ false
      → Row v shares
      → All (λ w. has_share_id w.id v ≡ false) waiting
  others_miss v free row =
      All-of_Row (λ w. has_share_id w.id v ≡ false) waiting
        (λ w waits.
          let (stored, meant) = filter_where-Row (is_reserved email) shares w waits in
          let ne : v.id ≢ w.id = λ same.
            let eq : v ≡ w = one_row shares v w keys.0 row stored same in
            let bad : is_reserved email v ≡ true = rw eq meant in cc in
          ground arith)

  own-Comes : (user : ℕ) → All (Comes email user shares) shares
  own-Comes user =
      All-of_Row (Comes email user shares) shares
        (λ x row owner. (x, row, record { meant = inr owner; of = refl; no_less = λ e. e }))

-- Where the keys of the table are unique and a share for an address has no user, the account has
-- after its approval a share of every recording that was shared with it or reserved for its address,
-- which permits no less; every share that it then has permits no more than one that it had or that
-- was reserved for it on the same recording; every other share is as before; no share is left reserved for the address; and the keys
-- are still unique, so that there is one share for each recording.
pub claim_pending-claimed :
    (t : Tenants) (shares : List RecordingShare) (key : ℕ) (user : User) (now : ℕ)
    → HasShareKeys shares
    → All HasOneTarget shares
    → ((s : RecordingShare)
        → Row s shares
        → (is_reserved user.email s ≡ true) ⊎ (s.user_id ≡ some user.id)
        → Covers user.id s (claim_pending t shares key user now).1)
      × All (Comes user.email user.id shares) (claim_pending t shares key user now).1
      × ((s : RecordingShare)
          → Row s shares
          → is_reserved user.email s ≡ false
          → s.user_id ≢ some user.id
          → Row s (claim_pending t shares key user now).1)
      × All (λ x. is_reserved user.email x ≡ false) (claim_pending t shares key user now).1
      × HasShareKeys (claim_pending t shares key user now).1
unfolding claim_pending
claim_pending-claimed t shares key user now keys targets =
    let email = user.email in
    let ready = waiting-Ready email shares keys targets in
    let clean = claim_pending-HasShareKeys t shares key user now keys in
    (
      λ s row meant.
          claim_shares-Covers user.id s (filter_where (is_reserved email) shares) shares ready
            (given_or_waiting s row meant),
      claim_shares-Comes user.id email shares (filter_where (is_reserved email) shares) shares ready
          (waiting-Row email shares keys targets) (waiting-is_reserved email shares keys targets)
          (own-Comes email shares keys targets user.id),
      λ s row free foreign.
          claim_shares-stays user.id s (filter_where (is_reserved email) shares) shares ready
            (others_miss email shares keys targets s free row) foreign row,
      clean.1,
      clean.0,
    )
  where
    given_or_waiting :
        (s : RecordingShare)
        → Row s shares
        → (is_reserved user.email s ≡ true) ⊎ (s.user_id ≡ some user.id)
        → Covers user.id s shares ⊎ Row s (filter_where (is_reserved user.email) shares)
    given_or_waiting s row (inl meant) =
        inr (Row-filter_where (is_reserved user.email) shares s row meant)
    given_or_waiting s row (inr owner) =
        inl (s, row, record { whose = owner; of = refl; no_less = λ e. e })
