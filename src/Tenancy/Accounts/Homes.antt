-- ===== src/Tenancy/Accounts/Homes.antt =====
-- Who is approved has a workspace to work in.
use soriham_api.Prelude.{
  ℕ, suc, String, ◌≡◌, refl, true, Option, none, some, List, [], ◌∷◌, ◌++◌, arith, is_some,
  Bool-cases, Option-cases, inl, inr,
}
use soriham_api.Table.{find_where, filter_where, update_where, All}
use soriham_api.Table.Rows.{All-map, All-update_where_new, All-update_where}
use soriham_api.Table.Find.{find_where-append}
use soriham_api.Models.{User, UserStatus, WorkspaceMember, Role, Invite}
use soriham_api.Tenancy.{Tenants, find_member, join_workspace}
use soriham_api.Tenancy.Pending.{
  claim_invite, claim_invites, claim_pending, is_usable, is_reserved_invite,
}
use soriham_api.Tenancy.Accounts.{
  Accounts, Naming, NewIds, Limits, personal_workspace, home_name, approve, ensure_home, home_for,
  found_home, home_slug, keep_home, settle_in, write_user, reviewed, is_members_of, claim_for,
  then_claim, has_user_id,
}

abbrev pub HasMember : ℕ → List WorkspaceMember → Type 0
HasMember user members = is_some (find_where (is_members_of user) members) ≡ true

append-HasMember :
    (user : ℕ) (members new : List WorkspaceMember)
    → HasMember user members
    → HasMember user (members ++ new)
append-HasMember user members new h =
    rw (find_where-append (is_members_of user) members new) (rw h h)

join_workspace-HasMember :
    (members : List WorkspaceMember) (key w user : ℕ) (role : Role) (who : ℕ)
    → HasMember who members
    → HasMember who (join_workspace members key w user role).0
join_workspace-HasMember members key w user role who h =
    elim (Bool-cases (is_some (find_member members w user))) [
      | inl e ↦ rw e h
      | inr e ↦ rw e (append-HasMember who members _ h)
    ]

claim_invites-HasMember :
    (waiting : List Invite) (t : Tenants) (key user now who : ℕ)
    → HasMember who t.members
    → HasMember who (claim_invites waiting t key user now).0.members
unfolding claim_invites
claim_invites-HasMember [] t key user now who h = h
claim_invites-HasMember (i ∷ waiting) t key user now who h =
    claim_invites-HasMember waiting (claim_invite t key user i now).0 (suc key) user now who one
  where
    one : HasMember who (claim_invite t key user i now).0.members
    one = elim (Bool-cases (is_usable now i)) [
      | inl e ↦ rw e (join_workspace-HasMember t.members key i.workspace_id user i.role who h)
      | inr e ↦ rw e h
    ]

-- a workspace to work in, and one to begin with
abbrev pub IsHoused : ℕ → Accounts → Type 0
IsHoused user a =
    HasMember user a.tenants.members
    × All (λ u. u.id ≡ user → is_some u.default_workspace_id ≡ true) a.users

-- the row that the caller holds is the one in the table
abbrev pub IsLoaded : User → Accounts → Type 0
IsLoaded user a =
    All (λ u. u.id ≡ user.id → u.default_workspace_id ≡ user.default_workspace_id) a.users

HasMember-append_own :
    (user : ℕ) (members : List WorkspaceMember) (m : WorkspaceMember)
    → find_where (is_members_of user) members ≡ none
    → is_members_of user m ≡ true
    → HasMember user (members ++ m ∷ [])
unfolding find_where
HasMember-append_own user members m e own =
    rw (find_where-append (is_members_of user) members (m ∷ [])) (rw e (rw own refl))

-- a default is written where the user's row stands
settled_users :
    (users : List User) (user w : ℕ)
    → All
        (λ u. u.id ≡ user → is_some u.default_workspace_id ≡ true)
        (update_where (has_user_id user) (λ u. record u { default_workspace_id = some w }) users)
settled_users users user w =
    All-update_where_new (λ u. u.id ≡ user → is_some u.default_workspace_id ≡ true)
      (has_user_id user) (λ u. record u { default_workspace_id = some w }) users (λ u hit own. refl)
      (λ u miss own. absurd (ground arith))

found_home-IsHoused :
    (a after : Accounts) (ids : NewIds) (user : User) (limits : Limits) (slug : Option String)
    → find_where (is_members_of user.id) a.tenants.members ≡ none
    → found_home a ids user limits slug ≡ some after
    → IsHoused user.id after
found_home-IsHoused a after ids user limits none e done = cc
found_home-IsHoused a after ids user limits (some slug) e done =
    let w = personal_workspace ids slug (home_name user.display_name) limits in
    let eq : settle_in a ids user.id w ≡ after = cc in
    let row : WorkspaceMember = record {
      id = ids.member_id;
      workspace_id = w.id;
      user_id = user.id;
      role = Role.owner;
    } in
    rw (← eq) (
      HasMember-append_own user.id a.tenants.members row e (ground arith),
      settled_users a.users user.id w.id,
    )

keep_home-IsHoused :
    (a : Accounts) (user : User) (m : WorkspaceMember)
    → find_where (is_members_of user.id) a.tenants.members ≡ some m
    → IsLoaded user a
    → IsHoused user.id (keep_home a user (some m))
keep_home-IsHoused a user m e loaded = elim (Option-cases user.default_workspace_id) [
  | inl h ↦ rw h (rw e refl, settled_users a.users user.id m.workspace_id)
  | inr (w, h) ↦ rw h (
    rw e refl,
    All-map (λ (u : User). u.id ≡ user.id → u.default_workspace_id ≡ user.default_workspace_id)
        (λ u. u.id ≡ user.id → is_some u.default_workspace_id ≡ true) a.users
        (λ u same own. rw (same own, h) refl) loaded,
  )
]

home_for-IsHoused :
    (n : Naming) (a after : Accounts) (ids : NewIds) (user : User) (limits : Limits)
    (tokens : List String) (row : Option WorkspaceMember)
    → find_where (is_members_of user.id) a.tenants.members ≡ row
    → IsLoaded user a
    → home_for n a ids user limits tokens row ≡ some after
    → IsHoused user.id after
home_for-IsHoused n a after ids user limits tokens none e loaded done =
    found_home-IsHoused a after ids user limits (home_slug n a.tenants.workspaces user tokens) e
      done
home_for-IsHoused n a after ids user limits tokens (some m) e loaded done =
    let eq : keep_home a user (some m) ≡ after = cc in
    rw (← eq) (keep_home-IsHoused a user m e loaded)

claim_for-IsHoused :
    (a : Accounts) (key : ℕ) (user : User) (now : ℕ)
    → IsHoused user.id a
    → IsHoused user.id (claim_for a key user now)
unfolding claim_for claim_pending
claim_for-IsHoused a key user now housed = (
  claim_invites-HasMember (filter_where (is_reserved_invite user.email) a.tenants.invites) a.tenants
      key user.id now user.id housed.0,
  housed.1,
)

approved-IsHoused :
    (home : Option Accounts) (after : Accounts) (key : ℕ) (user : User) (now : ℕ)
    → ((a : Accounts) → home ≡ some a → IsHoused user.id a)
    → then_claim home key user now ≡ some after
    → IsHoused user.id after
approved-IsHoused none after key user now housed done = cc
approved-IsHoused (some a) after key user now housed done =
    let eq : claim_for a key user now ≡ after = cc in
    rw (← eq) (claim_for-IsHoused a key user now (housed a refl))

-- The row that the caller holds being that of the table, an account that is approved is a member of
-- a workspace afterwards, and its row names a default workspace.
pub approve-IsHoused :
    (n : Naming) (a after : Accounts) (ids : NewIds) (user : User) (reviewer : Option ℕ)
    (limits : Limits) (tokens : List String) (now : ℕ)
    → IsLoaded user a
    → approve n a ids user reviewer limits tokens now ≡ some after
    → IsHoused user.id after
unfolding approve ensure_home
approve-IsHoused n a after ids user reviewer limits tokens now loaded done =
    let mark = reviewed UserStatus.active reviewer now in
    let home =
      home_for n (write_user a user.id mark) ids user limits tokens
        (find_where (is_members_of user.id) a.tenants.members) in
    approved-IsHoused home after (suc ids.member_id) user now
      (λ b e.
        home_for-IsHoused n (write_user a user.id mark) b ids user limits tokens
          (find_where (is_members_of user.id) a.tenants.members) refl
          (All-update_where
            (λ u. u.id ≡ user.id → u.default_workspace_id ≡ user.default_workspace_id)
            (has_user_id user.id) mark a.users (λ u hit same own. same own) loaded)
          e)
      done
