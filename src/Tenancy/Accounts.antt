-- ===== src/Tenancy/Accounts.antt =====
-- Accounts and their home workspaces (tenancy.py): signup, approval, rejection, suspension. Regular
-- expressions and the words that are cut out of a text are arguments, and so are the random tokens
-- of `unique_slug`, as the list of those that are drawn; `none` is a list that is too short,
-- and `no_slug` that, or a slug that the check of create_workspace declines.
pub mod Slugs
pub mod Homes
pub mod Status
use soriham_api.Prelude.{
  ℕ, zero, suc, ◌+◌, String, str_append, Bool, true, false, ◌&&◌, not, Option, none, some, List, [],
  ◌∷◌, ◌++◌, ◌==◌, opt_eq, str_eq, is_some, is_none, if◌then◌else◌,
}
use soriham_api.Table.{find_where, filter_where, update_where, delete_where, count_where}
use soriham_api.Models.{
  User, UserStatus, Workspace, WorkspaceKind, WorkspaceMember, Role, Invite, RecordingShare,
  Recording, JobLog,
}
use soriham_api.Auth.{Sessions, revoke_other_sessions}
use soriham_api.Sharing.{Addresses, valid_email}
use soriham_api.Tenancy.{Tenants}
use soriham_api.Tenancy.Pending.{claim_pending}

pub record Accounts : Type 0 where
  pub users : List User
  pub tenants : Tenants
  pub shares : List RecordingShare
  pub recordings : List Recording
  pub logs : List JobLog
  pub sessions : Sessions

pub record Naming : Type 0 where
  pub addresses : Addresses
  pub local_part : String → String
  pub slugify : String → String
  pub is_slug : String → Bool

-- the keys of the rows that one call may add; the first of the member rows is for a home
pub record NewIds : Type 0 where
  pub user_id : ℕ
  pub workspace_id : ℕ
  pub workspace_public_id : ℕ
  pub member_id : ℕ

pub record Limits : Type 0 where
  pub minutes : Option ℕ
  pub bytes : Option ℕ

unfoldable pub find_workspace : List Workspace → String → Option Workspace
find_workspace workspaces slug = find_where (λ w. str_eq w.slug slug) workspaces

unfoldable pub find_user : Naming → List User → String → Option User
find_user n users email = find_where (λ u. str_eq u.email (n.addresses.normalize email)) users

unfoldable pub validate_slug : Naming → String → Option String
validate_slug n slug =
    if n.is_slug (n.addresses.normalize slug) then some (n.addresses.normalize slug) else none

abbrev pub with_token : String → String → String
with_token base token = str_append base (str_append "-" token)

-- the loop of unique_slug over the tokens that are drawn
unfoldable pub draw_slug : List Workspace → String → List String → Option String
unfolding find_workspace
draw_slug workspaces base [] = none
draw_slug workspaces base (token ∷ tokens) =
    let rest = draw_slug workspaces base tokens in
    if is_none (find_workspace workspaces (with_token base token))
    then some (with_token base token)
    else rest

unfoldable pub unique_slug : Naming → List Workspace → String → List String → Option String
unfolding draw_slug
unique_slug n workspaces raw tokens =
    if is_none (find_workspace workspaces (n.slugify raw))
    then some (n.slugify raw)
    else draw_slug workspaces (n.slugify raw) tokens

abbrev pub personal_workspace : NewIds → String → String → Limits → Workspace
personal_workspace ids slug name limits = record {
  id = ids.workspace_id;
  public_id = ids.workspace_public_id;
  slug = slug;
  name = name;
  kind = WorkspaceKind.personal;
  last_claimed_at = none;
  quota_minutes = limits.minutes;
  quota_bytes = limits.bytes;
}

abbrev pub has_user_id : ℕ → User → Bool
has_user_id id u = u.id == id

abbrev pub write_user : Accounts → ℕ → (User → User) → Accounts
write_user a id f = record a { users = update_where (has_user_id id) f a.users }

abbrev pub settle_in : Accounts → NewIds → ℕ → Workspace → Accounts
settle_in a ids user w =
    write_user
      (record a {
        tenants = record a.tenants {
          workspaces = a.tenants.workspaces ++ w ∷ [];
          members =
              a.tenants.members
              ++ record {
                id = ids.member_id;
                workspace_id = w.id;
                user_id = user;
                role = Role.owner;
              }
                ∷ [];
        };
      })
      user (λ u. record u { default_workspace_id = some w.id })

abbrev pub home_name : String → String
home_name display_name = str_append display_name "의 보관함"

-- a personal workspace with its owner, which becomes the user's default
abbrev pub found_home : Accounts → NewIds → User → Limits → Option String → Option Accounts
found_home a ids user limits none = none
found_home a ids user limits (some slug) =
    some
      (settle_in a ids user.id (personal_workspace ids slug (home_name user.display_name) limits))

abbrev pub and_then : Option String → (String → Option String) → Option String
and_then none f = none
and_then (some s) f = f s

-- unique_slug, and the check of create_workspace
unfoldable pub home_slug : Naming → List Workspace → User → List String → Option String
unfolding unique_slug validate_slug
home_slug n workspaces user tokens =
    and_then (unique_slug n workspaces (n.local_part user.email) tokens) (validate_slug n)

abbrev pub is_members_of : ℕ → WorkspaceMember → Bool
is_members_of user m = m.user_id == user

abbrev pub first_workspace : Option WorkspaceMember → Option ℕ
first_workspace none = none
first_workspace (some m) = some m.workspace_id

abbrev pub keep_home : Accounts → User → Option WorkspaceMember → Accounts
keep_home a user m =
    if is_none user.default_workspace_id
    then write_user a user.id (λ u. record u { default_workspace_id = first_workspace m })
    else a

abbrev pub home_for :
    Naming
    → Accounts
    → NewIds
    → User
    → Limits
    → List String
    → Option WorkspaceMember
    → Option Accounts
home_for n a ids user limits tokens none =
    found_home a ids user limits (home_slug n a.tenants.workspaces user tokens)
home_for n a ids user limits tokens (some m) = some (keep_home a user (some m))

-- _ensure_home_workspace
unfoldable pub ensure_home :
    Naming → Accounts → NewIds → User → Limits → List String → Option Accounts
unfolding home_slug
ensure_home n a ids user limits tokens =
    home_for n a ids user limits tokens (find_where (is_members_of user.id) a.tenants.members)

unfoldable pub claim_for : Accounts → ℕ → User → ℕ → Accounts
unfolding claim_pending
claim_for a key user now =
    let claimed = claim_pending a.tenants a.shares key user now in
    record a { tenants = claimed.0; shares = claimed.1 }

abbrev pub reviewed : UserStatus → Option ℕ → ℕ → User → User
reviewed status reviewer now u = record u {
  status = status;
  reviewed_by_user_id = reviewer;
  reviewed_at = some now;
}

abbrev pub then_claim : Option Accounts → ℕ → User → ℕ → Option Accounts
then_claim none key user now = none
then_claim (some a) key user now = some (claim_for a key user now)

unfoldable pub approve :
    Naming → Accounts → NewIds → User → Option ℕ → Limits → List String → ℕ → Option Accounts
unfolding ensure_home claim_for
approve n a ids user reviewer limits tokens now =
    then_claim
      (ensure_home n (write_user a user.id (reviewed UserStatus.active reviewer now)) ids user
        limits tokens)
      (suc ids.member_id) user now

abbrev pub is_personal : WorkspaceKind → Bool
is_personal WorkspaceKind.personal = true
is_personal WorkspaceKind.team = false

-- the account alone, no recording and no ledger line
unfoldable pub is_empty_home : Accounts → Workspace → Bool
is_empty_home a w =
    is_personal w.kind
    && count_where (λ (m : WorkspaceMember). m.workspace_id == w.id) a.tenants.members == 1
    && count_where (λ (r : Recording). r.workspace_id == w.id) a.recordings == 0
    && count_where (λ (l : JobLog). l.workspace_id == w.id) a.logs == 0

-- DELETE of a workspace, and of what refers to it with ON DELETE CASCADE; a default is set to NULL
unfoldable pub delete_workspace : ℕ → Accounts → Accounts
delete_workspace id a = record a {
  users =
      update_where (λ u. opt_eq u.default_workspace_id id)
        (λ u. record u { default_workspace_id = none }) a.users;
  tenants = record {
    workspaces = delete_where (λ w. w.id == id) a.tenants.workspaces;
    members = delete_where (λ m. m.workspace_id == id) a.tenants.members;
    invites = delete_where (λ i. i.workspace_id == id) a.tenants.invites;
  };
  recordings = delete_where (λ r. r.workspace_id == id) a.recordings;
  logs = delete_where (λ l. l.workspace_id == id) a.logs;
}

abbrev pub no_default : ℕ → User → User
no_default workspace u =
    if opt_eq u.default_workspace_id workspace then record u { default_workspace_id = none } else u

abbrev pub drop_home : ℕ → Accounts → Option Workspace → Accounts
drop_home user a none = a
drop_home user a (some w) =
    if is_empty_home a w then delete_workspace w.id (write_user a user (no_default w.id)) else a

unfoldable pub drop_homes : ℕ → List WorkspaceMember → Accounts → Accounts
unfolding is_empty_home delete_workspace
drop_homes user [] a = a
drop_homes user (m ∷ ms) a =
    drop_homes user ms
      (drop_home user a (find_where (λ w. w.id == m.workspace_id) a.tenants.workspaces))

-- _drop_empty_personal_workspaces
unfoldable pub drop_empty_homes : ℕ → Accounts → Accounts
unfolding drop_homes
drop_empty_homes user a = drop_homes user (filter_where (is_members_of user) a.tenants.members) a

unfoldable pub reject : Accounts → User → Option ℕ → ℕ → Accounts
unfolding drop_empty_homes
reject a user reviewer now =
    drop_empty_homes user.id (write_user a user.id (reviewed UserStatus.rejected reviewer now))

abbrev pub end_sessions : Accounts → ℕ → ℕ → Accounts
end_sessions a user now = record a { sessions = (revoke_other_sessions a.sessions user none now).0 }

-- `none` is MemberInvalid: an account does not go back to pending
unfoldable pub set_user_status :
    Naming
    → Accounts
    → NewIds
    → User
    → UserStatus
    → Option ℕ
    → Limits
    → List String
    → ℕ
    → Option Accounts
unfolding approve reject revoke_other_sessions
set_user_status n a ids user UserStatus.pending reviewer limits tokens now = none
set_user_status n a ids user UserStatus.active reviewer limits tokens now =
    approve n a ids user reviewer limits tokens now
set_user_status n a ids user UserStatus.rejected reviewer limits tokens now =
    some (end_sessions (reject a user reviewer now) user.id now)
set_user_status n a ids user UserStatus.disabled reviewer limits tokens now =
    some
      (end_sessions (write_user a user.id (reviewed UserStatus.disabled reviewer now)) user.id now)

-- create_user
abbrev pub new_user :
    Naming → ℕ → String → String → String → UserStatus → Bool → Option String → User
new_user n id email password_hash display_name status is_admin note = record {
  id = id;
  email = n.addresses.normalize email;
  password_hash = password_hash;
  display_name = display_name;
  status = status;
  signup_note = note;
  reviewed_by_user_id = none;
  reviewed_at = none;
  is_service_admin = is_admin;
  default_workspace_id = none;
}

pub record Application : Type 0 where
  pub email : String
  pub password_hash : String
  pub display_name : String
  pub note : Option String
  pub auto_approve : Bool

pub data SignupError : Type 0 where
  bad_email email_taken no_slug : SignupError

pub data Signup : Type 0 where
  declined : SignupError → Signup
  signed_up : Accounts → User → Signup

abbrev pub signup_home : Application → NewIds → User → ℕ → Option Accounts → Signup
signup_home app ids user now none = declined no_slug
signup_home app ids user now (some a) =
    signed_up (if app.auto_approve then claim_for a (suc ids.member_id) user now else a) user

abbrev pub add_user : Accounts → User → Accounts
add_user a u = record a { users = a.users ++ u ∷ [] }

abbrev pub signup_user :
    Naming → Accounts → NewIds → Application → Limits → List String → ℕ → String → Signup
signup_user n a ids app limits tokens now email =
    let u =
      new_user n ids.user_id email app.password_hash app.display_name
        (if app.auto_approve then UserStatus.active else UserStatus.pending) false app.note in
    signup_home app ids u now
      (found_home (add_user a u) ids u limits (home_slug n a.tenants.workspaces u tokens))

abbrev pub signup_with :
    Naming → Accounts → NewIds → Application → Limits → List String → ℕ → Option String → Signup
signup_with n a ids app limits tokens now none = declined bad_email
signup_with n a ids app limits tokens now (some email) =
    if is_some (find_user n a.users email)
    then declined email_taken
    else signup_user n a ids app limits tokens now email

unfoldable pub signup : Naming → Accounts → NewIds → Application → Limits → List String → ℕ → Signup
unfolding valid_email find_user home_slug claim_for
signup n a ids app limits tokens now =
    signup_with n a ids app limits tokens now (valid_email n.addresses app.email)
