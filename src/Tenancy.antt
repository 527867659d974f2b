-- ===== src/Tenancy.antt =====
-- tenancy.py: invitations into a workspace and what becomes of them when a member leaves. The digest
-- of a token is an argument.
pub mod Invitations
pub mod Roles
pub mod Pending
pub mod Accounts
use soriham_api.Prelude.{
  ℕ, ◌+◌, String, Bool, true, false, ◌&&◌, ◌||◌, not, Option, none, some, List, [], ◌∷◌, ◌++◌, ◌==◌,
  leb, ltb, str_eq, opt_str_eq, is_some, is_none, if◌then◌else◌,
}
use soriham_api.Table.{find_where, filter_where, update_where, delete_where}
use soriham_api.Models.{User, Workspace, WorkspaceMember, Role, Invite}

pub record Tenants : Type 0 where
  pub workspaces : List Workspace
  pub members : List WorkspaceMember
  pub invites : List Invite

abbrev pub is_membership : ℕ → ℕ → WorkspaceMember → Bool
is_membership workspace user m = m.workspace_id == workspace && m.user_id == user

-- find_member
unfoldable pub find_member : List WorkspaceMember → ℕ → ℕ → Option WorkspaceMember
find_member members workspace user = find_where (is_membership workspace user) members

abbrev pub is_over : ℕ → Option ℕ → Bool
is_over now none = false
is_over now (some t) = leb t now

-- why `_live_invite` refuses a row that it found
abbrev pub is_spent : ℕ → Invite → Bool
is_spent now i = is_some i.revoked_at || is_over now i.expires_at || leb i.max_uses i.uses

abbrev pub live : ℕ → Option Invite → Option Invite
live now none = none
live now (some i) = if is_spent now i then none else some i

abbrev pub has_digest : String → Invite → Bool
has_digest h i = str_eq i.token_hash h

-- _live_invite; `none` is InviteInvalid
unfoldable pub live_invite : (String → String) → List Invite → String → ℕ → Option Invite
live_invite token_hash invites raw now = live now (find_where (has_digest (token_hash raw)) invites)

abbrev pub is_for : Option String → String → Bool
is_for none email = true
is_for (some e) email = str_eq e email

abbrev pub addressed : String → Option Invite → Option Invite
addressed email none = none
addressed email (some i) = if is_for i.email email then some i else none

-- peek_invite
unfoldable pub peek_invite : (String → String) → List Invite → String → User → ℕ → Option Invite
unfolding live_invite
peek_invite token_hash invites raw user now =
    addressed user.email (live_invite token_hash invites raw now)

-- _join_workspace: whether a row was added
abbrev pub join_workspace : List WorkspaceMember → ℕ → ℕ → ℕ → Role → List WorkspaceMember × Bool
join_workspace members key workspace user role =
    if is_some (find_member members workspace user) then (members, false) else (
      members ++ record { id = key; workspace_id = workspace; user_id = user; role = role } ∷ [],
      true,
    )

-- a member's use of the invitation is not counted
abbrev pub count_use : Tenants → Invite → List WorkspaceMember × Bool → Tenants
count_use t i (members, joined) = record t {
  members = members;
  invites =
      if joined
      then update_where (λ x. x.id == i.id) (λ x. record x { uses = i.uses + 1 }) t.invites
      else t.invites;
}

abbrev pub into_workspace :
    Tenants → ℕ → User → Invite → Option Workspace → Option (Tenants × Workspace)
into_workspace t key user i none = none
into_workspace t key user i (some w) =
    some (count_use t i (join_workspace t.members key i.workspace_id user.id i.role), w)

abbrev pub accept_peeked : Tenants → ℕ → User → Option Invite → Option (Tenants × Workspace)
accept_peeked t key user none = none
accept_peeked t key user (some i) =
    into_workspace t key user i (find_where (λ w. w.id == i.workspace_id) t.workspaces)

-- accept_invite; `key` is the id of a new member row
unfoldable pub accept_invite :
    (String → String) → Tenants → ℕ → String → User → ℕ → Option (Tenants × Workspace)
unfolding peek_invite find_member
accept_invite token_hash t key raw user now =
    accept_peeked t key user (peek_invite token_hash t.invites raw user now)

abbrev pub is_owner : Role → Bool
is_owner Role.owner = true
is_owner other = false

-- the invitations of a workspace to an address that still stand
abbrev pub is_standing : ℕ → String → Invite → Bool
is_standing workspace email i =
    i.workspace_id == workspace && opt_str_eq i.email email && is_none i.revoked_at

abbrev pub removed : Tenants → ℕ → User → ℕ → Option WorkspaceMember → Option Tenants
removed t workspace user now none = none
removed t workspace user now (some m) =
    if is_owner m.role
    then none
    else some (record t {
      members = delete_where (λ x. x.id == m.id) t.members;
      invites =
          update_where (is_standing workspace user.email) (λ x. record x { revoked_at = some now })
            t.invites;
    })

-- remove_member, up to the user's default workspace; `none` is MemberInvalid
unfoldable pub remove_member : Tenants → ℕ → User → ℕ → Option Tenants
unfolding find_member
remove_member t workspace user now =
    removed t workspace user now (find_member t.members workspace user.id)

abbrev pub is_invite_of : ℕ → ℕ → Invite → Bool
is_invite_of workspace public_id i =
    i.workspace_id == workspace && i.public_id == public_id && is_none i.revoked_at

abbrev pub stamp_invite : List Invite → ℕ → Option Invite → List Invite × Bool
stamp_invite invites now none = (invites, false)
stamp_invite invites now (some i) =
    (update_where (λ x. x.id == i.id) (λ x. record x { revoked_at = some now }) invites, true)

unfoldable pub revoke_invite : List Invite → ℕ → ℕ → ℕ → List Invite × Bool
revoke_invite invites workspace public_id now =
    stamp_invite invites now (find_where (is_invite_of workspace public_id) invites)

abbrev pub is_listed : ℕ → ℕ → Invite → Bool
is_listed workspace now i =
    i.workspace_id == workspace
    && is_none i.revoked_at
    && ltb i.uses i.max_uses
    && not (is_over now i.expires_at)

-- list_invites, in the order of the ids
unfoldable pub list_invites : List Invite → ℕ → ℕ → List Invite
list_invites invites workspace now = filter_where (is_listed workspace now) invites
