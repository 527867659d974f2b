-- ===== src/Tenancy/Roles.antt =====
-- Roles, and the issue of invitations (tenancy.py). Nobody becomes an owner or ceases to be one here.
pub mod Issued
use soriham_api.Prelude.{
  ℕ, ◌≡◌, refl, ap, String, Bool, true, false, ◌&&◌, ◌==◌, leb, Option, none, some, List, [], ◌∷◌,
  ◌++◌, arith, Bool-cases, inl, inr, str_eq, if◌then◌else◌,
}
use soriham_api.Table.{filter_where, update_where, delete_where, Row, Unique}
use soriham_api.Table.Keys.{Unique-one, filter_where-update_where, filter_where-delete_where}
use soriham_api.Table.Find.{find_where-Row}
use soriham_api.Models.{User, WorkspaceMember, Role, Invite}
use soriham_api.Sharing.{Addresses, Keys, valid_email, expiry_of}
use soriham_api.Tenancy.{
  Tenants, find_member, is_membership, is_owner, remove_member, removed, is_standing,
}

abbrev pub has_member_id : ℕ → WorkspaceMember → Bool
has_member_id id m = m.id == id

-- `none` is MemberInvalid
abbrev pub change_role :
    List WorkspaceMember → Role → Option WorkspaceMember → Option (List WorkspaceMember)
change_role members role none = none
change_role members role (some m) =
    if is_owner m.role
    then none
    else some (update_where (has_member_id m.id) (λ x. record x { role = role }) members)

unfoldable pub set_member_role : List WorkspaceMember → ℕ → ℕ → Role → Option (List WorkspaceMember)
unfolding find_member
set_member_role members workspace user role =
    if is_owner role then none else change_role members role (find_member members workspace user)

-- INVITE_MAX_DAYS
abbrev pub invite_max_days : ℕ
invite_max_days = 3650

abbrev pub are_days_allowed : Option ℕ → Bool
are_days_allowed none = true
are_days_allowed (some days) = leb 1 days && leb days invite_max_days

pub record NewInvite : Type 0 where
  pub role : Role
  pub email : String
  pub created_by : Option ℕ
  pub expires_in_days : Option ℕ
  pub max_uses : ℕ

unfoldable pub new_invite :
    (String → String) → Keys → ℕ → NewInvite → Option String → String → ℕ → Invite
new_invite token_hash k workspace opts email raw now = record {
  id = k.new_id;
  public_id = k.new_public_id;
  token_hash = token_hash raw;
  email = email;
  workspace_id = workspace;
  role = opts.role;
  created_by_user_id = opts.created_by;
  expires_at = expiry_of now opts.expires_in_days;
  max_uses = opts.max_uses;
  uses = 0;
  revoked_at = none;
}

-- no address stands for an invitation of anybody; `none` is MemberInvalid
abbrev pub invite_address : Addresses → String → Option (Option String)
invite_address a email =
    if str_eq email ""
    then some none
    else elim (valid_email a email) [ none ↦ none | some e ↦ some (some e) ]

abbrev pub insert_invite :
    (String → String)
    → List Invite
    → Keys
    → ℕ
    → NewInvite
    → String
    → ℕ
    → Option (Option String)
    → Option (List Invite)
insert_invite token_hash invites k workspace opts raw now none = none
insert_invite token_hash invites k workspace opts raw now (some email) =
    some (invites ++ new_invite token_hash k workspace opts email raw now ∷ [])

unfoldable pub create_invite :
    Addresses
    → (String → String)
    → List Invite
    → Keys
    → ℕ
    → NewInvite
    → String
    → ℕ
    → Option (List Invite)
unfolding new_invite valid_email
create_invite a token_hash invites k workspace opts raw now =
    if is_owner opts.role
    then none
    else if are_days_allowed opts.expires_in_days && leb 1 opts.max_uses
    then insert_invite token_hash invites k workspace opts raw now (invite_address a opts.email)
    else none

abbrev pub same_member_id : WorkspaceMember → WorkspaceMember → Bool
same_member_id a b = a.id == b.id

abbrev pub owns : WorkspaceMember → Bool
owns m = is_owner m.role

-- the rows under the id of a member who is no owner
not_owner :
    (members : List WorkspaceMember) (m x : WorkspaceMember) (workspace user : ℕ)
    → Unique same_member_id members
    → find_member members workspace user ≡ some m
    → is_owner m.role ≡ false
    → Row x members
    → has_member_id m.id x ≡ true
    → owns x ≡ false
unfolding find_member
not_owner members m x workspace user ids found plain row same =
    let there = (find_where-Row (is_membership workspace user) members m found).0 in
    let one : x ≡ m =
      Unique-one same_member_id (has_member_id m.id) members x m ids (λ a b ha hb. ground arith) row
        there same (ground arith) in
    rw one plain

change_role-owners :
    (members after : List WorkspaceMember) (workspace user : ℕ) (role : Role)
    (row : Option WorkspaceMember)
    → Unique same_member_id members
    → is_owner role ≡ false
    → find_member members workspace user ≡ row
    → change_role members role row ≡ some after
    → filter_where owns after ≡ filter_where owns members
change_role-owners members after workspace user role none ids plain found done = cc
change_role-owners members after workspace user role (some m) ids plain found done =
    elim (Bool-cases (is_owner m.role)) [
      | inl e ↦ absurd (let bad : none ≡ some after = rw e at done in cc)
      | inr e ↦
          let eq : some (update_where (has_member_id m.id) (λ x. record x { role = role }) members)
              ≡ some after =
            rw e at done in
          let same : update_where (has_member_id m.id) (λ x. record x { role = role }) members
              ≡ after =
            cc in
          rw (← same) (
            filter_where-update_where owns (has_member_id m.id) (λ x. record x { role = role })
              members
              (λ x row hit. (not_owner members m x workspace user ids found e row hit, plain)))
    ]

-- Where ids are unique, a change of a role leaves the owners of all workspaces exactly as they are.
pub set_member_role-owners :
    (members after : List WorkspaceMember) (workspace user : ℕ) (role : Role)
    → Unique same_member_id members
    → set_member_role members workspace user role ≡ some after
    → filter_where owns after ≡ filter_where owns members
unfolding set_member_role
set_member_role-owners members after workspace user role ids done =
    elim (Bool-cases (is_owner role)) [
      | inl e ↦ absurd (let bad : none ≡ some after = rw e at done in cc)
      | inr e ↦
          change_role-owners members after workspace user role (find_member members workspace user)
            ids e refl (rw e at done)
    ]

abbrev members_of : Option Tenants → List WorkspaceMember
members_of none = []
members_of (some t) = t.members

removed-owners :
    (t after : Tenants) (workspace : ℕ) (user : User) (now : ℕ) (row : Option WorkspaceMember)
    → Unique same_member_id t.members
    → find_member t.members workspace user.id ≡ row
    → removed t workspace user now row ≡ some after
    → filter_where owns after.members ≡ filter_where owns t.members
removed-owners t after workspace user now none ids found done = cc
removed-owners t after workspace user now (some m) ids found done =
    elim (Bool-cases (is_owner m.role)) [
      | inl e ↦ absurd (let bad : none ≡ some after = rw e at done in cc)
      | inr e ↦
          let eq : some (record t {
            members = delete_where (has_member_id m.id) t.members;
            invites =
                update_where (is_standing workspace user.email)
                  (λ x. record x { revoked_at = some now }) t.invites;
          })
              ≡ some after =
            rw e at done in
          let same : delete_where (has_member_id m.id) t.members ≡ after.members =
            ap members_of eq in
          rw (← same) (
            filter_where-delete_where owns (has_member_id m.id) t.members
              (λ x row hit. not_owner t.members m x workspace user.id ids found e row hit))
    ]

-- Where ids are unique, the removal of a member leaves the owners of all workspaces as they are.
pub remove_member-owners :
    (t after : Tenants) (workspace : ℕ) (user : User) (now : ℕ)
    → Unique same_member_id t.members
    → remove_member t workspace user now ≡ some after
    → filter_where owns after.members ≡ filter_where owns t.members
unfolding remove_member
remove_member-owners t after workspace user now ids done =
    removed-owners t after workspace user now (find_member t.members workspace user.id) ids refl
      done
