-- ===== src/Permissions.antt =====
-- permissions.py: who may do what. A permission is resolved from the tables of members and shares;
-- the warnings that the code logs are not modelled.
pub mod Grants
pub mod Bounds
pub mod Links
use soriham_api.Prelude.{
  ℕ, ◌≤◌, Bool, true, false, ◌&&◌, Option, some, List, ◌==◌, leb, opt_eq, sql_eq, is_some,
  if◌then◌else◌,
}
use soriham_api.Table.{find_where}
use soriham_api.Models.{
  User, Role, WorkspaceMember, SharePermission, RecordingShare, Recording, is_active_status,
}

pub data Perm : Type 0 where
  none view edit manage admin : Perm

-- the number behind the IntEnum
abbrev pub value : Perm → ℕ
value Perm.none = 0
value Perm.view = 1
value Perm.edit = 2
value Perm.manage = 3
value Perm.admin = 4

-- `max(a, b)`: the first of two equal values
abbrev pub max_perm : Perm → Perm → Perm
max_perm a b = if leb (value b) (value a) then a else b

-- ROLE_PERMS
unfoldable pub role_perm : Role → Perm
role_perm Role.owner = Perm.admin
role_perm Role.admin = Perm.admin
role_perm Role.member = Perm.manage
role_perm Role.viewer = Perm.view

-- SHARE_PERMS
unfoldable pub share_perm : SharePermission → Perm
share_perm SharePermission.view = Perm.view
share_perm SharePermission.edit = Perm.edit

pub record Principal : Type 0 where
  pub user_id : Option ℕ
  pub is_active : Bool
  pub is_service_admin : Bool
  pub link_recording_id : Option ℕ
  pub link_allows_audio : Bool
  pub link_allows_speaker_names : Bool

abbrev pub anonymous : Principal
anonymous = record {
  user_id = Option.none;
  is_active = false;
  is_service_admin = false;
  link_recording_id = Option.none;
  link_allows_audio = false;
  link_allows_speaker_names = false;
}

unfoldable pub for_user : User → Principal
for_user u = record {
  user_id = some u.id;
  is_active = is_active_status u.status;
  is_service_admin = u.is_service_admin;
  link_recording_id = Option.none;
  link_allows_audio = false;
  link_allows_speaker_names = false;
}

unfoldable pub has_own_access : Principal → Bool
has_own_access p = is_some p.user_id && p.is_active

-- WorkspaceMember.workspace_id == w, WorkspaceMember.user_id == principal.user_id
abbrev pub is_member_row : Principal → ℕ → WorkspaceMember → Bool
is_member_row p w m = m.workspace_id == w && opt_eq p.user_id m.user_id

abbrev pub member_role_perm : Option WorkspaceMember → Perm
member_role_perm Option.none = Perm.none
member_role_perm (some m) = role_perm m.role

unfoldable pub resolve_workspace_perm : List WorkspaceMember → Principal → ℕ → Perm
unfolding has_own_access role_perm
resolve_workspace_perm members p w =
    if has_own_access p
    then (if p.is_service_admin
        then Perm.admin
        else member_role_perm (find_where (is_member_row p w) members))
    else Perm.none

-- RecordingShare.recording_id == r, RecordingShare.user_id == principal.user_id
abbrev pub is_share_row : Principal → ℕ → RecordingShare → Bool
is_share_row p r s = s.recording_id == r && sql_eq s.user_id p.user_id

abbrev pub share_row_perm : Option RecordingShare → Perm
share_row_perm Option.none = Perm.none
share_row_perm (some s) = share_perm s.permission

-- what the link gives: VIEW on the recording that it names
abbrev pub link_perm : Principal → Recording → Perm
link_perm p r = if opt_eq p.link_recording_id r.id then Perm.view else Perm.none

unfoldable pub resolve_recording_perm :
    List WorkspaceMember → List RecordingShare → Principal → Recording → Perm
unfolding has_own_access role_perm share_perm
resolve_recording_perm members shares p r =
    if p.is_service_admin && p.is_active
    then Perm.admin
    else (let best = link_perm p r in
        if has_own_access p
        then (let member = find_where (is_member_row p r.workspace_id) members in
            let best_role = max_perm best (member_role_perm member) in
            let shared = find_where (is_share_row p r.id) shares in
            max_perm best_role (share_row_perm shared))
        else best)

unfoldable pub resolve_own_perm :
    List WorkspaceMember → List RecordingShare → Principal → Recording → Perm
unfolding resolve_recording_perm
resolve_own_perm members shares p r =
    resolve_recording_perm members shares (record p { link_recording_id = Option.none }) r

unfoldable pub can_play_audio : Principal → Perm → Bool
can_play_audio p own =
    if leb (value Perm.view) (value own)
    then true
    else if is_some p.link_recording_id
    then p.link_allows_audio
    else false

unfoldable pub can_see_speaker_names : Principal → Perm → Bool
can_see_speaker_names p own =
    if leb (value Perm.view) (value own)
    then true
    else if is_some p.link_recording_id
    then p.link_allows_speaker_names
    else false
