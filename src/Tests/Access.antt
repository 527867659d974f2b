-- ===== src/Tests/Access.antt =====
-- permissions.py on two workspaces, with a member, a viewer, shares and a link.
use soriham_api.Prelude.{◌≤◌, ◌≡◌, ◌⊎◌, refl, true, false, none, some, List, [], ◌∷◌}
use soriham_api.Table.{find_where}
use soriham_api.Models.{
  WorkspaceMember, Role, RecordingShare, SharePermission, Recording, RecordingStatus,
  RecordingSource,
}
use soriham_api.Permissions.{Perm, value, Principal, resolve_recording_perm}
use soriham_api.Permissions.Grants.{Grant, resolve_recording_perm-greatest}
use soriham_api.Permissions.Bounds.{share-no-manage}

abbrev members : List WorkspaceMember
members =
    record { id = 1; workspace_id = 10; user_id = 1; role = Role.member }
    ∷ record { id = 2; workspace_id = 10; user_id = 2; role = Role.viewer }
    ∷ []

abbrev shares : List RecordingShare
shares =
    record {
      id = 1;
      public_id = 71;
      recording_id = 100;
      user_id = some 3;
      invite_email = none;
      permission = SharePermission.edit;
      created_by_user_id = some 1;
    }
    ∷ []

abbrev meeting : Recording
meeting = record {
  id = 100;
  public_id = 70100;
  workspace_id = 10;
  created_by_user_id = none;
  source = RecordingSource.upload;
  path = "/data/w/a.m4a";
  path_current = true;
  file_signature = none;
  filename = "a.m4a";
  size_bytes = 4096;
  partial_hash = "p";
  content_hash = some "cafe";
  recorded_at = some 1000;
  duration_ms = some 60000;
  language = none;
  title = none;
  summary = none;
  status = RecordingStatus.pending;
  error = none;
  stt_meta = none;
  runner_request_id = none;
  runner_started_at = none;
  progress = none;
  stage_started_at = none;
  duplicate_of_id = none;
  updated_at = 2000;
}

-- user 3 has a share and came by a link with audio locked
abbrev guest : Principal
guest = record {
  user_id = some 3;
  is_active = true;
  is_service_admin = false;
  link_recording_id = some 100;
  link_allows_audio = false;
  link_allows_speaker_names = true;
}

abbrev suspended : Principal
suspended = record guest { user_id = some 1; is_active = false }

guest_may_edit : resolve_recording_perm members shares guest meeting ≡ Perm.edit
unfolding resolve_recording_perm find_where
guest_may_edit = refl

resolve_recording_perm-greatest_example :
    ((q : Perm)
      → Grant members shares guest meeting q
      → value q ≤ value (resolve_recording_perm members shares guest meeting))
    × ((resolve_recording_perm members shares guest meeting ≡ Perm.none)
        ⊎ Grant members shares guest meeting (resolve_recording_perm members shares guest meeting))
resolve_recording_perm-greatest_example =
    resolve_recording_perm-greatest members shares guest meeting ((λ e. cc, tt), (tt, tt)) (tt, tt)

share-no-manage_example : value (resolve_recording_perm members shares guest meeting) ≤ 2
unfolding find_where
share-no-manage_example = share-no-manage members shares guest meeting refl refl
