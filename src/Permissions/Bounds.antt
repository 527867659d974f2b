-- ===== src/Permissions/Bounds.antt =====
-- What a caller cannot reach: sharing gives no MANAGE, a suspended account keeps only its link, and
-- an outsider has nothing on a workspace.
use soriham_api.Prelude.{ℕ, ◌≤◌, ◌≡◌, false, ◌&&◌, none, List, arith}
use soriham_api.Table.{find_where}
use soriham_api.Models.{WorkspaceMember, RecordingShare, Recording}
use soriham_api.Permissions.{
  Perm, value, Principal, is_member_row, resolve_workspace_perm, resolve_recording_perm,
  resolve_own_perm, max_perm, link_perm,
}

module _ (members : List WorkspaceMember) (shares : List RecordingShare) (p : Principal)
    (r : Recording) where
  -- Who is neither an active service administrator nor a member of the recording's workspace has at
  -- most EDIT on it, whatever shares and links there are.
  pub share-no-manage :
      p.is_service_admin && p.is_active ≡ false
      → find_where (is_member_row p r.workspace_id) members ≡ none
      → value (resolve_recording_perm members shares p r) ≤ 2
  unfolding resolve_recording_perm
  share-no-manage admin outsider = ground arith

  -- An account that is not active has VIEW on the recording that its link names and nothing else,
  -- and nothing on any workspace.
  pub inactive-only-link :
      (w : ℕ)
      → p.is_active ≡ false
      → (resolve_recording_perm members shares p r ≡ link_perm p r)
        × (resolve_workspace_perm members p w ≡ Perm.none)
  unfolding resolve_recording_perm resolve_workspace_perm
  inactive-only-link w h = ground arith

  -- The permission on a recording is the greater of what the caller has by itself and what the link
  -- gives; the link never lowers it.
  pub resolve_recording_perm-own :
      value (resolve_recording_perm members shares p r)
      ≡ value (max_perm (resolve_own_perm members shares p r) (link_perm p r))
  unfolding resolve_recording_perm resolve_own_perm
  resolve_recording_perm-own = ground arith

  -- The permission on a recording is never less than the one on its workspace.
  pub workspace-le-recording :
      value (resolve_workspace_perm members p r.workspace_id)
      ≤ value (resolve_recording_perm members shares p r)
  unfolding resolve_recording_perm resolve_workspace_perm
  workspace-le-recording = ground arith
