-- ===== src/Models/Access.antt =====
-- Invitations, shares, share links and counted login attempts (models.py).
use soriham_api.Prelude.{ℕ, Bool, Option, String}
use soriham_api.Models.Accounts.{Role}

pub data SharePermission : Type 0 where
  view edit : SharePermission

pub record Invite : Type 0 where
  pub id : ℕ
  pub public_id : ℕ
  pub token_hash : String
  pub email : Option String
  pub workspace_id : ℕ
  pub role : Role
  pub created_by_user_id : Option ℕ
  pub expires_at : Option ℕ
  pub max_uses : ℕ
  pub uses : ℕ
  pub revoked_at : Option ℕ

pub record RecordingShare : Type 0 where
  pub id : ℕ
  pub public_id : ℕ
  pub recording_id : ℕ
  pub user_id : Option ℕ
  pub invite_email : Option String
  pub permission : SharePermission
  pub created_by_user_id : Option ℕ

pub record ShareLink : Type 0 where
  pub id : ℕ
  pub public_id : ℕ
  pub recording_id : ℕ
  pub token_hash : String
  pub label : Option String
  pub password_hash : Option String
  pub allow_audio : Bool
  pub allow_speaker_names : Bool
  pub expires_at : Option ℕ
  pub revoked_at : Option ℕ
  pub view_count : ℕ
  pub last_viewed_at : Option ℕ
  pub created_by_user_id : Option ℕ

pub record AuthAttempt : Type 0 where
  pub key : String
  pub window_start : ℕ
  pub count : ℕ
