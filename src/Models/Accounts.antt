-- ===== src/Models/Accounts.antt =====
-- Users, workspaces, members and login sessions (models.py).
use soriham_api.Prelude.{ℕ, Bool, true, false, Option, String}

pub data UserStatus : Type 0 where
  pending active rejected disabled : UserStatus

pub data WorkspaceKind : Type 0 where
  personal team : WorkspaceKind

pub data Role : Type 0 where
  owner admin member viewer : Role

pub record User : Type 0 where
  pub id : ℕ
  pub email : String
  pub password_hash : String
  pub display_name : String
  pub status : UserStatus
  pub signup_note : Option String
  pub reviewed_by_user_id : Option ℕ
  pub reviewed_at : Option ℕ
  pub is_service_admin : Bool
  pub default_workspace_id : Option ℕ

pub record Workspace : Type 0 where
  pub id : ℕ
  pub public_id : ℕ
  pub slug : String
  pub name : String
  pub kind : WorkspaceKind
  pub last_claimed_at : Option ℕ
  pub quota_minutes : Option ℕ
  pub quota_bytes : Option ℕ

pub record WorkspaceMember : Type 0 where
  pub id : ℕ
  pub workspace_id : ℕ
  pub user_id : ℕ
  pub role : Role

pub record UserSession : Type 0 where
  pub id : ℕ
  pub user_id : ℕ
  pub token_hash : String
  pub csrf_token : String
  pub issued_at : ℕ
  pub last_seen_at : ℕ
  pub expires_at : ℕ
  pub absolute_expires_at : ℕ
  pub revoked_at : Option ℕ
  pub user_agent : Option String
  pub ip : Option String

-- `user.status == "active"`
abbrev pub is_active_status : UserStatus → Bool
is_active_status active = true
is_active_status other = false
