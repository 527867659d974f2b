-- ===== src/Tests/Joining.antt =====
-- tenancy.py: an invitation is used once, and another one is lost with the membership.
use soriham_api.Prelude.{
  ◌+◌, ◌≡◌, ◌<◌, refl, String, false, none, some, [], ◌∷◌, is_some, if◌then◌else◌,
}
use soriham_api.Table.{find_where, update_where, delete_where}
use soriham_api.Models.{User, UserStatus, Workspace, WorkspaceKind, Role, Invite}
use soriham_api.Tenancy.{
  Tenants, find_member, live_invite, peek_invite, accept_invite, remove_member, has_digest,
}
use soriham_api.Tenancy.Invitations.{accept_invite-uses, remove_member-accept_invite}

abbrev pub lee : User
lee = record {
  id = 5;
  email = "lee@x.kr";
  password_hash = "h";
  display_name = "Lee";
  status = UserStatus.active;
  signup_note = none;
  reviewed_by_user_id = none;
  reviewed_at = none;
  is_service_admin = false;
  default_workspace_id = none;
}

abbrev team : Workspace
team = record {
  id = 10;
  public_id = 501;
  slug = "team";
  name = "Team";
  kind = WorkspaceKind.team;
  last_claimed_at = none;
  quota_minutes = none;
  quota_bytes = none;
}

abbrev for_lee : Invite
for_lee = record {
  id = 1;
  public_id = 91;
  token_hash = "t";
  email = some "lee@x.kr";
  workspace_id = 10;
  role = Role.member;
  created_by_user_id = none;
  expires_at = some 9000;
  max_uses = 2;
  uses = 0;
  revoked_at = none;
}

abbrev pub digest : String → String
digest s = s

abbrev pub outside : Tenants
outside = record { workspaces = team ∷ []; members = []; invites = for_lee ∷ [] }

abbrev inside : Tenants
inside = record outside {
  members = record { id = 7; workspace_id = 10; user_id = 5; role = Role.member } ∷ [];
  invites = record for_lee { uses = 1 } ∷ [];
}

lee_joins : accept_invite digest outside 7 "t" lee 1000 ≡ some (inside, team)
unfolding accept_invite peek_invite live_invite find_member find_where update_where
lee_joins = refl

lee_is_invited : find_where (has_digest "t") (for_lee ∷ []) ≡ some for_lee
unfolding find_where
lee_is_invited = refl

accept_invite-uses_example :
    (0 < 2)
    × (find_where (has_digest "t") inside.invites
        ≡ some (if is_some (find_member [] 10 5) then for_lee else record for_lee { uses = 0 + 1 }))
accept_invite-uses_example =
    accept_invite-uses digest outside inside team 7 lee "t" for_lee 1000 lee_joins lee_is_invited

abbrev without_lee : Tenants
without_lee = record inside {
  members = [];
  invites = record for_lee { uses = 1; revoked_at = some 2000 } ∷ [];
}

lee_leaves : remove_member inside 10 lee 2000 ≡ some without_lee
unfolding remove_member find_member find_where update_where delete_where
lee_leaves = refl

lee_was_invited : find_where (has_digest "t") inside.invites ≡ some (record for_lee { uses = 1 })
unfolding find_where
lee_was_invited = refl

remove_member-accept_invite_example : accept_invite digest without_lee 8 "t" lee 3000 ≡ none
remove_member-accept_invite_example =
    remove_member-accept_invite digest inside without_lee 10 8 lee "t" (record for_lee { uses = 1 })
      2000 3000 lee_leaves lee_was_invited refl refl
