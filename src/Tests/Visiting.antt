-- ===== src/Tests/Visiting.antt =====
-- deps.py: a member asks for a recording, changes it, and is then disabled.
use soriham_api.Prelude.{◌≡◌, ◌≢◌, ◌≤◌, refl, none, some, [], ◌∷◌, get_or}
use soriham_api.Table.{find_where}
use soriham_api.Models.{UserStatus, UserSession, Role}
use soriham_api.Auth.{Sessions, load_session, touch_session}
use soriham_api.Permissions.{
  Perm, value, for_user, has_own_access, role_perm, resolve_recording_perm,
}
use soriham_api.Tenancy.Accounts.{Accounts, set_user_status}
use soriham_api.Deps.{
  Tables, Request, passed, raised, no_recording, current_principal, recording_at, require_user,
  require_csrf,
}
use soriham_api.Deps.Callers.{
  Login, current_principal-recording_at, set_user_status-current_principal, require_csrf-token,
}
use soriham_api.Deps.Secrecy.{recording_at-secrecy}
use soriham_api.Tests.Queue.{served, old}
use soriham_api.Tests.Joining.{lee, digest}
use soriham_api.Tests.Housing.{accounts, naming, new_ids, no_limits}

abbrev login : UserSession
login = record {
  id = 1;
  user_id = 5;
  token_hash = "t";
  csrf_token = "c";
  issued_at = 0;
  last_seen_at = 0;
  expires_at = 5000;
  absolute_expires_at = 9000;
  revoked_at = none;
  user_agent = none;
  ip = none;
}

abbrev sessions : Sessions
sessions = login ∷ []

abbrev tables : Tables
tables = record {
  users = lee ∷ [];
  workspaces = served ∷ [];
  members = record { id = 1; workspace_id = 10; user_id = 5; role = Role.member } ∷ [];
  shares = [];
  recordings = old ∷ [];
}

abbrev change : Request
change = record {
  method = "PATCH";
  cookie = some "t";
  csrf_header = some "c";
  origin = none;
  own_origin = "https://a";
}

handed_over :
    recording_at Perm.edit tables
      (current_principal digest tables sessions (some "t") 1000).0.principal
      701
    ≡ passed old
unfolding recording_at current_principal load_session for_user touch_session find_where
    resolve_recording_perm has_own_access role_perm
handed_over = refl

current_principal-recording_at_example :
    (l : Login digest tables sessions
      (some "t")
      1000
      (current_principal digest tables sessions (some "t") 1000).0)
    × (l.user.status ≡ UserStatus.active)
    × (old.public_id ≡ 701)
    × (value Perm.edit
        ≤ value (resolve_recording_perm tables.members tables.shares (for_user l.user) old))
current_principal-recording_at_example =
    current_principal-recording_at digest Perm.edit tables sessions (some "t") 1000 701 old
      handed_over

allowed :
    require_csrf change (current_principal digest tables sessions (some "t") 1000).0 ≡ passed lee
unfolding require_csrf require_user current_principal load_session for_user touch_session find_where
allowed = refl

require_csrf-token_example :
    (l : Login digest tables sessions
      (some "t")
      1000
      (current_principal digest tables sessions (some "t") 1000).0)
    × (lee ≡ l.user)
    × (some "c" ≡ some l.session.csrf_token)
    × (l.session.csrf_token ≢ "")
require_csrf-token_example = require_csrf-token digest tables sessions 1000 change lee refl allowed

refused_missing : recording_at Perm.view tables (for_user lee) 702 ≡ raised no_recording
unfolding recording_at for_user find_where
refused_missing = refl

refused_gone :
    recording_at Perm.view (record tables { recordings = [] }) (for_user lee) 701
    ≡ raised no_recording
unfolding recording_at for_user find_where
refused_gone = refl

recording_at-secrecy_example : no_recording ≡ no_recording
recording_at-secrecy_example =
    recording_at-secrecy Perm.view tables [] (for_user lee) 702 701 no_recording no_recording
      refused_missing refused_gone

abbrev disabled : Accounts
disabled =
    get_or (set_user_status naming accounts new_ids lee UserStatus.disabled none no_limits [] 2000)
      accounts

disable :
    set_user_status naming accounts new_ids lee UserStatus.disabled none no_limits [] 2000
    ≡ some disabled
unfolding set_user_status
disable = refl

set_user_status-current_principal_example :
    (current_principal digest tables disabled.sessions (some "t") 3000).0.principal.user_id ≢ some 5
set_user_status-current_principal_example =
    set_user_status-current_principal naming accounts disabled new_ids lee UserStatus.disabled none
      no_limits [] 2000 3000 digest tables (some "t") (λ e. cc) disable
