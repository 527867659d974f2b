-- ===== src/Deps.antt =====
-- The dependencies of the routes (deps.py): who is asking, and what is answered before a route runs.
-- Each takes the results of the dependencies that it names, in the order of their declaration.
pub mod Secrecy
pub mod Callers
use soriham_api.Prelude.{
  ℕ, String, Bool, true, false, ◌&&◌, not, Option, none, some, List, [], ◌∷◌, ◌==◌, ltb, leb,
  is_some, is_none, str_eq, str_append, if◌then◌else◌,
}
use soriham_api.Table.{find_where}
use soriham_api.Models.{
  User, UserStatus, Workspace, WorkspaceMember, UserSession, RecordingShare, Recording,
  is_active_status,
}
use soriham_api.Auth.{Sessions, load_session, touch_session}
use soriham_api.Permissions.{
  Perm, value, Principal, anonymous, for_user, resolve_workspace_perm, resolve_recording_perm,
}

pub record Tables : Type 0 where
  pub users : List User
  pub workspaces : List Workspace
  pub members : List WorkspaceMember
  pub shares : List RecordingShare
  pub recordings : List Recording

pub record Request : Type 0 where
  pub method : String
  pub cookie : Option String
  pub csrf_header : Option String
  pub origin : Option String
  -- scheme and address of the server itself
  pub own_origin : String

-- HTTPException
pub record HttpError : Type 0 where
  pub status_code : ℕ
  pub detail : String

pub data Answer {ℓ} (A : Type ℓ) : Type ℓ where
  raised : HttpError → Answer A
  passed : A → Answer A

abbrev pub and_pass {ℓ κ} : {A : Type ℓ} {B : Type κ} → Answer A → (A → Answer B) → Answer B
and_pass (raised e) f = raised e
and_pass (passed a) f = f a

abbrev pub login_required : HttpError
login_required = record { status_code = 401; detail = "로그인이 필요합니다" }

abbrev pub no_recording : HttpError
no_recording = record { status_code = 404; detail = "녹음이 없습니다" }

abbrev pub no_workspace : HttpError
no_workspace = record { status_code = 404; detail = "워크스페이스가 없습니다" }

abbrev pub not_found : HttpError
not_found = record { status_code = 404; detail = "찾을 수 없습니다" }

abbrev pub bad_origin : HttpError
bad_origin = record { status_code = 403; detail = "허용되지 않은 곳에서 온 요청입니다" }

abbrev pub bad_csrf : HttpError
bad_csrf = record { status_code = 403; detail = "요청이 만료됐습니다. 새로고침 후 다시 시도하세요" }

abbrev pub status_message : UserStatus → String
status_message UserStatus.pending = "관리자 승인 대기 중입니다"
status_message UserStatus.rejected = "가입이 거절된 계정입니다"
status_message UserStatus.disabled = "사용이 중지된 계정입니다"
status_message UserStatus.active = "사용할 수 없는 계정입니다"

abbrev pub blocked : UserStatus → HttpError
blocked status = record { status_code = 403; detail = status_message status }

-- the principal, and what current_principal leaves on the request
pub record Caller : Type 0 where
  pub principal : Principal
  pub session_row : Option UserSession
  pub user : Option User

abbrev pub nobody : Caller
nobody = record { principal = anonymous; session_row = none; user = none }

abbrev pub has_id : ℕ → User → Bool
has_id id u = u.id == id

abbrev pub caller_of : Sessions → UserSession → ℕ → Option User → Caller × Sessions
caller_of sessions s now none = (nobody, sessions)
caller_of sessions s now (some u) = (
  record { principal = for_user u; session_row = some s; user = some u },
  (touch_session sessions s now).0,
)

abbrev pub caller_by : Tables → Sessions → ℕ → Option UserSession → Caller × Sessions
caller_by t sessions now none = (nobody, sessions)
caller_by t sessions now (some s) = caller_of sessions s now (find_where (has_id s.user_id) t.users)

-- a cookie without text is no cookie; the sessions are those after touch_session
unfoldable pub current_principal :
    (String → String) → Tables → Sessions → Option String → ℕ → Caller × Sessions
unfolding load_session for_user touch_session
current_principal token_hash t sessions none now = (nobody, sessions)
current_principal token_hash t sessions (some raw) now =
    if str_eq raw ""
    then (nobody, sessions)
    else caller_by t sessions now (load_session token_hash sessions raw now)

abbrev pub is_authenticated : Principal → Bool
is_authenticated p = is_some p.user_id

abbrev pub user_of : Bool → Option User → Answer User
user_of known none = raised login_required
user_of known (some u) = if known then passed u else raised login_required

unfoldable pub require_user : Caller → Answer User
require_user c = user_of (is_authenticated c.principal) c.user

abbrev pub active_user : User → Answer User
active_user u = if is_active_status u.status then passed u else raised (blocked u.status)

unfoldable pub require_active : Caller → Answer User
unfolding require_user
require_active c = and_pass (require_user c) active_user

unfoldable pub require_service_admin : Caller → Answer User
unfolding require_active
require_service_admin c =
    and_pass (require_active c) (λ u. if u.is_service_admin then passed u else raised not_found)

abbrev pub is_listed : List String → String → Bool
is_listed [] s = false
is_listed (x ∷ xs) s = if str_eq x s then true else is_listed xs s

abbrev pub origin_answer : List String → String → Option String → Answer {0} Unit
origin_answer cors own none = passed tt
origin_answer cors own (some origin) =
    if str_eq origin ""
    then passed tt
    else if str_eq origin own
    then passed tt
    else if is_listed cors origin
    then passed tt
    else raised bad_origin

unfoldable pub require_known_origin : List String → Request → Answer {0} Unit
require_known_origin cors_origins r = origin_answer cors_origins r.own_origin r.origin

-- SAFE_METHODS
abbrev pub safe_methods : List String
safe_methods = "GET" ∷ "HEAD" ∷ "OPTIONS" ∷ []

-- a session, and a header that carries its token
abbrev pub carries_token : Option UserSession → Option String → Bool
carries_token none sent = false
carries_token (some s) none = false
carries_token (some s) (some sent) = not (str_eq sent "") && str_eq sent s.csrf_token

unfoldable pub require_csrf : Request → Caller → Answer User
unfolding require_user
require_csrf r c = and_pass (require_user c) (λ u.
    if is_listed safe_methods r.method
    then passed u
    else if carries_token c.session_row r.csrf_header
    then passed u
    else raised bad_csrf)

pub record WorkspaceContext : Type 0 where
  pub workspace : Workspace
  pub perm : Perm

abbrev pub context_of : Tables → Principal → Option Workspace → Answer WorkspaceContext
context_of t p none = raised no_workspace
context_of t p (some w) =
    if ltb (value (resolve_workspace_perm t.members p w.id)) (value Perm.view)
    then raised no_workspace
    else passed (record { workspace = w; perm = resolve_workspace_perm t.members p w.id })

abbrev pub has_public_id : ℕ → Workspace → Bool
has_public_id id w = w.public_id == id

unfoldable pub workspace_ctx : Tables → Caller → ℕ → Answer WorkspaceContext
unfolding require_active resolve_workspace_perm
workspace_ctx t c workspace_id =
    and_pass (require_active c)
      (λ u. context_of t c.principal (find_where (has_public_id workspace_id) t.workspaces))

abbrev pub status_of : Option User → Option UserStatus
status_of none = none
status_of (some u) = some u.status

abbrev pub unless_active : Option UserStatus → Option UserStatus
unless_active none = none
unless_active (some status) = if is_active_status status then none else some status

-- _blocked_status
abbrev pub blocked_status : Tables → Option ℕ → Option UserStatus
blocked_status t none = none
blocked_status t (some id) = unless_active (status_of (find_where (has_id id) t.users))

abbrev pub is_recording : ℕ → Recording → Bool
is_recording public_id r = r.public_id == public_id

abbrev pub recording_for : Perm → Tables → Principal → Option Recording → Answer Recording
recording_for need t p none = raised no_recording
recording_for need t p (some r) =
    if ltb (value (resolve_recording_perm t.members t.shares p r)) (value need)
    then raised no_recording
    else passed r

abbrev pub recording_unless : Perm → Tables → Principal → ℕ → Option UserStatus → Answer Recording
recording_unless need t p public_id (some status) = raised (blocked status)
recording_unless need t p public_id none =
    recording_for need t p (find_where (is_recording public_id) t.recordings)

unfoldable pub recording_at : Perm → Tables → Principal → ℕ → Answer Recording
unfolding resolve_recording_perm
recording_at need t p public_id =
    if is_authenticated p
    then recording_unless need t p public_id (blocked_status t p.user_id)
    else raised login_required
