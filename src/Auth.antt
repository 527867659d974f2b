-- ===== src/Auth.antt =====
-- auth.py: login sessions. The SHA-256 digest of a token and the random tokens are arguments, and
-- so are argon2's answers in `verify_password`. Instants are whole seconds.
pub mod Expiry
pub mod Revoking
use soriham_api.Prelude.{
  ℕ, zero, suc, ◌+◌, ◌*◌, String, Bool, true, false, ◌&&◌, ◌||◌, not, Option, none, some, List, [],
  ◌∷◌, ◌++◌, ◌==◌, ltb, leb, min, is_some, is_none, opt_eq, str_eq, if◌then◌else◌,
}
use soriham_api.Table.{find_where, update_where, delete_where, count_where}
use soriham_api.Models.{User, UserSession}

abbrev pub day : ℕ
day = 86400

abbrev pub session_idle : ℕ
session_idle = 14 * day

abbrev pub session_absolute : ℕ
session_absolute = 90 * day

abbrev pub session_touch_interval : ℕ
session_touch_interval = 3600

abbrev pub session_keep_after : ℕ
session_keep_after = 7 * day

abbrev pub Sessions : Type 0
Sessions = List UserSession

-- `hasher.verify` is argon2's check; `dummy` stands for an account that does not exist
unfoldable pub verify_password : (String → String → Bool) → String → Option String → String → Bool
verify_password verify dummy stored password = elim stored [
  | none ↦ (if verify dummy password then false else false)
  | some h ↦ verify h password
]

-- create_session: the issued row; its id is the next key of the table
unfoldable pub new_session :
    (String → String) → ℕ → ℕ → String → String → Option String → Option String → ℕ → UserSession
new_session token_hash id user_id raw csrf user_agent ip now = record {
  id = id;
  user_id = user_id;
  token_hash = token_hash raw;
  csrf_token = csrf;
  issued_at = now;
  last_seen_at = now;
  expires_at = min (now + session_idle) (now + session_absolute);
  absolute_expires_at = now + session_absolute;
  revoked_at = none;
  user_agent = user_agent;
  ip = ip;
}

abbrev pub has_hash : String → UserSession → Bool
has_hash h s = str_eq s.token_hash h

-- revoked, idle too long, or past the absolute limit
abbrev pub is_dead : ℕ → UserSession → Bool
is_dead now s = is_some s.revoked_at || leb s.expires_at now || leb s.absolute_expires_at now

abbrev pub alive : ℕ → Option UserSession → Option UserSession
alive now none = none
alive now (some s) =
    if is_some s.revoked_at
    then none
    else if leb s.expires_at now || leb s.absolute_expires_at now
    then none
    else some s

unfoldable pub load_session : (String → String) → Sessions → String → ℕ → Option UserSession
load_session token_hash rows raw now = alive now (find_where (has_hash (token_hash raw)) rows)

-- the row that `touch_session` leaves
unfoldable pub touched : ℕ → UserSession → UserSession
touched now s = if ltb now (s.last_seen_at + session_touch_interval) then s else record s {
  last_seen_at = now;
  expires_at = min (now + session_idle) s.absolute_expires_at;
}

unfoldable pub touch_session : Sessions → UserSession → ℕ → Sessions × Bool
unfolding touched
touch_session rows s now = (
  update_where (λ r. r.id == s.id) (touched now) rows,
  not (ltb now (s.last_seen_at + session_touch_interval)),
)

unfoldable pub revoke_session : Sessions → UserSession → ℕ → Sessions
revoke_session rows s now =
    update_where (λ r. r.id == s.id) (λ r. record r { revoked_at = some now }) rows

-- `keep` is the id of the session to keep
abbrev pub is_other : ℕ → Option ℕ → UserSession → Bool
is_other user_id keep s = s.user_id == user_id && is_none s.revoked_at && not (opt_eq keep s.id)

unfoldable pub revoke_other_sessions : Sessions → ℕ → Option ℕ → ℕ → Sessions × ℕ
revoke_other_sessions rows user_id keep now = (
  update_where (is_other user_id keep) (λ r. record r { revoked_at = some now }) rows,
  count_where (is_other user_id keep) rows,
)

-- revoked_at < cutoff, where NULL compares as false
abbrev pub revoked_before : Option ℕ → ℕ → Bool
revoked_before none now = false
revoked_before (some t) now = ltb (t + session_keep_after) now

abbrev pub is_swept : ℕ → UserSession → Bool
is_swept now s =
    ltb (s.absolute_expires_at + session_keep_after) now
    || ltb (s.expires_at + session_keep_after) now
    || revoked_before s.revoked_at now

unfoldable pub sweep_sessions : Sessions → ℕ → Sessions × ℕ
sweep_sessions rows now = (delete_where (is_swept now) rows, count_where (is_swept now) rows)
