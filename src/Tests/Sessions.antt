-- ===== src/Tests/Sessions.antt =====
-- auth.py: a login, a touch and a logout.
use soriham_api.Prelude.{
  ◌+◌, ◌<◌, ◌≡◌, refl, String, none, some, List, [], ◌∷◌, false, true, str_append,
}
use soriham_api.Table.{find_where, update_where}
use soriham_api.Models.{UserSession}
use soriham_api.Auth.{
  Sessions, new_session, load_session, session_absolute, touch_session, verify_password,
}
use soriham_api.Auth.Expiry.{Op, create, touch, apply, run, load_session-lt_absolute}

-- stands for SHA-256
abbrev digest : String → String
digest raw = str_append "h" raw

abbrev first : UserSession
first = record {
  id = 1;
  user_id = 5;
  token_hash = "hone";
  csrf_token = "c1";
  issued_at = 1000;
  last_seen_at = 1000;
  expires_at = 1210600;
  absolute_expires_at = 7777000;
  revoked_at = none;
  user_agent = none;
  ip = none;
}

abbrev second : UserSession
second = record first { id = 2; user_id = 6; token_hash = "htwo" }

abbrev rows : Sessions
rows = first ∷ second ∷ []

abbrev history : List Op
history = create 1 5 "one" "c1" none none 1000 ∷ touch first 9000 ∷ []

abbrev extended : UserSession
extended = record first { last_seen_at = 9000; expires_at = 1218600 }

load_after_touch : load_session digest (run digest [] history) "one" 1211000 ≡ some extended
unfolding load_session run apply new_session touch_session find_where update_where
load_after_touch = refl

password_of_nobody : verify_password (λ h p. true) "dummy" none "x" ≡ false
unfolding verify_password
password_of_nobody = refl

load_session-lt_absolute_example :
    (1211000 < extended.issued_at + session_absolute) × (1211000 < extended.expires_at)
load_session-lt_absolute_example =
    load_session-lt_absolute digest history "one" 1211000 extended load_after_touch
