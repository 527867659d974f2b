-- ===== src/Tests/Opening.antt =====
-- sharing.py: a share with a user, its revocation, and a link.
use soriham_api.Prelude.{
  ◌≡◌, ◌≢◌, refl, String, true, false, none, some, [], ◌∷◌, str_append, str_eq,
}
use mathlib.Core.Option
use soriham_api.Table.{find_where}
use soriham_api.Models.{User, UserStatus, SharePermission, RecordingShare, ShareLink}
use soriham_api.Sharing.{
  Addresses, Keys, NewLink, valid_email, validate_permission, find_share, share_with_email,
  new_link, create_link, load_link, revoke_link,
}
use soriham_api.Sharing.Shares.{table_of, permission_of, share_with_email-find_share}
use soriham_api.Sharing.Links.{load_link-revoke_link}

abbrev addresses : Addresses
addresses = record { normalize = λ s. s; matches = λ s. str_eq s "kim@x.kr" }

abbrev kim : User
kim = record {
  id = 3;
  email = "kim@x.kr";
  password_hash = "h";
  display_name = "Kim";
  status = UserStatus.active;
  signup_note = none;
  reviewed_by_user_id = none;
  reviewed_at = none;
  is_service_admin = false;
  default_workspace_id = none;
}

abbrev first : RecordingShare
first = record {
  id = 1;
  public_id = 71;
  recording_id = 100;
  user_id = some 3;
  invite_email = none;
  permission = SharePermission.view;
  created_by_user_id = some 1;
}

abbrev second : RecordingShare
second = record first { id = 2; public_id = 72; recording_id = 200 }

abbrev keys : Keys
keys = record { new_id = 9; new_public_id = 79 }

kim_found : find_where (λ u. str_eq u.email "kim@x.kr") (kim ∷ []) ≡ some kim
unfolding find_where
kim_found = refl

edit_is_valid : validate_permission "edit" ≡ some SharePermission.edit
unfolding validate_permission
edit_is_valid = refl

kim_is_valid : valid_email addresses "kim@x.kr" ≡ some "kim@x.kr"
unfolding valid_email
kim_is_valid = refl

share_with_email-find_share_example :
    Option.map permission_of (
      find_share
        (table_of (first ∷ second ∷ []) (
          share_with_email addresses
            (kim ∷ [])
            (first ∷ second ∷ [])
            keys
            100
            "kim@x.kr"
            "edit"
            (some 1)))
        100
        (some kim)
        "kim@x.kr")
    ≡ some SharePermission.edit
share_with_email-find_share_example =
    share_with_email-find_share addresses (kim ∷ []) (first ∷ second ∷ []) keys 100 "kim@x.kr"
      "edit" (some 1) "kim@x.kr" SharePermission.edit (some kim) edit_is_valid kim_is_valid
      kim_found refl

abbrev digest : String → String
digest s = str_append "#" s

abbrev opts : NewLink
opts = record {
  label = "for Lee";
  password_hash = some "ph";
  allow_audio = true;
  allow_speaker_names = false;
  expires_in_days = some 30;
  created_by = some 1;
}

abbrev link : ShareLink
link = new_link (λ s. s) digest keys 100 opts "raw" 1000

link_made : create_link (λ s. s) digest [] keys 100 opts "raw" 1000 ≡ some (link ∷ [])
unfolding create_link
link_made = refl

link_loads : load_link digest (link ∷ []) "raw" 5000 ≡ some link
unfolding load_link find_where new_link
link_loads = refl

load_link-revoke_link_example :
    load_link digest (revoke_link (link ∷ []) link.recording_id link.public_id 6000).0 "raw" 7000
    ≡ none
load_link-revoke_link_example =
    load_link-revoke_link digest (link ∷ []) "raw" link 5000 6000 7000 (tt, tt) link_loads

abbrev constant : String → String
constant s = "d"

constant_digest : (s : String) → constant s ≢ ""
constant_digest s = λ e. cc
