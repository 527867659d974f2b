-- ===== src/Sharing.antt =====
-- sharing.py: shares of a recording with a person or an address, and share links. Lower-casing and
-- the regular expression of an address, and the digest of a token, are arguments. The tables are in
-- the order of their ids.
pub mod Shares
pub mod Links
use soriham_api.Prelude.{
  ℕ, ◌+◌, ◌*◌, String, Bool, true, false, ◌&&◌, ◌||◌, not, Option, none, some, List, [], ◌∷◌, ◌++◌,
  ◌==◌, leb, ltb, str_eq, opt_eq, opt_str_eq, is_some, is_none, or_text, if◌then◌else◌,
}
use soriham_api.Table.{find_where, filter_where, update_where, delete_where, count_where}
use soriham_api.Models.{User, Recording, SharePermission, RecordingShare, ShareLink}

-- LINK_MAX_DAYS
abbrev pub link_max_days : ℕ
link_max_days = 3650

-- `normalize` is strip and lower, `matches` the regular expression
pub record Addresses : Type 0 where
  pub normalize : String → String
  pub matches : String → Bool

unfoldable pub valid_email : Addresses → String → Option String
valid_email a raw = if a.matches (a.normalize raw) then some (a.normalize raw) else none

unfoldable pub validate_permission : String → Option SharePermission
validate_permission p =
    if str_eq p "view"
    then some SharePermission.view
    else if str_eq p "edit"
    then some SharePermission.edit
    else none

pub data ShareError : Type 0 where
  bad_permission bad_address own_share : ShareError

-- the table afterwards and the row, or a refusal
pub data Shared : Type 0 where
  refused : ShareError → Shared
  shared : List RecordingShare → RecordingShare → Shared

abbrev pub is_user_share : ℕ → ℕ → RecordingShare → Bool
is_user_share recording user s = s.recording_id == recording && opt_eq s.user_id user

abbrev pub is_address_share : ℕ → String → RecordingShare → Bool
is_address_share recording email s = s.recording_id == recording && opt_str_eq s.invite_email email

abbrev pub goes_to : ℕ → Option User → String → RecordingShare → Bool
goes_to recording none email s = is_address_share recording email s
goes_to recording (some u) email s = is_user_share recording u.id s

-- _find_share
unfoldable pub find_share : List RecordingShare → ℕ → Option User → String → Option RecordingShare
find_share shares recording user email = find_where (goes_to recording user email) shares

abbrev pub user_id_of : Option User → Option ℕ
user_id_of none = none
user_id_of (some u) = some u.id

-- the keys that the database gives a new row
pub record Keys : Type 0 where
  pub new_id : ℕ
  pub new_public_id : ℕ

unfoldable pub new_share :
    Keys → ℕ → Option User → String → SharePermission → Option ℕ → RecordingShare
new_share k recording target email permission created_by = record {
  id = k.new_id;
  public_id = k.new_public_id;
  recording_id = recording;
  user_id = user_id_of target;
  invite_email = if is_some (user_id_of target) then none else some email;
  permission = permission;
  created_by_user_id = created_by;
}

-- an existing share gets the new permission, no second row
abbrev pub put_share : List RecordingShare → RecordingShare → Option RecordingShare → Shared
put_share shares new none = shared (shares ++ new ∷ []) new
put_share shares new (some old) =
    shared
      (update_where (λ s. s.id == old.id) (λ s. record s { permission = new.permission }) shares)
      (record old { permission = new.permission })

abbrev pub is_self : Option User → Option ℕ → Bool
is_self none created_by = false
is_self (some u) created_by = opt_eq created_by u.id

abbrev pub share_to :
    List RecordingShare → Keys → ℕ → Option User → String → SharePermission → Option ℕ → Shared
share_to shares k recording target email permission created_by =
    if is_self target created_by
    then refused own_share
    else put_share shares (new_share k recording target email permission created_by)
        (find_share shares recording target email)

abbrev pub with_email :
    List User → List RecordingShare → Keys → ℕ → SharePermission → Option ℕ → Option String → Shared
with_email users shares k recording permission created_by none = refused bad_address
with_email users shares k recording permission created_by (some email) =
    share_to shares k recording (find_where (λ u. str_eq u.email email) users) email permission
      created_by

abbrev pub with_permission :
    Addresses
    → List User
    → List RecordingShare
    → Keys
    → ℕ
    → String
    → Option ℕ
    → Option SharePermission
    → Shared
with_permission a users shares k recording email created_by none = refused bad_permission
with_permission a users shares k recording email created_by (some p) =
    with_email users shares k recording p created_by (valid_email a email)

unfoldable pub share_with_email :
    Addresses → List User → List RecordingShare → Keys → ℕ → String → String → Option ℕ → Shared
unfolding valid_email validate_permission find_share new_share
share_with_email a users shares k recording email permission created_by =
    with_permission a users shares k recording email created_by (validate_permission permission)

abbrev pub is_share_of : ℕ → ℕ → RecordingShare → Bool
is_share_of recording public_id s = s.recording_id == recording && s.public_id == public_id

abbrev pub without_share : List RecordingShare → Option RecordingShare → List RecordingShare × Bool
without_share shares none = (shares, false)
without_share shares (some s) = (delete_where (λ x. x.id == s.id) shares, true)

unfoldable pub revoke_share : List RecordingShare → ℕ → ℕ → List RecordingShare × Bool
revoke_share shares recording public_id =
    without_share shares (find_where (is_share_of recording public_id) shares)

pub record NewLink : Type 0 where
  pub label : String
  pub password_hash : Option String
  pub allow_audio : Bool
  pub allow_speaker_names : Bool
  pub expires_in_days : Option ℕ
  pub created_by : Option ℕ

-- `strip` of a label; the empty text becomes NULL
abbrev pub label_of : (String → String) → String → Option String
label_of strip label = if str_eq (strip label) "" then none else some (strip label)

abbrev pub expiry_of : ℕ → Option ℕ → Option ℕ
expiry_of now none = none
expiry_of now (some days) = some (now + 86400 * days)

abbrev pub days_allowed : Option ℕ → Bool
days_allowed none = true
days_allowed (some days) = leb 1 days && leb days link_max_days

unfoldable pub new_link :
    (String → String) → (String → String) → Keys → ℕ → NewLink → String → ℕ → ShareLink
new_link strip token_hash k recording opts raw now = record {
  id = k.new_id;
  public_id = k.new_public_id;
  recording_id = recording;
  token_hash = token_hash raw;
  label = label_of strip opts.label;
  password_hash = opts.password_hash;
  allow_audio = opts.allow_audio;
  allow_speaker_names = opts.allow_speaker_names;
  expires_at = expiry_of now opts.expires_in_days;
  revoked_at = none;
  view_count = 0;
  last_viewed_at = none;
  created_by_user_id = opts.created_by;
}

-- `none` is ShareInvalid
unfoldable pub create_link :
    (String → String)
    → (String → String)
    → List ShareLink
    → Keys
    → ℕ
    → NewLink
    → String
    → ℕ
    → Option (List ShareLink)
unfolding new_link
create_link strip token_hash links k recording opts raw now =
    if days_allowed opts.expires_in_days
    then some (links ++ new_link strip token_hash k recording opts raw now ∷ [])
    else none

abbrev pub is_live_link_of : ℕ → ShareLink → Bool
is_live_link_of recording l = l.recording_id == recording && is_none l.revoked_at

unfoldable pub list_links : List ShareLink → ℕ → List ShareLink
list_links links recording = filter_where (is_live_link_of recording) links

abbrev pub is_link_of : ℕ → ℕ → ShareLink → Bool
is_link_of recording public_id l =
    l.recording_id == recording && l.public_id == public_id && is_none l.revoked_at

abbrev pub stamp_revoked : List ShareLink → ℕ → Option ShareLink → List ShareLink × Bool
stamp_revoked links now none = (links, false)
stamp_revoked links now (some l) =
    (update_where (λ x. x.id == l.id) (λ x. record x { revoked_at = some now }) links, true)

unfoldable pub revoke_link : List ShareLink → ℕ → ℕ → ℕ → List ShareLink × Bool
revoke_link links recording public_id now =
    stamp_revoked links now (find_where (is_link_of recording public_id) links)

abbrev pub is_past : ℕ → Option ℕ → Bool
is_past now none = false
is_past now (some t) = leb t now

-- what `load_link` makes of the row under the token
abbrev pub live_link : ℕ → Option ShareLink → Option ShareLink
live_link now none = none
live_link now (some l) = if is_some l.revoked_at || is_past now l.expires_at then none else some l

abbrev pub has_token : String → ShareLink → Bool
has_token h l = str_eq l.token_hash h

-- `none` is LinkInvalid
unfoldable pub load_link : (String → String) → List ShareLink → String → ℕ → Option ShareLink
load_link token_hash links raw now = live_link now (find_where (has_token (token_hash raw)) links)

-- `none` is ShareInvalid: the link has no password
unfoldable pub unlock_value : (String → String) → ShareLink → Option String
unlock_value token_hash l = elim l.password_hash [ none ↦ none | some h ↦ some (token_hash h) ]

abbrev pub cookie_fits : Option String → Option String → Bool
cookie_fits none value = false
cookie_fits (some c) value = if str_eq c "" then false else opt_str_eq value c

unfoldable pub is_unlocked : (String → String) → ShareLink → Option String → Bool
unfolding unlock_value
is_unlocked token_hash l cookie =
    if is_none l.password_hash then true else cookie_fits cookie (unlock_value token_hash l)

unfoldable pub record_view : List ShareLink → ShareLink → ℕ → List ShareLink
record_view links l now =
    update_where (λ x. x.id == l.id)
      (λ x. record x { view_count = x.view_count + 1; last_viewed_at = some now }) links

pub record ShareCounts : Type 0 where
  pub user_count : ℕ
  pub link_count : ℕ

unfoldable pub share_counts : List RecordingShare → List ShareLink → ℕ → ShareCounts
share_counts shares links recording = record {
  user_count = count_where (λ s. s.recording_id == recording) shares;
  link_count = count_where (is_live_link_of recording) links;
}
