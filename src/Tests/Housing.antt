-- ===== src/Tests/Housing.antt =====
-- tenancy.py: an account that waits for approval, with a share and an invitation reserved for it.
use soriham_api.Prelude.{◌≢◌, ◌⊎◌, ◌≡◌, refl, true, false, none, some, [], ◌∷◌, get_or}
use soriham_api.Table.{find_where, All, Row}
use soriham_api.Models.{UserSession, RecordingShare, SharePermission}
use soriham_api.Tenancy.Pending.{claim_pending, is_reserved}
use soriham_api.Tenancy.Pending.Claimed.{HasShareKeys}
use soriham_api.Tenancy.Pending.Given.{Covers}
use soriham_api.Tenancy.Pending.Sources.{Comes}
use soriham_api.Tenancy.Pending.Whole.{HasOneTarget, claim_pending-claimed}
use soriham_api.Tenancy.Accounts.{
  Accounts, Naming, NewIds, Limits, approve, ensure_home, home_slug, unique_slug, validate_slug,
  find_workspace,
}
use soriham_api.Tenancy.Accounts.Homes.{IsHoused, approve-IsHoused}
use soriham_api.Tests.Joining.{lee, outside}

abbrev reserved : RecordingShare
reserved = record {
  id = 1;
  public_id = 71;
  recording_id = 1;
  user_id = none;
  invite_email = some "lee@x.kr";
  permission = SharePermission.edit;
  created_by_user_id = none;
}

abbrev direct : RecordingShare
direct = record reserved {
  id = 2;
  public_id = 72;
  user_id = some 5;
  invite_email = none;
  permission = SharePermission.view;
}

abbrev pub naming : Naming
naming = record {
  addresses = record { normalize = λ s. s; matches = λ s. true };
  local_part = λ s. "lee";
  slugify = λ s. s;
  is_slug = λ s. true;
}

abbrev pub new_ids : NewIds
new_ids = record { user_id = 6; workspace_id = 60; workspace_public_id = 560; member_id = 61 }

abbrev pub no_limits : Limits
no_limits = record { minutes = none; bytes = none }

abbrev session : UserSession
session = record {
  id = 1;
  user_id = 5;
  token_hash = "t";
  csrf_token = "c";
  issued_at = 0;
  last_seen_at = 0;
  expires_at = 5000;
  absolute_expires_at = 9000;
  revoked_at = none;
  user_agent = none;
  ip = none;
}

abbrev pub accounts : Accounts
accounts = record {
  users = lee ∷ [];
  tenants = outside;
  shares = reserved ∷ direct ∷ [];
  recordings = [];
  logs = [];
  sessions = session ∷ [];
}

shares_keyed : HasShareKeys (reserved ∷ direct ∷ [])
shares_keyed = (((λ e. cc, tt), (tt, tt)), ((λ e. cc, tt), (tt, tt)))

one_target : All HasOneTarget (reserved ∷ direct ∷ [])
one_target = (λ e. refl, (λ e. cc, tt))

claim_pending-claimed_example :
    ((s : RecordingShare)
      → Row s (reserved ∷ direct ∷ [])
      → (is_reserved "lee@x.kr" s ≡ true) ⊎ (s.user_id ≡ some 5)
      → Covers 5 s (claim_pending outside (reserved ∷ direct ∷ []) 7 lee 100).1)
    × All
        (Comes "lee@x.kr" 5 (reserved ∷ direct ∷ []))
        (claim_pending outside (reserved ∷ direct ∷ []) 7 lee 100).1
    × ((s : RecordingShare)
        → Row s (reserved ∷ direct ∷ [])
        → is_reserved "lee@x.kr" s ≡ false
        → s.user_id ≢ some 5
        → Row s (claim_pending outside (reserved ∷ direct ∷ []) 7 lee 100).1)
    × All
        (λ x. is_reserved "lee@x.kr" x ≡ false)
        (claim_pending outside (reserved ∷ direct ∷ []) 7 lee 100).1
    × HasShareKeys (claim_pending outside (reserved ∷ direct ∷ []) 7 lee 100).1
claim_pending-claimed_example =
    claim_pending-claimed outside (reserved ∷ direct ∷ []) 7 lee 100 shares_keyed one_target

abbrev approved : Accounts
approved = get_or (approve naming accounts new_ids lee (some 1) no_limits [] 100) accounts

approve-lee : approve naming accounts new_ids lee (some 1) no_limits [] 100 ≡ some approved
unfolding approve ensure_home home_slug unique_slug validate_slug find_workspace find_where
approve-lee = refl

approve-IsHoused_example : IsHoused 5 approved
approve-IsHoused_example =
    approve-IsHoused naming accounts approved new_ids lee (some 1) no_limits [] 100 (λ e. refl, tt)
      approve-lee
