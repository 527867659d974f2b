-- ===== src/Tenancy/Pending.antt =====
-- claim_pending (tenancy.py): what waited for an address before its account was approved.
pub mod Claimed
pub mod Given
pub mod Sources
pub mod Whole
use soriham_api.Prelude.{
  ℕ, suc, ◌+◌, String, Bool, true, false, ◌&&◌, ◌||◌, Option, none, some, List, [], ◌∷◌, ◌==◌, leb,
  str_eq, opt_str_eq, is_some, is_none, length, if◌then◌else◌,
}
use soriham_api.Table.{find_where, filter_where, update_where, delete_where}
use soriham_api.Models.{User, SharePermission, RecordingShare, Invite}
use soriham_api.Sharing.{is_user_share}
use soriham_api.Tenancy.{Tenants, find_member, join_workspace, count_use, is_over}

abbrev pub is_edit : SharePermission → Bool
is_edit SharePermission.edit = true
is_edit SharePermission.view = false

abbrev pub is_reserved : String → RecordingShare → Bool
is_reserved email s = opt_str_eq s.invite_email email

abbrev pub has_share_id : ℕ → RecordingShare → Bool
has_share_id id s = s.id == id

abbrev pub given_to : ℕ → RecordingShare → RecordingShare
given_to user s = record s { user_id = some user; invite_email = none }

-- of a reserved share and a direct one the higher permission stays
abbrev pub raise : List RecordingShare → RecordingShare → RecordingShare → List RecordingShare
raise shares s direct =
    if is_edit s.permission
    then update_where (has_share_id direct.id) (λ x. record x { permission = SharePermission.edit })
        shares
    else shares

abbrev pub claim_from :
    List RecordingShare → ℕ → RecordingShare → Option RecordingShare → List RecordingShare
claim_from shares user s none = update_where (has_share_id s.id) (given_to user) shares
claim_from shares user s (some direct) = delete_where (has_share_id s.id) (raise shares s direct)

unfoldable pub claim_share : ℕ → List RecordingShare → RecordingShare → List RecordingShare
claim_share user shares s =
    claim_from shares user s (find_where (is_user_share s.recording_id user) shares)

unfoldable pub claim_shares : ℕ → List RecordingShare → List RecordingShare → List RecordingShare
unfolding claim_share
claim_shares user [] shares = shares
claim_shares user (s ∷ waiting) shares = claim_shares user waiting (claim_share user shares s)

abbrev pub is_reserved_invite : String → Invite → Bool
is_reserved_invite email i = opt_str_eq i.email email && is_none i.revoked_at

abbrev pub joined_count : Bool → ℕ
joined_count true = 1
joined_count false = 0

abbrev pub is_usable : ℕ → Invite → Bool
is_usable now i =
    if is_over now i.expires_at then false else if leb i.max_uses i.uses then false else true

-- one invitation of the loop; `key` is the id of a member row that it may add
unfoldable pub claim_invite : Tenants → ℕ → ℕ → Invite → ℕ → Tenants × ℕ
unfolding find_member
claim_invite t key user i now =
    if is_usable now i
    then (let joined = join_workspace t.members key i.workspace_id user i.role in
        (count_use t i joined, joined_count joined.1))
    else (t, 0)

unfoldable pub claim_invites : List Invite → Tenants → ℕ → ℕ → ℕ → Tenants × ℕ
unfolding claim_invite
claim_invites [] t key user now = (t, 0)
claim_invites (i ∷ waiting) t key user now =
    let (t', n) = claim_invite t key user i now in
    let (t'', m) = claim_invites waiting t' (suc key) user now in (t'', n + m)

-- the tables, and how many shares there were and how many workspaces were joined
unfoldable pub claim_pending :
    Tenants → List RecordingShare → ℕ → User → ℕ → Tenants × List RecordingShare × (ℕ × ℕ)
unfolding claim_shares claim_invites
claim_pending t shares key user now =
    let waiting = filter_where (is_reserved user.email) shares in
    let (t', joined) =
      claim_invites (filter_where (is_reserved_invite user.email) t.invites) t key user.id now in
    (t', claim_shares user.id waiting shares, (length waiting, joined))
