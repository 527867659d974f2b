-- ===== src/Tenancy/Invitations.antt =====
-- An invitation counts each newcomer once and never too many, and does not outlive the membership of
-- the person it was addressed to.
use soriham_api.Prelude.{
  ℕ, ◌+◌, ◌≡◌, ◌<◌, refl, ap, sym, String, true, ◌==◌, Option, none, some, List, Option-cases,
  Bool-cases, inl, inr, arith, opt_str_eq, is_some, if◌then◌else◌, str_eq_refl,
}
use soriham_api.Table.{find_where, update_where}
use soriham_api.Table.Find.{find_where-update_where}
use soriham_api.Models.{User, Workspace, WorkspaceMember, Invite}
use soriham_api.Tenancy.{
  Tenants, find_member, live, live_invite, peek_invite, accept_invite, accept_peeked,
  into_workspace, count_use, join_workspace, addressed, is_spent, remove_member, removed,
  is_standing, has_digest, is_owner, is_for,
}

removed-invites :
    (t after : Tenants) (workspace : ℕ) (user : User) (now : ℕ) (row : Option WorkspaceMember)
    → removed t workspace user now row ≡ some after
    → after.invites
      ≡ update_where
          (is_standing workspace user.email)
          (λ x. record x { revoked_at = some now })
          t.invites
removed-invites t after workspace user now none h = cc
removed-invites t after workspace user now (some m) h = elim (Bool-cases (is_owner m.role)) [
  | inl e ↦ let bad : none ≡ some after = rw e at h in cc
  | inr e ↦ sym (ap invites_of (rw e at h))
]
  where
    invites_of : Option Tenants → List Invite
    invites_of none = t.invites
    invites_of (some x) = x.invites

revoked_row : ℕ → String → ℕ → Invite → Invite
revoked_row workspace email now i =
    if is_standing workspace email i then record i { revoked_at = some now } else i

revoked_row-dead :
    (workspace now : ℕ) (email : String) (i : Invite)
    → i.workspace_id ≡ workspace
    → i.email ≡ some email
    → is_some (revoked_row workspace email now i).revoked_at ≡ true
unfolding revoked_row
revoked_row-dead workspace now email i hw he = elim (Bool-cases (is_standing workspace email i)) [
  | inl e ↦ rw e refl
  | inr e ↦
      let same : opt_str_eq i.email email ≡ true = rw he (str_eq_refl email) in rw e (ground arith)
]

live-dead : (now : ℕ) (i : Invite) → is_some i.revoked_at ≡ true → live now (some i) ≡ none
live-dead now i e = rw e refl

-- Once a member is removed, no invitation into that workspace that names the member's address is
-- accepted any more under its token.
pub remove_member-accept_invite :
    (hash : String → String) (t after : Tenants) (workspace key : ℕ) (user : User) (raw : String)
    (i : Invite) (now later : ℕ)
    → remove_member t workspace user now ≡ some after
    → find_where (has_digest (hash raw)) t.invites ≡ some i
    → i.workspace_id ≡ workspace
    → i.email ≡ some user.email
    → accept_invite hash after key raw user later ≡ none
unfolding remove_member accept_invite peek_invite live_invite revoked_row
remove_member-accept_invite hash t after workspace key user raw i now later done found hw he =
    rw (removed-invites t after workspace user now (find_member t.members workspace user.id) done) (
      rw
        (find_where-update_where (has_digest (hash raw)) (is_standing workspace user.email)
          (λ x. record x { revoked_at = some now }) t.invites (λ x. refl))
        (rw found (
          rw
            (live-dead later (revoked_row workspace user.email now i)
              (revoked_row-dead workspace now user.email i hw he))
            refl)))

peeked-some :
    (email : String) (now : ℕ) (i j : Invite)
    → addressed email (live now (some i)) ≡ some j
    → (i ≡ j) × (i.uses < i.max_uses)
peeked-some email now i j h = elim (Bool-cases (is_spent now i)) [
  | inl e ↦ let bad : none ≡ some j = rw e at h in cc
  | inr e ↦
      let lives : addressed email (some i) ≡ some j = rw e at h in
      elim (Bool-cases (is_for i.email email)) [
        | inl f ↦
            let same : some i ≡ some j = rw f at lives in let eq : i ≡ j = cc in (eq, ground arith)
        | inr f ↦ let bad : none ≡ some j = rw f at lives in cc
      ]
]

-- what the joining makes of the invitation
count_use-find :
    (t : Tenants) (h : String) (key : ℕ) (user : User) (i : Invite)
    → find_where (has_digest h) t.invites ≡ some i
    → find_where
        (has_digest h)
        (count_use t i (join_workspace t.members key i.workspace_id user.id i.role)).invites
      ≡ some (
          if is_some (find_member t.members i.workspace_id user.id)
          then i
          else record i { uses = i.uses + 1 })
count_use-find t h key user i found =
    elim (Bool-cases (is_some (find_member t.members i.workspace_id user.id))) [
      | inl e ↦ rw e found
      | inr e ↦ rw e (
          rw
            (find_where-update_where (has_digest h) (λ x. x.id == i.id)
              (λ x. record x { uses = i.uses + 1 }) t.invites (λ x. refl))
            (rw found (ground arith)))
    ]

into_workspace-some :
    (t after : Tenants) (w : Workspace) (key : ℕ) (user : User) (i : Invite)
    (row : Option Workspace)
    → into_workspace t key user i row ≡ some (after, w)
    → count_use t i (join_workspace t.members key i.workspace_id user.id i.role) ≡ after
into_workspace-some t after w key user i none h = cc
into_workspace-some t after w key user i (some v) h = ap tenants_of h
  where
    tenants_of : Option (Tenants × Workspace) → Tenants
    tenants_of none = t
    tenants_of (some x) = x.0

accept_peeked-some :
    (t after : Tenants) (w : Workspace) (key : ℕ) (user : User) (email h : String) (i : Invite)
    (now : ℕ)
    → accept_peeked t key user (addressed email (live now (some i))) ≡ some (after, w)
    → find_where (has_digest h) t.invites ≡ some i
    → (i.uses < i.max_uses)
      × (find_where (has_digest h) after.invites
          ≡ some (
              if is_some (find_member t.members i.workspace_id user.id)
              then i
              else record i { uses = i.uses + 1 }))
accept_peeked-some t after w key user email h i now done found =
    elim (Option-cases (addressed email (live now (some i)))) [
      | inl e ↦ let bad : accept_peeked t key user none ≡ some (after, w) = rw e at done in cc
      | inr (j, e) ↦
          let peeked = peeked-some email now i j e in
          let joined : into_workspace t key user i
                (find_where (λ x. x.id == i.workspace_id) t.workspaces)
              ≡ some (after, w) =
            rw (e, ← peeked.0) at done in
          (
            peeked.1,
            rw
                (← into_workspace-some t after w key user i
                  (find_where (λ x. x.id == i.workspace_id) t.workspaces) joined)
                (count_use-find t h key user i found),
          )
    ]

-- An acceptance means that the invitation had a use left; a newcomer takes exactly one, and a member
-- takes none.
pub accept_invite-uses :
    (hash : String → String) (t after : Tenants) (w : Workspace) (key : ℕ) (user : User)
    (raw : String) (i : Invite) (now : ℕ)
    → accept_invite hash t key raw user now ≡ some (after, w)
    → find_where (has_digest (hash raw)) t.invites ≡ some i
    → (i.uses < i.max_uses)
      × (find_where (has_digest (hash raw)) after.invites
          ≡ some (
              if is_some (find_member t.members i.workspace_id user.id)
              then i
              else record i { uses = i.uses + 1 }))
unfolding accept_invite peek_invite live_invite
accept_invite-uses hash t after w key user raw i now done found =
    accept_peeked-some t after w key user user.email (hash raw) i now (rw found at done) found
