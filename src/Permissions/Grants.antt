-- ===== src/Permissions/Grants.antt =====
-- The permission on a recording is the greatest of the independent grants.
use soriham_api.Prelude.{
  ℕ, ◌≤◌, ◌≡◌, refl, Bool, true, ◌&&◌, ◌⊎◌, inl, inr, some, List, arith, opt_eq, sql_eq, Bool-cases,
  Option-cases, ◌==◌, leb, is_some,
}
use soriham_api.Table.{find_where, Row, Unique}
use soriham_api.Table.Find.{find_where-Row, find_where-Unique}
use soriham_api.Models.{WorkspaceMember, RecordingShare, Recording}
use soriham_api.Permissions.{
  Perm, value, Principal, has_own_access, role_perm, share_perm, is_member_row, is_share_row,
  member_role_perm, share_row_perm, resolve_recording_perm, max_perm, link_perm,
}

-- One reason to have the permission `q` on the recording `r`.
pub data Grant (members : List WorkspaceMember) (shares : List RecordingShare) (p : Principal)
    (r : Recording) (q : Perm) : Type 0 where
  by_service_admin :
      p.is_service_admin ≡ true → p.is_active ≡ true → q ≡ Perm.admin → Grant members shares p r q
  by_link : p.link_recording_id ≡ some r.id → q ≡ Perm.view → Grant members shares p r q
  by_role :
      (u : ℕ) (m : WorkspaceMember)
      → p.user_id ≡ some u
      → p.is_active ≡ true
      → Row m members
      → m.workspace_id ≡ r.workspace_id
      → m.user_id ≡ u
      → q ≡ role_perm m.role
      → Grant members shares p r q
  by_share :
      (u : ℕ) (s : RecordingShare)
      → p.user_id ≡ some u
      → p.is_active ≡ true
      → Row s shares
      → s.recording_id ≡ r.id
      → s.user_id ≡ some u
      → q ≡ share_perm s.permission
      → Grant members shares p r q

-- uq_workspace_members_ws_user
abbrev pub same_member : WorkspaceMember → WorkspaceMember → Bool
same_member a b = a.workspace_id == b.workspace_id && a.user_id == b.user_id

-- uq_recording_shares_user
abbrev pub same_share : RecordingShare → RecordingShare → Bool
same_share a b = a.recording_id == b.recording_id && sql_eq a.user_id b.user_id

module _ (members : List WorkspaceMember) (shares : List RecordingShare) (p : Principal)
    (r : Recording) where
  member_found :
      (u : ℕ) (m : WorkspaceMember)
      → Unique same_member members
      → p.user_id ≡ some u
      → Row m members
      → m.workspace_id ≡ r.workspace_id
      → m.user_id ≡ u
      → find_where (is_member_row p r.workspace_id) members ≡ some m
  member_found u m uniq e row w i =
      find_where-Unique same_member (is_member_row p r.workspace_id) members m uniq
        (λ y hy hm. ground arith) row (ground arith)

  share_found :
      (u : ℕ) (s : RecordingShare)
      → Unique same_share shares
      → p.user_id ≡ some u
      → Row s shares
      → s.recording_id ≡ r.id
      → s.user_id ≡ some u
      → find_where (is_share_row p r.id) shares ≡ some s
  share_found u s uniq e row w i =
      find_where-Unique same_share (is_share_row p r.id) shares s uniq (λ y hy hm. ground arith) row
        (ground arith)

  -- Every grant is contained in the permission that is resolved, under the unique constraints.
  Grant-le :
      (q : Perm)
      → Unique same_member members
      → Unique same_share shares
      → Grant members shares p r q
      → value q ≤ value (resolve_recording_perm members shares p r)
  unfolding resolve_recording_perm
  Grant-le q um us (by_service_admin a b e) = ground arith
  Grant-le q um us (by_link a e) = ground arith
  Grant-le q um us (by_role u m e act row w i eq) = ground (arith, member_found u m um e row w i)
  Grant-le q um us (by_share u s e act row w i eq) = ground (arith, share_found u s us e row w i)

  abbrev IsGranted : Perm → Type 0
  IsGranted q = (q ≡ Perm.none) ⊎ Grant members shares p r q

  max_perm-IsGranted : (a b : Perm) → IsGranted a → IsGranted b → IsGranted (max_perm a b)
  max_perm-IsGranted a b ha hb = elim (Bool-cases (leb (value b) (value a))) [
    | inl e ↦ rw e ha
    | inr e ↦ rw e hb
  ]

  link_perm-IsGranted : IsGranted (link_perm p r)
  link_perm-IsGranted = elim (Bool-cases (opt_eq p.link_recording_id r.id)) [
    | inl e ↦ rw e (inr (by_link (ground arith) refl))
    | inr e ↦ rw e (inl refl)
  ]

  module _ (u : ℕ) (e : p.user_id ≡ some u) (act : p.is_active ≡ true) where
    role-IsGranted :
        IsGranted (member_role_perm (find_where (is_member_row p r.workspace_id) members))
    role-IsGranted = elim (Option-cases (find_where (is_member_row p r.workspace_id) members)) [
      | inl f ↦ rw f (inl refl)
      | inr (m, f) ↦
          let (row, test) = find_where-Row (is_member_row p r.workspace_id) members m f in
          rw f (inr (by_role u m e act row (ground arith) (ground arith) refl))
    ]

    share-IsGranted : IsGranted (share_row_perm (find_where (is_share_row p r.id) shares))
    share-IsGranted = elim (Option-cases (find_where (is_share_row p r.id) shares)) [
      | inl f ↦ rw f (inl refl)
      | inr (s, f) ↦
          let (row, test) = find_where-Row (is_share_row p r.id) shares s f in
          rw f (inr (by_share u s e act row (ground arith) (ground arith) refl))
    ]

  own_access_user : has_own_access p ≡ true → (u : ℕ) × (p.user_id ≡ some u) × (p.is_active ≡ true)
  unfolding has_own_access
  own_access_user h = ground arith

  resolve-IsGranted : IsGranted (resolve_recording_perm members shares p r)
  unfolding resolve_recording_perm
  resolve-IsGranted = elim (Bool-cases (p.is_service_admin && p.is_active)) [
    | inl e ↦ rw e (inr (by_service_admin (ground arith) (ground arith) refl))
    | inr e ↦ elim (Bool-cases (is_some p.user_id && p.is_active)) [
      | inl own ↦
          let (u, eu, act) = own_access_user (unfold has_own_access in own) in
          rw (e, own)
            (max_perm-IsGranted _ _
              (max_perm-IsGranted _ _ link_perm-IsGranted (role-IsGranted u eu act))
              (share-IsGranted u eu act))
      | inr own ↦ rw (e, own) link_perm-IsGranted
    ]
  ]

  -- Where no two member rows have the same workspace and user, and no two share rows the same
  -- recording and user, the permission that is resolved on a recording contains every grant that
  -- the caller has (service administration, link, role, share), and unless it is NONE it is itself
  -- one of these grants.
  pub resolve_recording_perm-greatest :
      Unique same_member members
      → Unique same_share shares
      → ((q : Perm)
          → Grant members shares p r q
          → value q ≤ value (resolve_recording_perm members shares p r))
        × ((resolve_recording_perm members shares p r ≡ Perm.none)
            ⊎ Grant members shares p r (resolve_recording_perm members shares p r))
  resolve_recording_perm-greatest um us = (λ q. Grant-le q um us, resolve-IsGranted)
