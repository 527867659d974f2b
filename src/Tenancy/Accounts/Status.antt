-- ===== src/Tenancy/Accounts/Status.antt =====
-- What a change of status ends, and what a rejection leaves.
use soriham_api.Prelude.{
  ℕ, ◌+◌, String, ◌≡◌, ◌≢◌, refl, ap, ◌∙◌, Bool, ◌==◌, Option, none, some, List, [], ◌∷◌, arith,
  Bool-cases, inl, inr,
}
use soriham_api.Table.{find_where, filter_where, delete_where, count_where}
use soriham_api.Models.{
  User, UserStatus, UserSession, Workspace, WorkspaceMember, Recording, JobLog,
}
use soriham_api.Auth.{load_session}
use soriham_api.Auth.Revoking.{revoke_other_sessions-load}
use soriham_api.Tenancy.Accounts.{
  Accounts, Naming, NewIds, Limits, set_user_status, reject, drop_empty_homes, drop_homes,
  drop_home, delete_workspace, is_empty_home, write_user, reviewed, is_members_of, end_sessions,
}

end_sessions-load :
    (hash : String → String) (a : Accounts) (user now later : ℕ) (raw : String) (s : UserSession)
    → load_session hash (end_sessions a user now).sessions raw later ≡ some s
    → s.user_id ≢ user
end_sessions-load hash a user now later raw s loads own =
    let kept = revoke_other_sessions-load hash a.sessions user none now raw later s loads own in cc

-- Once an account is rejected or disabled, no token loads a session of it from those that are stored
-- then, at any instant.
pub set_user_status-load :
    (n : Naming) (a after : Accounts) (ids : NewIds) (user : User) (status : UserStatus)
    (reviewer : Option ℕ) (limits : Limits) (tokens : List String) (now later : ℕ)
    (hash : String → String) (raw : String) (s : UserSession)
    → status ≢ UserStatus.active
    → set_user_status n a ids user status reviewer limits tokens now ≡ some after
    → load_session hash after.sessions raw later ≡ some s
    → s.user_id ≢ user.id
unfolding set_user_status
set_user_status-load n a after ids user UserStatus.pending reviewer limits tokens now later hash raw
      s inactive done loads =
    cc
set_user_status-load n a after ids user UserStatus.active reviewer limits tokens now later hash raw
      s inactive done loads =
    absurd (inactive refl)
set_user_status-load n a after ids user UserStatus.rejected reviewer limits tokens now later hash
      raw s inactive done loads =
    let eq : end_sessions (reject a user reviewer now) user.id now ≡ after = cc in
    end_sessions-load hash (reject a user reviewer now) user.id now later raw s (rw (← eq) at loads)
set_user_status-load n a after ids user UserStatus.disabled reviewer limits tokens now later hash
      raw s inactive done loads =
    let a' = write_user a user.id (reviewed UserStatus.disabled reviewer now) in
    let eq : end_sessions a' user.id now ≡ after = cc in
    end_sessions-load hash a' user.id now later raw s (rw (← eq) at loads)

delete_where-none {ℓ} :
    {A : Type ℓ} (p : A → Bool) (xs : List A) → count_where p xs ≡ 0 → delete_where p xs ≡ xs
unfolding delete_where count_where
delete_where-none p [] h = refl
delete_where-none p (x ∷ xs) h = elim (Bool-cases (p x)) [
  | inl e ↦ absurd (let bad : 1 + count_where p xs ≡ 0 = rw e at h in omega arith)
  | inr e ↦
      let here : 0 + count_where p xs ≡ 0 = rw e at h in
      let rest : count_where p xs ≡ 0 = omega arith in
      rw e (ap (λ ys. x ∷ ys) (delete_where-none p xs rest))
]

-- recordings and ledger are those of before
abbrev pub KeepsHistory : Accounts → Accounts → Type 0
KeepsHistory a b = (b.recordings ≡ a.recordings) × (b.logs ≡ a.logs)

drop_home-KeepsHistory :
    (user : ℕ) (a : Accounts) (w : Option Workspace) → KeepsHistory a (drop_home user a w)
unfolding delete_workspace is_empty_home
drop_home-KeepsHistory user a none = (refl, refl)
drop_home-KeepsHistory user a (some w) = elim (Bool-cases (is_empty_home a w)) [
  | inl e ↦ rw e (
    delete_where-none (λ (r : Recording). r.workspace_id == w.id) a.recordings (ground arith),
    delete_where-none (λ (l : JobLog). l.workspace_id == w.id) a.logs (ground arith),
  )
  | inr e ↦ rw e (refl, refl)
]

drop_homes-KeepsHistory :
    (user : ℕ) (ms : List WorkspaceMember) (a : Accounts) → KeepsHistory a (drop_homes user ms a)
unfolding drop_homes
drop_homes-KeepsHistory user [] a = (refl, refl)
drop_homes-KeepsHistory user (m ∷ ms) a =
    let w = find_where (λ x. x.id == m.workspace_id) a.tenants.workspaces in
    let one = drop_home-KeepsHistory user a w in
    let rest = drop_homes-KeepsHistory user ms (drop_home user a w) in
    (rest.0 ∙ one.0, rest.1 ∙ one.1)

-- A rejection deletes no recording and no line of the ledger, though the deletion of a workspace
-- cascades to both: rejection and renewed approval give no usage back.
pub reject-KeepsHistory :
    (a : Accounts) (user : User) (reviewer : Option ℕ) (now : ℕ)
    → KeepsHistory a (reject a user reviewer now)
unfolding reject drop_empty_homes
reject-KeepsHistory a user reviewer now =
    drop_homes-KeepsHistory user.id (filter_where (is_members_of user.id) a.tenants.members)
      (write_user a user.id (reviewed UserStatus.rejected reviewer now))
