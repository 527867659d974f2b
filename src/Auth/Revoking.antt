-- ===== src/Auth/Revoking.antt =====
-- Revoking ends sessions at once; sweeping ends none.
use mathlib.Core.Option
use soriham_api.Prelude.{
  ℕ, ◌≤◌, ◌≡◌, ◌≢◌, refl, String, Bool, true, Option, none, some, arith, inl, inr, Bool-cases,
  Option-cases, ◌==◌, opt_eq, eq_iff, str_eq, if◌then◌else◌,
}
use soriham_api.Table.{find_where, Unique, update_where}
use soriham_api.Table.Rows.{All-Row, All-update_where_new}
use soriham_api.Table.Find.{find_where-update_where, find_where-delete_where-Unique, unless}
use soriham_api.Models.{UserSession}
use soriham_api.Auth.{
  Sessions, load_session, revoke_session, revoke_other_sessions, sweep_sessions, is_other, is_swept,
  has_hash, alive,
}
use soriham_api.Auth.Expiry.{load_session-Row}

-- After `revoke_other_sessions` a session of that user that still loads is the one that was kept.
pub revoke_other_sessions-load :
    (token_hash : String → String) (rows : Sessions) (user : ℕ) (keep : Option ℕ) (now : ℕ)
    (raw : String) (later : ℕ) (s : UserSession)
    → load_session token_hash (revoke_other_sessions rows user keep now).0 raw later ≡ some s
    → s.user_id ≡ user
    → opt_eq keep s.id ≡ true
unfolding revoke_other_sessions
revoke_other_sessions-load token_hash rows user keep now raw later s h own =
    let rows' = (revoke_other_sessions rows user keep now).0 in
    let (row, _, _, live, _) = load_session-Row token_hash rows' raw later s h in
    All-Row (λ (x : UserSession). x.user_id ≡ user → x.revoked_at ≡ none → opt_eq keep x.id ≡ true)
      rows' s
      (All-update_where_new
        (λ (x : UserSession). x.user_id ≡ user → x.revoked_at ≡ none → opt_eq keep x.id ≡ true)
        (is_other user keep) (λ r. record r { revoked_at = some now }) rows (λ x test e r. cc)
        (λ x test e r. ground arith))
      row own live

module _ (token_hash : String → String) (rows : Sessions) where
  -- The answer for a token after rows were marked as revoked: the row that it finds is marked too.
  load_session-mark :
      (p : UserSession → Bool) (now later : ℕ) (raw : String)
      → load_session token_hash
          (update_where p (λ r. record r { revoked_at = some now }) rows)
          raw
          later
        ≡ alive later (
            Option.map
              (λ x. if p x then record x { revoked_at = some now } else x)
              (find_where (has_hash (token_hash raw)) rows))
  unfolding load_session
  load_session-mark p now later raw = rw (
      find_where-update_where (has_hash (token_hash raw)) p
        (λ r. record r { revoked_at = some now }) rows (λ x. refl))

  -- Revoking the sessions of one user leaves a loaded session of another user loaded.
  pub revoke_other_sessions-load_ne :
      (user : ℕ) (keep : Option ℕ) (now : ℕ) (raw : String) (later : ℕ) (s : UserSession)
      → load_session token_hash rows raw later ≡ some s
      → s.user_id ≢ user
      → load_session token_hash (revoke_other_sessions rows user keep now).0 raw later ≡ some s
  unfolding revoke_other_sessions
  revoke_other_sessions-load_ne user keep now raw later s h ne =
      rw (load_session-mark (is_other user keep) now later raw)
        (elim (Option-cases (find_where (has_hash (token_hash raw)) rows)) [
          | inl e ↦ absurd (unfold load_session in let bad : none ≡ some s = rw e at h in cc)
          | inr (t, e) ↦
              let found : alive later (some t) ≡ some s = unfold load_session in rw e at h in
              rw e (ground arith)
        ])

  -- A token whose session was revoked loads nothing from then on.
  pub revoke_session-load :
      (now later : ℕ) (raw : String) (s : UserSession)
      → load_session token_hash rows raw now ≡ some s
      → load_session token_hash (revoke_session rows s now) raw later ≡ none
  unfolding revoke_session
  revoke_session-load now later raw s h =
      rw (load_session-mark (λ r. r.id == s.id) now later raw)
        (elim (Option-cases (find_where (has_hash (token_hash raw)) rows)) [
          | inl e ↦ rw e
          | inr (t, e) ↦
              let found : alive now (some t) ≡ some s = unfold load_session in rw e at h in
              rw e (ground arith)
        ])

abbrev pub same_token : UserSession → UserSession → Bool
same_token a b = str_eq a.token_hash b.token_hash

swept-IsDead :
    (now later : ℕ) (s : UserSession)
    → now ≤ later
    → is_swept now s ≡ true
    → alive later (some s) ≡ none
swept-IsDead now later s le h = ground arith

alive-unless :
    (now later : ℕ) (o : Option UserSession)
    → now ≤ later
    → alive later (unless (is_swept now) o) ≡ alive later o
alive-unless now later none le = refl
alive-unless now later (some s) le = elim (Bool-cases (is_swept now s)) [
  | inl e ↦ rw (e, swept-IsDead now later s le e)
  | inr e ↦ rw e
]

-- Where token hashes are unique, sweeping at an instant changes the answer for no token from that
-- instant on.
pub sweep_sessions-load :
    (token_hash : String → String) (rows : Sessions) (now later : ℕ) (raw : String)
    → Unique same_token rows
    → now ≤ later
    → load_session token_hash (sweep_sessions rows now).0 raw later
      ≡ load_session token_hash rows raw later
unfolding sweep_sessions load_session
sweep_sessions-load token_hash rows now later raw u le =
    rw
      (find_where-delete_where-Unique same_token (has_hash (token_hash raw)) (is_swept now) rows u
        (λ x y hx hy. ground (
          arith,
          eq_iff x.token_hash (token_hash raw),
          eq_iff y.token_hash (token_hash raw),
          eq_iff x.token_hash y.token_hash,
        )))
      (alive-unless now later (find_where (has_hash (token_hash raw)) rows) le)
