-- ===== src/Auth/Expiry.antt =====
-- No session outlives its absolute limit, however often it is touched.
use soriham_api.Prelude.{
  ℕ, ◌+◌, ◌≤◌, ◌<◌, ◌≡◌, refl, String, true, Option, none, some, List, [], ◌∷◌, ◌++◌, arith, ltb,
  inl, inr, Option-cases, ◌==◌, str_eq_refl, if◌then◌else◌,
}
use soriham_api.Table.{find_where, All, Row}
use soriham_api.Table.Rows.{All-append, All-Row, All-update_where, All-delete_where}
use soriham_api.Table.Find.{find_where-Row, find_where-insert_self}
use soriham_api.Models.{UserSession}
use soriham_api.Auth.{
  Sessions, session_idle, session_absolute, new_session, load_session, touched, touch_session,
  revoke_session, revoke_other_sessions, sweep_sessions, is_other, is_swept, has_hash, alive,
}

-- A session ends at most `session_absolute` after it was issued.
pub record IsBounded (s : UserSession) : Type 0 where
  pub absolute : s.absolute_expires_at ≡ s.issued_at + session_absolute
  pub idle : s.expires_at ≤ s.absolute_expires_at

-- what the web process and the worker do to the table of sessions
pub data Op : Type 0 where
  create : ℕ → ℕ → String → String → Option String → Option String → ℕ → Op
  touch : UserSession → ℕ → Op
  revoke : UserSession → ℕ → Op
  revoke_others : ℕ → Option ℕ → ℕ → Op
  sweep : ℕ → Op

module _ (token_hash : String → String) where
  unfoldable pub apply : Sessions → Op → Sessions
  apply rows (create id user raw csrf agent ip now) =
      rows ++ new_session token_hash id user raw csrf agent ip now ∷ []
  apply rows (touch s now) = (touch_session rows s now).0
  apply rows (revoke s now) = revoke_session rows s now
  apply rows (revoke_others user keep now) = (revoke_other_sessions rows user keep now).0
  apply rows (sweep now) = (sweep_sessions rows now).0

  unfoldable pub run : Sessions → List Op → Sessions
  run rows [] = rows
  run rows (op ∷ ops) = run (apply rows op) ops

  touched-IsBounded : (now : ℕ) (s : UserSession) → IsBounded s → IsBounded (touched now s)
  unfolding touched
  touched-IsBounded now s h = ground arith

  apply-IsBounded : (rows : Sessions) (op : Op) → All IsBounded rows → All IsBounded (apply rows op)
  unfolding apply touch_session revoke_session revoke_other_sessions sweep_sessions new_session
  apply-IsBounded rows (create id user raw csrf agent ip now) h =
      All-append IsBounded rows _ h (record { absolute = refl; idle = omega arith }, tt)
  apply-IsBounded rows (touch s now) h =
      All-update_where IsBounded (λ r. r.id == s.id) (touched now) rows
        (λ x _ hx. touched-IsBounded now x hx) h
  apply-IsBounded rows (revoke s now) h =
      All-update_where IsBounded (λ r. r.id == s.id) (λ r. record r { revoked_at = some now }) rows
        (λ x _ hx. record { absolute = hx.absolute; idle = hx.idle }) h
  apply-IsBounded rows (revoke_others user keep now) h =
      All-update_where IsBounded (is_other user keep) (λ r. record r { revoked_at = some now }) rows
        (λ x _ hx. record { absolute = hx.absolute; idle = hx.idle }) h
  apply-IsBounded rows (sweep now) h = All-delete_where IsBounded (is_swept now) rows h

  run-IsBounded :
      (rows : Sessions) (ops : List Op) → All IsBounded rows → All IsBounded (run rows ops)
  unfolding run
  run-IsBounded rows [] h = h
  run-IsBounded rows (op ∷ ops) h = run-IsBounded (apply rows op) ops (apply-IsBounded rows op h)

  pub load_session-Row :
      (rows : Sessions) (raw : String) (now : ℕ) (s : UserSession)
      → load_session token_hash rows raw now ≡ some s
      → Row s rows
        × (now < s.expires_at)
        × (now < s.absolute_expires_at)
        × (s.revoked_at ≡ none)
        × (has_hash (token_hash raw) s ≡ true)
  unfolding load_session
  load_session-Row rows raw now s h =
      elim (Option-cases (find_where (has_hash (token_hash raw)) rows)) [
        | inl e ↦ absurd (let bad : none ≡ some s = rw e at h in cc)
        | inr (t, e) ↦
            let found : alive now (some t) ≡ some s = rw e at h in
            let same : t ≡ s = ground arith in
            let (row, test) = find_where-Row (has_hash (token_hash raw)) rows s (rw same at e) in
            (row, ground arith, ground arith, ground arith, test)
      ]

  -- Whatever sequence of logins, touches, revocations and sweeps has run on an empty table, a token
  -- that loads a session at an instant does so before 90 days have passed since the session was
  -- issued, and before its idle limit.
  pub load_session-lt_absolute :
      (ops : List Op) (raw : String) (now : ℕ) (s : UserSession)
      → load_session token_hash (run [] ops) raw now ≡ some s
      → (now < s.issued_at + session_absolute) × (now < s.expires_at)
  load_session-lt_absolute ops raw now s h =
      let (row, idle, absolute, live, test) = load_session-Row (run [] ops) raw now s h in
      let bounded = All-Row IsBounded (run [] ops) s (run-IsBounded [] ops tt) row in
      (omega (arith, bounded.absolute), idle)

  -- A session that was just issued under a fresh token loads exactly until its idle limit.
  pub load_session-new_session :
      (rows : Sessions) (id user : ℕ) (raw csrf : String) (agent ip : Option String) (now later : ℕ)
      → find_where (has_hash (token_hash raw)) rows ≡ none
      → now ≤ later
      → load_session token_hash (apply rows (create id user raw csrf agent ip now)) raw later ≡ (
          if ltb later (now + session_idle)
          then some (new_session token_hash id user raw csrf agent ip now)
          else none)
  unfolding load_session apply
  load_session-new_session rows id user raw csrf agent ip now later fresh le =
      rw
        (find_where-insert_self (has_hash (token_hash raw)) rows
          (new_session token_hash id user raw csrf agent ip now) fresh
          (unfold new_session in str_eq_refl (token_hash raw)))
        (unfold new_session in ground arith)
