-- ===== src/Deps/Secrecy.antt =====
-- What a refusal gives away.
use soriham_api.Prelude.{
  ℕ, ◌≤◌, ◌≡◌, ◌↔◌, refl, ap, true, false, Option, none, some, List, ltb, is_some, arith,
  Bool-cases, Option-cases, inl, inr,
}
use soriham_api.Table.{find_where}
use soriham_api.Models.{Recording}
use soriham_api.Permissions.{Perm, value, Principal, resolve_recording_perm}
use soriham_api.Deps.{
  Tables, HttpError, raised, passed, recording_at, recording_for, blocked_status, is_recording,
  no_recording, login_required, blocked,
}

recording_for-raised :
    (need : Perm) (t : Tables) (p : Principal) (row : Option Recording) (e : HttpError)
    → recording_for need t p row ≡ raised e
    → e ≡ no_recording
recording_for-raised need t p none e h = cc
recording_for-raised need t p (some r) e h =
    elim (Bool-cases (ltb (value (resolve_recording_perm t.members t.shares p r)) (value need))) [
      | inl lt ↦ let out : raised no_recording ≡ raised e = rw lt at h in cc
      | inr ge ↦ absurd (let out : passed r ≡ raised e = rw ge at h in cc)
    ]

-- Whatever recordings there are and whatever two ids are asked for, two refusals of one caller are
-- the same answer: it does not tell a recording that is missing from one that is out of reach.
pub recording_at-secrecy :
    (need : Perm) (t : Tables) (others : List Recording) (p : Principal) (x y : ℕ)
    (e e' : HttpError)
    → recording_at need t p x ≡ raised e
    → recording_at need (record t { recordings = others }) p y ≡ raised e'
    → e ≡ e'
unfolding recording_at
recording_at-secrecy need t others p x y e e' h h' = elim (Bool-cases (is_some p.user_id)) [
  | inr out ↦
      let one : raised login_required ≡ raised e = rw out at h in
      let two : raised login_required ≡ raised e' = rw out at h' in cc
  | inl known ↦ elim (Option-cases (blocked_status t p.user_id)) [
    | inr (s, b) ↦
        let one : raised (blocked s) ≡ raised e = rw (known, b) at h in
        let two : raised (blocked s) ≡ raised e' = rw (known, b) at h' in cc
    | inl free ↦
        let one =
          recording_for-raised need t p (find_where (is_recording x) t.recordings) e
            (rw (known, free) at h) in
        let two =
          recording_for-raised need (record t { recordings = others }) p
            (find_where (is_recording y) others) e' (rw (known, free) at h') in
        cc
  ]
]

recording_for-passed :
    (need : Perm) (t : Tables) (p : Principal) (row : Option Recording) (r : Recording)
    → recording_for need t p row ≡ passed r
    → (row ≡ some r) × (value need ≤ value (resolve_recording_perm t.members t.shares p r))
recording_for-passed need t p none r h = cc
recording_for-passed need t p (some x) r h =
    elim (Bool-cases (ltb (value (resolve_recording_perm t.members t.shares p x)) (value need))) [
      | inl lt ↦ absurd (let out : raised no_recording ≡ passed r = rw lt at h in cc)
      | inr ge ↦
          let out : passed x ≡ passed r = rw ge at h in
          let same : x ≡ r = cc in
          let reach : value need ≤ value (resolve_recording_perm t.members t.shares p x) =
            ground arith in
          (ap some same, rw same at reach)
    ]

-- A recording is handed over exactly if the caller is known, the account is not blocked, the id is
-- that recording's and the permission reaches what is needed.
pub recording_at-exact :
    (need : Perm) (t : Tables) (p : Principal) (id : ℕ) (r : Recording)
    → (recording_at need t p id ≡ passed r) ↔ (
        (is_some p.user_id ≡ true)
        × (blocked_status t p.user_id ≡ none)
        × (find_where (is_recording id) t.recordings ≡ some r)
        × (value need ≤ value (resolve_recording_perm t.members t.shares p r)))
unfolding recording_at
recording_at-exact need t p id r = (reads, lets)
  where
    reads :
        recording_at need t p id ≡ passed r
        → (is_some p.user_id ≡ true)
          × (blocked_status t p.user_id ≡ none)
          × (find_where (is_recording id) t.recordings ≡ some r)
          × (value need ≤ value (resolve_recording_perm t.members t.shares p r))
    reads h = elim (Bool-cases (is_some p.user_id)) [
      | inr out ↦ absurd (let bad : raised login_required ≡ passed r = rw out at h in cc)
      | inl known ↦ elim (Option-cases (blocked_status t p.user_id)) [
        | inr (s, b) ↦ absurd (let bad : raised (blocked s) ≡ passed r = rw (known, b) at h in cc)
        | inl free ↦
            let (row, reach) =
              recording_for-passed need t p (find_where (is_recording id) t.recordings) r
                (rw (known, free) at h) in
            (known, free, row, reach)
      ]
    ]

    lets :
        (is_some p.user_id ≡ true)
          × (blocked_status t p.user_id ≡ none)
          × (find_where (is_recording id) t.recordings ≡ some r)
          × (value need ≤ value (resolve_recording_perm t.members t.shares p r))
        → recording_at need t p id ≡ passed r
    lets (known, free, row, reach) =
        let ge : ltb (value (resolve_recording_perm t.members t.shares p r)) (value need) ≡ false =
          ground arith in
        rw (known, free, row, ge) refl
