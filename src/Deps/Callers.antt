-- ===== src/Deps/Callers.antt =====
-- Who a cookie makes of a request.
use soriham_api.Prelude.{
  ℕ, String, ◌≡◌, ◌≢◌, ◌≤◌, ◌⊎◌, inl, inr, refl, ap, sym, ◌∙◌, true, false, Option, none, some,
  List, str_eq, ==_iff, Bool-cases, if◌then◌else◌,
}
use text.Mathlib.TextEquality.{eq_iff}
use soriham_api.Table.{find_where}
use soriham_api.Table.Find.{find_where-Row}
use soriham_api.Models.{User, UserStatus, UserSession, Recording}
use soriham_api.Auth.{Sessions, load_session}
use soriham_api.Permissions.{Perm, value, Principal, for_user, resolve_recording_perm}
use soriham_api.Tenancy.Accounts.{Accounts, Naming, NewIds, Limits, set_user_status}
use soriham_api.Tenancy.Accounts.Status.{set_user_status-load}
use soriham_api.Deps.{
  Tables, Request, Caller, nobody, raised, passed, has_id, current_principal, caller_by, caller_of,
  recording_at, is_recording, blocked_status, require_csrf, require_user, carries_token, is_listed,
  safe_methods, bad_csrf, login_required, unless_active,
}
use soriham_api.Deps.Secrecy.{recording_at-exact}

-- the session and the account that a cookie stands for
pub record Login (hash : String → String) (t : Tables) (sessions : Sessions)
    (cookie : Option String) (now : ℕ) (c : Caller) : Type 0 where
  pub raw : String
  pub session : UserSession
  pub user : User
  pub sent : cookie ≡ some raw
  pub loads : load_session hash sessions raw now ≡ some session
  pub found : find_where (has_id session.user_id) t.users ≡ some user
  pub is_theirs :
      c ≡ record { principal = for_user user; session_row = some session; user = some user }

module _ (hash : String → String) (t : Tables) (sessions : Sessions) (now : ℕ) where
  caller_of-Login :
      (raw : String) (s : UserSession) (row : Option User)
      → load_session hash sessions raw now ≡ some s
      → find_where (has_id s.user_id) t.users ≡ row
      → ((caller_of sessions s now row).0 ≡ nobody)
        ⊎ Login hash t sessions (some raw) now (caller_of sessions s now row).0
  caller_of-Login raw s none loads found = inl refl
  caller_of-Login raw s (some u) loads found = inr (record {
    raw = raw;
    session = s;
    user = u;
    sent = refl;
    loads = loads;
    found = found;
    is_theirs = refl;
  })

  caller_by-Login :
      (raw : String) (row : Option UserSession)
      → load_session hash sessions raw now ≡ row
      → ((caller_by t sessions now row).0 ≡ nobody)
        ⊎ Login hash t sessions (some raw) now (caller_by t sessions now row).0
  caller_by-Login raw none loads = inl refl
  caller_by-Login raw (some s) loads =
      caller_of-Login raw s (find_where (has_id s.user_id) t.users) loads refl

  -- a request is nobody's, or that of the account of a session that loads
  pub current_principal-cases :
      (cookie : Option String)
      → ((current_principal hash t sessions cookie now).0 ≡ nobody)
        ⊎ Login hash t sessions cookie now (current_principal hash t sessions cookie now).0
  unfolding current_principal
  current_principal-cases none = inl refl
  current_principal-cases (some raw) = elim (Bool-cases (str_eq raw "")) [
    | inl e ↦ inl (rw e refl)
    | inr e ↦ rw e (caller_by-Login raw (load_session hash sessions raw now) refl)
  ]

module _ (hash : String → String) (t : Tables) (sessions : Sessions) (cookie : Option String)
    (now : ℕ) (c : Caller) (l : Login hash t sessions cookie now c) where
  login-id : l.user.id ≡ l.session.user_id
  login-id =
      (==_iff l.user.id l.session.user_id).0
        (find_where-Row (has_id l.session.user_id) t.users l.user l.found).1

  login-principal : c.principal ≡ for_user l.user
  login-principal = ap (λ (x : Caller). x.principal) l.is_theirs

unless_active-none : (s : UserStatus) → unless_active (some s) ≡ none → s ≡ UserStatus.active
unless_active-none UserStatus.active h = refl
unless_active-none UserStatus.pending h = cc
unless_active-none UserStatus.rejected h = cc
unless_active-none UserStatus.disabled h = cc

-- Once an account is rejected or disabled, no cookie makes a request of it by the sessions that are
-- stored then, whatever the other tables become.
pub set_user_status-current_principal :
    (n : Naming) (a after : Accounts) (ids : NewIds) (user : User) (status : UserStatus)
    (reviewer : Option ℕ) (limits : Limits) (tokens : List String) (now later : ℕ)
    (hash : String → String) (t : Tables) (cookie : Option String)
    → status ≢ UserStatus.active
    → set_user_status n a ids user status reviewer limits tokens now ≡ some after
    → (current_principal hash t after.sessions cookie later).0.principal.user_id ≢ some user.id
unfolding for_user
set_user_status-current_principal n a after ids user status reviewer limits tokens now later hash t
      cookie inactive done theirs =
    elim (current_principal-cases hash t after.sessions later cookie) [
      | inl e ↦ let id = ap (λ (c : Caller). c.principal.user_id) e in cc
      | inr l ↦
          let c = (current_principal hash t after.sessions cookie later).0 in
          let own : c.principal.user_id ≡ some l.user.id =
            ap (λ (p : Principal). p.user_id)
              (login-principal hash t after.sessions cookie later c l) in
          let id = login-id hash t after.sessions cookie later c l in
          let same : some l.session.user_id ≡ some user.id = cc in
          let eq : l.session.user_id ≡ user.id = cc in
          set_user_status-load n a after ids user status reviewer limits tokens now later hash l.raw
            l.session inactive done l.loads eq
    ]

-- A recording is handed over to a request only by a session that loads from its cookie, whose account
-- is active and reaches the permission by itself, not by a link.
pub current_principal-recording_at :
    (hash : String → String) (need : Perm) (t : Tables) (sessions : Sessions)
    (cookie : Option String) (now id : ℕ) (r : Recording)
    → recording_at need t (current_principal hash t sessions cookie now).0.principal id ≡ passed r
    → (l : Login hash t sessions cookie now (current_principal hash t sessions cookie now).0)
      × (l.user.status ≡ UserStatus.active)
      × (r.public_id ≡ id)
      × (value need ≤ value (resolve_recording_perm t.members t.shares (for_user l.user) r))
unfolding for_user
current_principal-recording_at hash need t sessions cookie now id r h =
    let c = (current_principal hash t sessions cookie now).0 in
    let (known, free, row, reach) = (recording_at-exact need t c.principal id r).0 h in
    elim (current_principal-cases hash t sessions now cookie) [
      | inl e ↦
          let id : c.principal.user_id ≡ none = ap (λ (x : Caller). x.principal.user_id) e in
          absurd (let bad : false ≡ true = rw id at known in cc)
      | inr l ↦
          let p = login-principal hash t sessions cookie now c l in
          let same = login-id hash t sessions cookie now c l in
          let at_user : find_where (has_id l.user.id) t.users ≡ some l.user =
            ap (λ id. find_where (has_id id) t.users) same ∙ l.found in
          let free' : blocked_status t (for_user l.user).user_id ≡ none = rw p at free in
          let status : unless_active (some l.user.status) ≡ none = rw at_user at free' in
          let named = (find_where-Row (is_recording id) t.recordings r row).1 in
          (
            l,
            unless_active-none l.user.status status,
            (==_iff r.public_id id).0 named,
            rw p at reach,
          )
    ]

carries_token-some :
    (s : UserSession) (sent : Option String)
    → carries_token (some s) sent ≡ true
    → (sent ≡ some s.csrf_token) × (s.csrf_token ≢ "")
carries_token-some s none ok = cc
carries_token-some s (some h) ok = elim (Bool-cases (str_eq h "")) [
  | inl e ↦ absurd (let bad : false ≡ true = rw e at ok in cc)
  | inr e ↦
      let same : str_eq h s.csrf_token ≡ true = rw e at ok in
      let eq = (eq_iff h s.csrf_token).0 same in
      (
        ap some eq,
        λ empty.
            let one : str_eq h "" ≡ true = (eq_iff h "").1 (eq ∙ empty) in
            absurd (let bad : true ≡ false = (sym one) ∙ e in cc),
      )
]

-- A request that changes something passes only if the session that its cookie loads is the answered
-- user's and its header repeats that session's own token, which is not empty.
pub require_csrf-token :
    (hash : String → String) (t : Tables) (sessions : Sessions) (now : ℕ) (r : Request) (u : User)
    → is_listed safe_methods r.method ≡ false
    → require_csrf r (current_principal hash t sessions r.cookie now).0 ≡ passed u
    → (l : Login hash t sessions r.cookie now (current_principal hash t sessions r.cookie now).0)
      × (u ≡ l.user)
      × (r.csrf_header ≡ some l.session.csrf_token)
      × (l.session.csrf_token ≢ "")
unfolding require_csrf require_user for_user
require_csrf-token hash t sessions now r u unsafe h =
    elim (current_principal-cases hash t sessions now r.cookie) [
      | inl e ↦ absurd (let bad : raised login_required ≡ passed u = rw e at h in cc)
      | inr l ↦
          let passes : (if carries_token (some l.session) r.csrf_header
                then passed l.user
                else raised bad_csrf)
              ≡ passed u =
            rw (l.is_theirs, unsafe) at h in
          elim (Bool-cases (carries_token (some l.session) r.csrf_header)) [
            | inr e ↦ absurd (let bad : raised bad_csrf ≡ passed u = rw e at passes in cc)
            | inl ok ↦
                let out : passed l.user ≡ passed u = rw ok at passes in
                let (header, text) = carries_token-some l.session r.csrf_header ok in
                (l, cc, header, text)
          ]
    ]
