-- ===== src/Quota/Limits.antt =====
-- What the two checks let through.
use soriham_api.Prelude.{ℕ, ◌+◌, ◌*◌, ◌≤◌, ◌≡◌, ◌≢◌, ◌↔◌, ◌⊎◌, Option, none, some, arith}
use soriham_api.Quota.{Usage, minute_ms, duration_unknown, check_storage, check_minutes}

-- what a limit in minutes should let through
abbrev pub Fits : ℕ → Option ℕ → Option ℕ → Type 0
Fits used none duration = Unit
Fits used (some q) none = ⊥
Fits used (some q) (some d) = (d ≡ 0) ⊎ (used + d ≤ q * minute_ms)

-- A limit in minutes lets through exactly what fits: with no limit everything, with a limit the
-- recordings of known length that are empty or still fit beside what is used. A recording of unknown
-- length is refused as such exactly under a limit.
pub check_minutes_exact :
    (u : Usage) (duration : Option ℕ)
    → (check_minutes u duration ≡ none ↔ Fits u.used_ms u.quota_minutes duration)
      × (check_minutes u duration ≡ some duration_unknown
          ↔ ((duration ≡ none) × (u.quota_minutes ≢ none)))
unfolding check_minutes
check_minutes_exact u none =
    ((λ h. ground arith, λ h. ground arith), (λ h. ground arith, λ h. ground arith))
check_minutes_exact u (some d) =
    ((λ h. ground arith, λ h. ground arith), (λ h. ground arith, λ h. ground arith))

-- An upload that passes the storage check fits, unless it is empty, and one that fits passes.
pub check_storage_exact :
    (u : Usage) (incoming q : ℕ)
    → u.quota_bytes ≡ some q
    → (check_storage u incoming ≡ none ↔ ((incoming ≡ 0) ⊎ (u.used_bytes + incoming ≤ q)))
unfolding check_storage
check_storage_exact u incoming q e = (λ h. ground arith, λ h. ground arith)
