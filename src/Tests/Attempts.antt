-- ===== src/Tests/Attempts.antt =====
-- ratelimit.py: an address that has tried a login eight times in its window.
use soriham_api.Prelude.{
  ◌+◌, ◌≤◌, ◌≡◌, ◌≢◌, refl, String, some, List, [], ◌∷◌, arith, ltb, if◌then◌else◌, eq_iff,
}
use soriham_api.Table.{find_where}
use soriham_api.RateLimit.{
  Attempts, Limit, per_source, per_target, start_of, clear, guard_attempts, count_of, allowed,
  too_many_attempts, target_key,
}
use soriham_api.RateLimit.Counting.{clear-count_of}
use soriham_api.RateLimit.Blocking.{attempts_at, lockout_exact}

abbrev rows : Attempts
rows =
    record { key = "login:src:10.0.0.1"; window_start = 9000; count = 9 }
    ∷ record { key = "login:pair:10.0.0.1:ab"; window_start = 9000; count = 8 }
    ∷ record { key = "login:src:10.0.0.1"; window_start = 1800; count = 30 }
    ∷ []

abbrev src : String
src = "login:src:10.0.0.1"

abbrev pair : String
pair = "login:pair:10.0.0.1:ab"

target_key-login : target_key (λ t. "ab") "login" (some "10.0.0.1") "a@b.c" ≡ pair
unfolding target_key
target_key-login = refl

src_ne_pair : src ≢ pair
src_ne_pair e = cc ((eq_iff src pair).1 e)

clear-count_of_example :
    (count_of (clear rows src) src per_source 9100 ≡ 0)
    × (src ≢ pair
        → count_of (clear rows src) pair per_source 9100 ≡ count_of rows pair per_source 9100)
clear-count_of_example = clear-count_of rows src per_source 9100 pair

abbrev axes : List (String × Limit)
axes = (src, per_source) ∷ (pair, per_target) ∷ []

-- two more are allowed, then the window is closed
lockout_exact_example :
    ((guard_attempts
        (attempts_at pair per_target rows (9001 ∷ 9002 ∷ 9003 ∷ []))
        ((pair, per_target) ∷ [])
        9100).1
      ≡ (if ltb (count_of rows pair per_target 9100 + 3) 10 then allowed else too_many_attempts))
    × (count_of (attempts_at pair per_target rows (9001 ∷ 9002 ∷ 9003 ∷ [])) pair per_target 9100
        ≤ 10)
unfolding start_of count_of find_where
lockout_exact_example =
    lockout_exact pair per_target rows (9001 ∷ 9002 ∷ 9003 ∷ []) 9100 (refl, (refl, (refl, tt)))
      (omega arith)
