-- ===== src/RateLimit.antt =====
-- ratelimit.py: counted attempts in fixed windows. Keys are texts: `source_key` and `target_key`
-- build them, with the SHA-256 digest a parameter. Instants are whole seconds since the epoch.
pub mod Counting
pub mod Blocking
pub mod Sweeping
use soriham_api.Prelude.{
  ℕ, zero, suc, ◌+◌, ◌-◌, ◌*◌, ◌%◌, String, Bool, ◌++◌, true, false, ◌&&◌, ◌||◌, Option, none, some,
  List, [], ◌∷◌, ◌==◌, ltb, str_eq, str_append, or_text, if◌then◌else◌,
}
use soriham_api.Table.{find_where, update_where, delete_where, count_where}
use soriham_api.Models.{AuthAttempt}

pub record Limit : Type 0 where
  pub max_attempts : ℕ
  pub window : ℕ

-- Limit.start_of: the start of the fixed window that holds `now`
unfoldable pub start_of : Limit → ℕ → ℕ
start_of l now = now - now % l.window

-- 15 minutes
abbrev pub window_sec : ℕ
window_sec = 900

abbrev pub per_source : Limit
per_source = record { max_attempts = 30; window = window_sec }

abbrev pub per_target : Limit
per_target = record { max_attempts = 10; window = window_sec }

abbrev pub sweep_after : ℕ
sweep_after = window_sec * 4

abbrev pub Attempts : Type 0
Attempts = List AuthAttempt

abbrev pub in_window : String → ℕ → AuthAttempt → Bool
in_window key start a = str_eq a.key key && a.window_start == start

abbrev pub bump : AuthAttempt → AuthAttempt
bump a = record a { count = a.count + 1 }

-- INSERT ... ON CONFLICT (key, window_start) DO UPDATE SET count = count + 1 RETURNING count
abbrev pub upsert : Option AuthAttempt → Attempts → String → ℕ → Attempts × ℕ
upsert none rows key start = (rows ++ record { key = key; window_start = start; count = 1 } ∷ [], 1)
upsert (some a) rows key start = (update_where (in_window key start) bump rows, a.count + 1)

-- `int(value or 1)`
abbrev pub or_one : ℕ → ℕ
or_one zero = 1
or_one (suc n) = suc n

unfoldable pub hit : Attempts → String → Limit → ℕ → Attempts × ℕ
unfolding start_of
hit rows key limit now =
    let start = start_of limit now in
    let (rows', n) = upsert (find_where (in_window key start) rows) rows key start in
    (rows', or_one n)

unfoldable pub clear : Attempts → String → Attempts
clear rows key = delete_where (λ a. str_eq a.key key) rows

pub data Verdict : Type 0 where
  allowed too_many_attempts : Verdict

-- the loop of `guard`: every axis is counted, also after one is over
unfoldable pub guard_from : Bool → Attempts → List (String × Limit) → ℕ → Attempts × Bool
unfolding hit
guard_from over rows [] now = (rows, over)
guard_from over rows ((key, limit) ∷ keys) now =
    let (rows', n) = hit rows key limit now in
    guard_from (over || ltb limit.max_attempts n) rows' keys now

unfoldable pub guard : Attempts → List (String × Limit) → ℕ → Attempts × Verdict
unfolding guard_from
guard rows keys now =
    let (rows', over) = guard_from false rows keys now in
    (rows', if over then too_many_attempts else allowed)

-- AuthAttempt.window_start < now - SWEEP_AFTER
abbrev pub is_stale : ℕ → AuthAttempt → Bool
is_stale now a = ltb (a.window_start + sweep_after) now

unfoldable pub sweep : Attempts → ℕ → Attempts × ℕ
sweep rows now = (delete_where (is_stale now) rows, count_where (is_stale now) rows)

abbrev pub row_count : Option AuthAttempt → ℕ
row_count none = 0
row_count (some a) = a.count

unfoldable pub count_of : Attempts → String → Limit → ℕ → ℕ
unfolding start_of
count_of rows key limit now = row_count (find_where (in_window key (start_of limit now)) rows)

-- source_key and target_key; `digest` is the first 32 hex digits of SHA-256
unfoldable pub source_key : String → Option String → String
source_key kind ip = str_append kind (str_append ":src:" (or_text ip "unknown"))

unfoldable pub target_key : (String → String) → String → Option String → String → String
target_key digest kind ip target =
    str_append kind
      (str_append ":pair:" (str_append (or_text ip "unknown") (str_append ":" (digest target))))

-- `guard_attempts` of deps.py: its own transaction, committed only if the attempt is allowed
unfoldable pub guard_attempts : Attempts → List (String × Limit) → ℕ → Attempts × Verdict
unfolding guard
guard_attempts rows keys now =
    let (rows', verdict) = guard rows keys now in
    elim verdict [ allowed ↦ (rows', allowed) | too_many_attempts ↦ (rows, too_many_attempts) ]

-- `clear_attempts` of deps.py
unfoldable pub clear_attempts : Attempts → List String → Attempts
unfolding clear
clear_attempts rows [] = rows
clear_attempts rows (key ∷ keys) = clear_attempts (clear rows key) keys
