-- ===== src/RateLimit/Sweeping.antt =====
-- Sweeping removes rows of past windows only.
use soriham_api.Prelude.{ℕ, ◌+◌, ◌≤◌, ◌<◌, ◌≡◌, String, arith, length}
use soriham_api.Table.Rows.{length-delete_where}
use soriham_api.Table.Find.{find_where-delete_where}
use soriham_api.RateLimit.{
  Attempts, Limit, start_of, sweep_after, in_window, is_stale, sweep, count_of,
}

start_of-recent :
    (limit : Limit) (now : ℕ)
    → 0 < limit.window
    → limit.window ≤ sweep_after
    → now < start_of limit now + sweep_after
unfolding start_of
start_of-recent limit now pos le = grind arith

-- `sweep` never changes a count that a limit still reads (its window is positive and at most four
-- windows long), and it reports how many rows it removed.
pub sweep-count_of :
    (rows : Attempts) (key : String) (limit : Limit) (now : ℕ)
    → 0 < limit.window
    → limit.window ≤ sweep_after
    → (count_of (sweep rows now).0 key limit now ≡ count_of rows key limit now)
      × (length (sweep rows now).0 + (sweep rows now).1 ≡ length rows)
unfolding sweep count_of
sweep-count_of rows key limit now pos le = (
  rw (
      find_where-delete_where (in_window key (start_of limit now)) (is_stale now) rows
        (λ a h. ground (arith, start_of-recent limit now pos le))),
  length-delete_where (is_stale now) rows,
)
