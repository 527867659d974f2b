-- ===== src/RateLimit/Counting.antt =====
-- `hit` counts one attempt, in its own key and window, and nothing else.
use soriham_api.Prelude.{
  ℕ, ◌+◌, ◌≡◌, ◌≢◌, String, true, false, ◌⊎◌, inl, inr, arith, str_eq, eq_iff, str_eq_refl, refl,
  Option-cases,
}
use soriham_api.Table.{find_where}
use soriham_api.Table.Find.{
  find_where-insert_self, find_where-insert_ne, find_where-update_where_self,
  find_where-update_where_ne, find_where-delete_where_none, find_where-delete_where,
}
use soriham_api.Models.{AuthAttempt}
use soriham_api.RateLimit.{Attempts, Limit, start_of, in_window, bump, hit, clear, count_of}

abbrev first_attempt : String → ℕ → AuthAttempt
first_attempt key start = record { key = key; window_start = start; count = 1 }

in_window-first : (key : String) (start : ℕ) → in_window key start (first_attempt key start) ≡ true
in_window-first key start = ground (arith, str_eq_refl key)

-- two windows that differ in key or start have no row in common
windows_disjoint :
    (key other : String) (start from : ℕ)
    → (key ≢ other) ⊎ (start ≢ from)
    → (a : AuthAttempt) → in_window key start a ≡ true
    → in_window other from a ≡ false
windows_disjoint key other start from (inl ne) a h =
    ground (arith, eq_iff a.key key, eq_iff a.key other, λ (e : key ≡ other). ne e)
windows_disjoint key other start from (inr ne) a h = ground arith

module _ (rows : Attempts) (key : String) (limit : Limit) (now : ℕ) where
  -- A hit returns one more than the count before it, and leaves that as the count of its window.
  pub hit-count_of :
      ((hit rows key limit now).1 ≡ count_of rows key limit now + 1)
      × (count_of (hit rows key limit now).0 key limit now ≡ count_of rows key limit now + 1)
  unfolding hit count_of
  hit-count_of = elim (Option-cases (find_where (in_window key (start_of limit now)) rows)) [
    | inl e ↦ rw e (
      omega arith,
      rw
          (find_where-insert_self (in_window key (start_of limit now)) rows
            (first_attempt key (start_of limit now)) e (in_window-first key (start_of limit now)))
          (omega arith),
    )
    | inr (a, e) ↦ rw e (
      ground arith,
      rw
          (
            find_where-update_where_self (in_window key (start_of limit now)) bump rows (λ x. refl),
            e,
          )
          (omega arith),
    )
  ]

  -- A hit leaves the count of every other key, and of every other window, as it was.
  pub hit-count_of_ne :
      (other : String) (limit' : Limit) (then' : ℕ)
      → (key ≢ other) ⊎ (start_of limit now ≢ start_of limit' then')
      → count_of (hit rows key limit now).0 other limit' then' ≡ count_of rows other limit' then'
  unfolding hit count_of
  hit-count_of_ne other limit' then' ne =
      elim (Option-cases (find_where (in_window key (start_of limit now)) rows)) [
        | inl e ↦ rw e (
            rw (
              find_where-insert_ne (in_window other (start_of limit' then')) rows
                (first_attempt key (start_of limit now))
                (windows_disjoint key other _ _ ne (first_attempt key (start_of limit now))
                  (in_window-first key (start_of limit now)))))
        | inr (a, e) ↦ rw e (
            rw (
              find_where-update_where_ne (in_window other (start_of limit' then'))
                (in_window key (start_of limit now)) bump rows (λ x. refl)
                (windows_disjoint key other _ _ ne)))
      ]

  -- `clear` forgets every window of its key and touches no other key.
  pub clear-count_of :
      (other : String)
      → (count_of (clear rows key) key limit now ≡ 0)
        × (key ≢ other → count_of (clear rows key) other limit now ≡ count_of rows other limit now)
  unfolding clear count_of
  clear-count_of other = (
    rw
        (find_where-delete_where_none (in_window key (start_of limit now))
          (λ (a : AuthAttempt). str_eq a.key key) rows (λ a h. ground arith))
        (omega arith),
    λ ne. rw (
        find_where-delete_where (in_window other (start_of limit now))
          (λ (a : AuthAttempt). str_eq a.key key) rows
          (λ a h. ground (arith, eq_iff a.key key, eq_iff a.key other, λ (e : key ≡ other). ne e))),
  )
