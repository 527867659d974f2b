-- ===== src/RateLimit/Blocking.antt =====
-- When an attempt is blocked: exactly when one of its axes is over its limit, and on one axis
-- exactly after the permitted number of attempts in the window.
use soriham_api.Prelude.{
  ℕ, ◌+◌, ◌≤◌, min, ◌≡◌, ◌≢◌, refl, ◌∙◌, String, Bool, true, false, ◌||◌, inl, List, [], ◌∷◌, arith,
  ltb, if◌then◌else◌, length,
}
use soriham_api.Table.{All}
use soriham_api.RateLimit.{
  Attempts, Limit, start_of, hit, guard_from, guard, guard_attempts, count_of, allowed,
  too_many_attempts,
}
use soriham_api.RateLimit.Counting.{hit-count_of, hit-count_of_ne}

-- some axis has already used up its attempts in the window of `now`
abbrev pub over_limit : Attempts → List (String × Limit) → ℕ → Bool
over_limit rows [] now = false
over_limit rows ((key, limit) ∷ keys) now =
    ltb limit.max_attempts (count_of rows key limit now + 1) || over_limit rows keys now

abbrev pub DistinctKeys : List (String × Limit) → Type 0
DistinctKeys [] = Unit
DistinctKeys ((key, limit) ∷ keys) = All (λ k. key ≢ k.0) keys × DistinctKeys keys

over_limit-hit :
    (rows : Attempts) (key : String) (limit : Limit) (now : ℕ) (keys : List (String × Limit))
    → All (λ k. key ≢ k.0) keys
    → over_limit (hit rows key limit now).0 keys now ≡ over_limit rows keys now
over_limit-hit rows key limit now [] ne = refl
over_limit-hit rows key limit now ((other, l) ∷ keys) ne = rw (
  hit-count_of_ne rows key limit now other l now (inl ne.0),
  over_limit-hit rows key limit now keys ne.1,
)

or_assoc : (a b c : Bool) → (a || b) || c ≡ a || (b || c)
or_assoc true b c = refl
or_assoc false b c = refl

guard_from-over_limit :
    (over : Bool) (rows : Attempts) (keys : List (String × Limit)) (now : ℕ)
    → DistinctKeys keys
    → (guard_from over rows keys now).1 ≡ over || over_limit rows keys now
unfolding guard_from
guard_from-over_limit true rows [] now d = refl
guard_from-over_limit false rows [] now d = refl
guard_from-over_limit over rows ((key, limit) ∷ keys) now d =
    guard_from-over_limit (over || ltb limit.max_attempts (hit rows key limit now).1)
      (hit rows key limit now).0 keys now d.1
    ∙ rw ((hit-count_of rows key limit now).0, over_limit-hit rows key limit now keys d.0)
        (or_assoc over _ _)

-- On distinct axes `guard` blocks exactly when one of them already has its permitted number of
-- attempts in its window before the call, whatever the order of the axes.
pub guard_exact :
    (rows : Attempts) (keys : List (String × Limit)) (now : ℕ)
    → DistinctKeys keys
    → (guard rows keys now).1 ≡ (if over_limit rows keys now then too_many_attempts else allowed)
unfolding guard
guard_exact rows keys now d = rw (guard_from-over_limit false rows keys now d)

module _ (key : String) (limit : Limit) where
  -- one attempt after another on a single axis, at the given instants
  unfoldable pub attempts_at : Attempts → List ℕ → Attempts
  attempts_at rows [] = rows
  attempts_at rows (t ∷ ts) = attempts_at (guard_attempts rows ((key, limit) ∷ []) t).0 ts

  count_of-same_window :
      (rows : Attempts) (t now : ℕ)
      → start_of limit t ≡ start_of limit now
      → count_of rows key limit t ≡ count_of rows key limit now
  unfolding count_of
  count_of-same_window rows t now e = rw e

  guard_attempts-one :
      (rows : Attempts) (t : ℕ)
      → ((guard_attempts rows ((key, limit) ∷ []) t).1 ≡ (
          if ltb limit.max_attempts (count_of rows key limit t + 1)
          then too_many_attempts
          else allowed))
        × (count_of (guard_attempts rows ((key, limit) ∷ []) t).0 key limit t ≡ (
            if ltb limit.max_attempts (count_of rows key limit t + 1)
            then count_of rows key limit t
            else count_of rows key limit t + 1))
  unfolding guard_attempts
  guard_attempts-one rows t = ground (arith, hit-count_of rows key limit t)

  attempts_at-count_of :
      (rows : Attempts) (ts : List ℕ) (now : ℕ)
      → All (λ t. start_of limit t ≡ start_of limit now) ts
      → count_of rows key limit now ≤ limit.max_attempts
      → count_of (attempts_at rows ts) key limit now
        ≡ min limit.max_attempts (count_of rows key limit now + length ts)
  unfolding attempts_at
  attempts_at-count_of rows [] now h le = omega arith
  attempts_at-count_of rows (t ∷ ts) now (e, h) le =
      let rows' = (guard_attempts rows ((key, limit) ∷ []) t).0 in
      let before : count_of rows key limit t ≡ count_of rows key limit now =
        count_of-same_window rows t now e in
      let after : count_of rows' key limit t ≡ count_of rows' key limit now =
        count_of-same_window rows' t now e in
      let step = (guard_attempts-one rows t).1 in
      let room : count_of rows' key limit now ≤ limit.max_attempts = ground arith in
      attempts_at-count_of rows' ts now h room ∙ ground arith

  -- On one axis with room in its window, after any number of attempts at instants of that window
  -- the next one is allowed exactly when fewer than `max_attempts` have been counted and made, and
  -- the stored count never passes the limit.
  pub lockout_exact :
      (rows : Attempts) (ts : List ℕ) (now : ℕ)
      → All (λ t. start_of limit t ≡ start_of limit now) ts
      → count_of rows key limit now ≤ limit.max_attempts
      → ((guard_attempts (attempts_at rows ts) ((key, limit) ∷ []) now).1 ≡ (
          if ltb (count_of rows key limit now + length ts) limit.max_attempts
          then allowed
          else too_many_attempts))
        × (count_of (attempts_at rows ts) key limit now ≤ limit.max_attempts)
  lockout_exact rows ts now h le =
      let n = attempts_at-count_of rows ts now h le in
      let step = (guard_attempts-one (attempts_at rows ts) now).0 in (ground arith, omega arith)
