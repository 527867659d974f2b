-- ===== src/Worker/Loop.antt =====
-- idle_maintenance and the loop of run_worker (worker.py). The pauses are values; a failure of the
-- database itself is not modelled.
use soriham_api.Prelude.{
  ℕ, ◌+◌, ◌<◌, leb, List, [], ◌∷◌, arith, Bool-cases, inl, inr, if◌then◌else◌,
}
use soriham_api.Auth.{Sessions, sweep_sessions}
use soriham_api.RateLimit.{Attempts, sweep}
use soriham_api.Worker.{Db, maintenance_every}
use soriham_api.Worker.Recovery.{recover_in_flight, release_quota_blocked}
use soriham_api.Worker.Process.{Turn, idle, worked, runner_away, Turns, process_one}

pub record Tables : Type 0 where
  pub queue : Db
  pub sessions : Sessions
  pub attempts : Attempts

unfoldable pub idle_maintenance : Tables → ℕ → Tables
unfolding recover_in_flight release_quota_blocked sweep_sessions sweep
idle_maintenance t now = record {
  queue = (release_quota_blocked (recover_in_flight t.queue now).0 now).0;
  sessions = (sweep_sessions t.sessions now).0;
  attempts = (sweep t.attempts now).0;
}

-- what the loop carries from turn to turn, and how many idle intervals it sleeps
pub record Loop : Type 0 where
  pub tables : Tables
  pub since_maintenance : ℕ
  pub pause : ℕ

unfoldable pub after_turn : Tables → ℕ → ℕ → Turn → Loop
unfolding idle_maintenance
after_turn t since now idle = record {
  tables = idle_maintenance t now;
  since_maintenance = 0;
  pause = 1;
}
after_turn t since now worked =
    if leb maintenance_every (since + 1)
    then record { tables = idle_maintenance t now; since_maintenance = 0; pause = 0 }
    else record { tables = t; since_maintenance = since + 1; pause = 0 }
after_turn t since now runner_away = record { tables = t; since_maintenance = since; pause = 4 }

abbrev pub run_turn : Loop → Turns → ℕ → Loop
run_turn l t now =
    let done = process_one t l.tables.queue in
    after_turn (record l.tables { queue = done.0 }) l.since_maintenance now done.1

-- the loop, on the list of what each turn meets and the instant of its end
unfoldable pub run_turns : Loop → List (Turns × ℕ) → Loop
unfolding after_turn process_one
run_turns l [] = l
run_turns l ((t, now) ∷ rest) = run_turns (run_turn l t now) rest

after_turn-lt :
    (t : Tables) (since now : ℕ) (w : Turn)
    → since < maintenance_every
    → (after_turn t since now w).since_maintenance < maintenance_every
unfolding after_turn
after_turn-lt t since now idle h = omega arith
after_turn-lt t since now worked h = elim (Bool-cases (leb maintenance_every (since + 1))) [
  | inl e ↦ rw e (omega arith)
  | inr e ↦ rw e (ground arith)
]
after_turn-lt t since now runner_away h = h

-- Fewer than maintenance_every turns ever lie between one maintenance and the next.
pub run_turns-maintained :
    (l : Loop) (turns : List (Turns × ℕ))
    → l.since_maintenance < maintenance_every
    → (run_turns l turns).since_maintenance < maintenance_every
unfolding run_turns
run_turns-maintained l [] h = h
run_turns-maintained l ((t, now) ∷ rest) h = run_turns-maintained (run_turn l t now) rest (
    after_turn-lt (record l.tables { queue = (process_one t l.tables.queue).0 }) l.since_maintenance
      now (process_one t l.tables.queue).1 h)
