-- ===== src/Worker/Transcribe/Effects.antt =====
-- What a transcription stage leaves in the tables.
use soriham_api.Prelude.{ℕ, ◌≡◌, ◌≢◌, refl, true, false, none, some, List, arith}
use soriham_api.Table.{All}
use soriham_api.Table.Find.{find_where-Row}
use soriham_api.Table.Rows.{All-update_where_new}
use soriham_api.Models.{Recording}
use soriham_api.Worker.{Db, is_in_flight, IsSettled}
use soriham_api.Worker.Write.{
  Ending, completed, recording_changed, runner_unavailable, failed, write_recording, has_id,
}
use soriham_api.Worker.Transcribe.{
  Env, result, RunnerResult, RunnerSegment, lock_current_request, store_result, after_call,
  request_of, transcribe_stage, is_current_request, failed_row, waiting_row,
}
use soriham_api.Worker.Transcribe.Outcomes.{
  Outcome, stale, errored, unstored, requeued, stored, transcribe_stage-Outcome,
}

lock-id :
    (db : Db) (id request : ℕ) (l : Recording)
    → lock_current_request db id request ≡ some l
    → l.id ≡ id
unfolding lock_current_request
lock-id db id request l e =
    let here = (find_where-Row (is_current_request id request) db.recordings l e).1 in ground arith

pub write_recording-All :
    (P : Recording → Type 0) (id now : ℕ) (f : Recording → Recording) (db : Db)
    → ((r : Recording) → P (record (f r) { updated_at = now }))
    → All (λ x. x.id ≡ id → P x) (write_recording id now f db).recordings
write_recording-All P id now f db hit =
    All-update_where_new (λ x. x.id ≡ id → P x) (has_id id) (λ r. record (f r) { updated_at = now })
      db.recordings (λ x _ _. hit x) (λ x miss same. elim (false_ne_true x miss same) [ ])
  where
    false_ne_true : (x : Recording) → has_id id x ≡ false → x.id ≡ id → ⊥
    false_ne_true x miss same = ground arith

module _ (env : Env) (db : Db) (id request : ℕ) (out : Db × Ending) where
  Outcome-no_partial :
      Outcome env db id request out → out.1 ≢ completed → out.0.segments ≡ db.segments
  Outcome-no_partial (stale logs e o) ne = rw o refl
  Outcome-no_partial (errored l text error way e nc o) ne = rw o refl
  Outcome-no_partial (requeued l e asked o) ne = rw o refl
  Outcome-no_partial (unstored l e refused o) ne = rw o refl
  Outcome-no_partial (stored l res ss e asked f o) ne = elim (ne (rw o refl)) [ ]

  Outcome-superseded :
      Outcome env db id request out
      → lock_current_request db id request ≡ none
      → (out.1 ≡ recording_changed)
        × (out.0.recordings ≡ db.recordings)
        × (out.0.segments ≡ db.segments)
  Outcome-superseded (stale logs e o) gone = (rw o refl, rw o refl, rw o refl)
  Outcome-superseded (errored l text error way e nc o) gone = cc
  Outcome-superseded (requeued l e asked o) gone = cc
  Outcome-superseded (unstored l e refused o) gone = cc
  Outcome-superseded (stored l res ss e asked f o) gone = cc

  Outcome-IsSettled :
      (r : Recording)
      → Outcome env db id request out
      → lock_current_request db id request ≡ some r
      → env.is_storable ≡ true
      → out.1 ≢ completed
      → IsSettled id out.0
  Outcome-IsSettled r (stale logs e o) there ok ne = cc
  Outcome-IsSettled r (errored l text error way e nc o) there ok ne = rw o (
      rw (lock-id db id request l e) (
        write_recording-All (λ x. is_in_flight x.status ≡ false) id env.ended (failed_row text) db
          (λ x. refl)))
  Outcome-IsSettled r (requeued l e asked o) there ok ne = rw o (
      rw (lock-id db id request l e) (
        write_recording-All (λ x. is_in_flight x.status ≡ false) id env.ended waiting_row db
          (λ x. refl)))
  Outcome-IsSettled r (unstored l e refused o) there ok ne = cc
  Outcome-IsSettled r (stored l res ss e asked f o) there ok ne = elim (ne (rw o refl)) [ ]

  -- what completed has stored a result, and that of the runner
  abbrev pub Stored : Type 0
  Stored =
      (l : Recording) × (res : RunnerResult) × (ss : List RunnerSegment) × (l.id ≡ id)
      × (env.answer ≡ result res)
      × (res.segments ≡ some ss)
      × (out.0 ≡ store_result env db l res ss)

  pub Outcome-completed : Outcome env db id request out → out.1 ≡ completed → Stored
  Outcome-completed (stale logs e o) c = let b : recording_changed ≡ completed = rw o at c in cc
  Outcome-completed (errored l text error way e nc o) c =
      let b : way ≡ completed = rw o at c in elim (nc b) [ ]
  Outcome-completed (unstored l e refused o) c = let b : failed ≡ completed = rw o at c in cc
  Outcome-completed (requeued l e a o) c = let b : runner_unavailable ≡ completed = rw o at c in cc
  Outcome-completed (stored l res ss e asked f o) c =
      (l, res, ss, lock-id db id request l e, asked, f, rw o refl)

-- A stage that does not complete, whatever stopped it, leaves the segments as they stood after the
-- call: a result is stored whole or not at all.
pub transcribe_stage-no_partial :
    (env : Env) (db : Db) (r : Recording)
    → (transcribe_stage env db r).1 ≢ completed
    → (transcribe_stage env db r).0.segments ≡ (after_call env db r).segments
transcribe_stage-no_partial env db r =
    Outcome-no_partial env (after_call env db r) r.id (request_of env r) (transcribe_stage env db r)
      (transcribe_stage-Outcome env db r)

-- If the file was replaced or deleted during the call, so that the request no longer counts, the
-- stage ends as changed and leaves recordings and segments as they stood after the call.
pub transcribe_stage-superseded :
    (env : Env) (db : Db) (r : Recording)
    → lock_current_request (after_call env db r) r.id (request_of env r) ≡ none
    → ((transcribe_stage env db r).1 ≡ recording_changed)
      × ((transcribe_stage env db r).0.recordings ≡ (after_call env db r).recordings)
      × ((transcribe_stage env db r).0.segments ≡ (after_call env db r).segments)
transcribe_stage-superseded env db r =
    Outcome-superseded env (after_call env db r) r.id (request_of env r) (transcribe_stage env db r)
      (transcribe_stage-Outcome env db r)

-- If the request still counts after the call and the stage does not complete, no row under the
-- recording's id is in flight, provided that the database accepts the texts of the runner.
pub transcribe_stage-IsSettled :
    (env : Env) (db : Db) (r l : Recording)
    → lock_current_request (after_call env db r) r.id (request_of env r) ≡ some l
    → env.is_storable ≡ true
    → (transcribe_stage env db r).1 ≢ completed
    → IsSettled r.id (transcribe_stage env db r).0
transcribe_stage-IsSettled env db r l =
    Outcome-IsSettled env (after_call env db r) r.id (request_of env r) (transcribe_stage env db r)
      l (transcribe_stage-Outcome env db r)
