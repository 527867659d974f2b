-- ===== src/Worker/Transcribe/Outcomes.antt =====
-- Every way that a stage can end is one of five.
use soriham_api.Prelude.{
  ℕ, ◌≡◌, ◌≢◌, refl, String, Option, none, some, List, [], ◌∷◌, ◌++◌, arith, Option-cases,
  Bool-cases, false, inl, inr, str_append,
}
use soriham_api.Table.{find_where}
use soriham_api.Models.{Recording, RecordingSource, JobLog}
use soriham_api.Files.{Signature}
use soriham_api.Worker.{Db}
use soriham_api.Worker.Source.{Check, same, changed, unreadable, check_input, check_output}
use soriham_api.Worker.Write.{
  Ending, completed, recording_changed, runner_unavailable, failed, write_recording, has_id,
  source_changed_prefix,
}
use soriham_api.Worker.Transcribe.{
  Env, Answer, result, unavailable, timed_out, broken, RunnerResult, RunnerSegment,
  lock_current_request, fail_with, waiting_row, store_result, on_changed, on_unavailable, on_error,
  on_result, on_locked, on_stale_result, on_segments, after_output, on_answer, after_input,
  check_source, after_call, request_of, transcribe_stage, charged_row, discarded_row,
}

-- `db` holds the tables when the call is over, and `id` and `request` name the request.
pub data Outcome (env : Env) (db : Db) (id request : ℕ) (out : Db × Ending) : Type 0 where
  -- the request no longer counts: nothing is written but the ledger
  stale :
      (logs : List JobLog)
      → lock_current_request db id request ≡ none
      → out ≡ (record db { logs = logs }, recording_changed)
      → Outcome env db id request out
  -- an error is recorded on the recording
  errored :
      (r : Recording) (text error : String) (raised : Ending)
      → lock_current_request db id request ≡ some r
      → raised ≢ completed
      → out ≡ (fail_with env db r text error, raised)
      → Outcome env db id request out
  -- the database refuses the last commit: nothing is written
  unstored :
      (r : Recording)
      → lock_current_request db id request ≡ some r
      → env.is_storable ≡ false
      → out ≡ (db, failed)
      → Outcome env db id request out
  -- the runner was not reached: the recording waits again
  requeued :
      (r : Recording)
      → lock_current_request db id request ≡ some r
      → env.answer ≡ unavailable
      → out ≡ (write_recording r.id env.ended waiting_row db, runner_unavailable)
      → Outcome env db id request out
  -- the result is stored
  stored :
      (r : Recording) (res : RunnerResult) (ss : List RunnerSegment)
      → lock_current_request db id request ≡ some r
      → env.answer ≡ result res
      → res.segments ≡ some ss
      → out ≡ (store_result env db r res ss, completed)
      → Outcome env db id request out

module _ (env : Env) (db : Db) (r : Recording) (request : ℕ) where
  abbrev Ends : Db × Ending → Type 0
  Ends = Outcome env db r.id request

  on_changed-Outcome : (error : String) → Ends (on_changed env db r.id request error)
  unfolding on_changed
  on_changed-Outcome error = elim (Option-cases (lock_current_request db r.id request)) [
    | inl e ↦ stale db.logs e (ground arith)
    | inr (l, e) ↦
        errored l (str_append source_changed_prefix error) error recording_changed e (λ x. cc)
          (ground arith)
  ]

  on_error-Outcome :
      (error : String) (raised : Ending)
      → raised ≢ completed
      → Ends (on_error env db r.id request error raised)
  unfolding on_error
  on_error-Outcome error raised ne = elim (Option-cases (lock_current_request db r.id request)) [
    | inl e ↦ stale db.logs e (ground arith)
    | inr (l, e) ↦ elim (Bool-cases env.is_storable) [
      | inl ok ↦ errored l (str_append "stt: " error) error raised e ne (ground arith)
      | inr refused ↦ unstored l e refused (ground arith)
    ]
  ]

  on_unavailable-Outcome : env.answer ≡ unavailable → Ends (on_unavailable env db r.id request)
  unfolding on_unavailable
  on_unavailable-Outcome asked = elim (Option-cases (lock_current_request db r.id request)) [
    | inl e ↦ stale db.logs e (ground arith)
    | inr (l, e) ↦ requeued l e asked (ground arith)
  ]

  -- a request that no longer counts still does not after a line in the ledger
  on_stale_result-Outcome :
      (res : RunnerResult) (there : Option Recording)
      → lock_current_request db r.id request ≡ none
      → Ends (on_stale_result env db r request res there)
  unfolding on_changed on_error lock_current_request
  on_stale_result-Outcome res none e =
      stale (db.logs ++ charged_row env db r res ∷ []) e (ground arith)
  on_stale_result-Outcome res (some x) e =
      stale (db.logs ++ discarded_row env db x ∷ []) e (ground arith)

  on_segments-Outcome :
      (res : RunnerResult) (l : Recording) (ss : Option (List RunnerSegment))
      → lock_current_request db r.id request ≡ some l
      → env.answer ≡ result res
      → res.segments ≡ ss
      → Ends (on_segments env db r.id l request res ss)
  on_segments-Outcome res l none e asked f = on_error-Outcome "segments" failed (λ x. cc)
  on_segments-Outcome res l (some ss) e asked f = elim (Bool-cases env.is_storable) [
    | inl ok ↦ stored l res ss e asked f (rw ok refl)
    | inr refused ↦ unstored l e refused (rw refused refl)
  ]

  on_locked-Outcome :
      (res : RunnerResult) (l : Option Recording)
      → lock_current_request db r.id request ≡ l
      → env.answer ≡ result res
      → Ends (on_locked env db r request res l)
  on_locked-Outcome res none e asked =
      on_stale_result-Outcome res (find_where (has_id r.id) db.recordings) e
  on_locked-Outcome res (some l) e asked = on_segments-Outcome res l res.segments e asked refl

  on_result-Outcome :
      (res : RunnerResult) → env.answer ≡ result res → Ends (on_result env db r request res)
  unfolding on_result
  on_result-Outcome res = on_locked-Outcome res (lock_current_request db r.id request) refl

  after_output-Outcome :
      (res : RunnerResult) (c : Check)
      → env.answer ≡ result res
      → Ends (after_output env db r request res c)
  after_output-Outcome res (same s) asked = on_result-Outcome res asked
  after_output-Outcome res changed asked = on_changed-Outcome _
  after_output-Outcome res unreadable asked = on_error-Outcome "OSError" failed (λ x. cc)

  on_answer-Outcome :
      (input : Option Signature) (a : Answer)
      → env.answer ≡ a
      → Ends (on_answer env db r request input a)
  on_answer-Outcome (some s) (result res) e =
      after_output-Outcome res (check_output s r.content_hash env.output) e
  on_answer-Outcome none (result res) e = on_result-Outcome res e
  on_answer-Outcome none unavailable e = on_unavailable-Outcome e
  on_answer-Outcome (some s) unavailable e = on_unavailable-Outcome e
  on_answer-Outcome none (timed_out t) e = on_error-Outcome t runner_unavailable (λ x. cc)
  on_answer-Outcome (some s) (timed_out t) e = on_error-Outcome t runner_unavailable (λ x. cc)
  on_answer-Outcome none (broken t) e = on_error-Outcome t failed (λ x. cc)
  on_answer-Outcome (some s) (broken t) e = on_error-Outcome t failed (λ x. cc)

  after_input-Outcome : (c : Check) → Ends (after_input env db r request c)
  after_input-Outcome (same s) = on_answer-Outcome (some s) env.answer refl
  after_input-Outcome changed = on_changed-Outcome _
  after_input-Outcome unreadable = on_error-Outcome "OSError" failed (λ x. cc)

  check_source-Outcome : (s : RecordingSource) → Ends (check_source env db r request s)
  check_source-Outcome RecordingSource.scan =
      after_input-Outcome (check_input r.content_hash env.input)
  check_source-Outcome RecordingSource.upload = on_answer-Outcome none env.answer refl

-- A transcription stage ends in one of five ways.
pub transcribe_stage-Outcome :
    (env : Env) (db : Db) (r : Recording)
    → Outcome env (after_call env db r) r.id (request_of env r) (transcribe_stage env db r)
unfolding transcribe_stage
transcribe_stage-Outcome env db r =
    check_source-Outcome env (after_call env db r) r (request_of env r) r.source
