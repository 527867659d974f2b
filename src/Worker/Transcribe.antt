-- ===== src/Worker/Transcribe.antt =====
-- transcribe_stage (worker.py): one call of the runner. What the files and the runner answer, and
-- what other processes commit during the call, are arguments (`Env`). A rollback keeps what was
-- committed before, so the handlers start from the tables as they stand after the call.
pub mod Outcomes
pub mod Effects
pub mod Stored
use soriham_api.Prelude.{
  ℕ, zero, suc, ◌+◌, ◌-◌, ◌*◌, max, String, str_append, Bool, true, false, ◌&&◌, not, Option, none,
  some, List, [], ◌∷◌, ◌++◌, ◌==◌, ltb, str_eq, get_or, or_text, is_some, is_none, opt_eq,
  if◌then◌else◌,
}
use soriham_api.Table.{find_where, update_where, delete_where}
use soriham_api.Models.{
  Recording, RecordingStatus, RecordingSource, Segment, SttMeta, JobLog, Stage, LogStatus,
}
use soriham_api.Files.{Signature}
use soriham_api.Worker.{Db}
use soriham_api.Worker.Source.{
  FileReads, Check, same, changed, unreadable, check_input, check_output,
}
use soriham_api.Worker.Write.{
  source_changed_prefix, diarize_error_prefix, Ending, completed, recording_changed,
  runner_unavailable, failed, has_id, write_recording, no_meta, log_row, add_log,
}

pub record RunnerSegment : Type 0 where
  pub start_ms : ℕ
  pub end_ms : ℕ
  pub speaker : Option String
  pub text : String
  pub words : Option (List String)
  pub kind : Option String

-- `segments` is missing where the runner's answer has not the expected form
pub record RunnerResult : Type 0 where
  pub segments : Option (List RunnerSegment)
  pub language : Option String
  pub meta : Option SttMeta

pub data Answer : Type 0 where
  result : RunnerResult → Answer
  unavailable : Answer
  timed_out : String → Answer
  broken : String → Answer

-- `is_storable` says whether the database accepts the texts of the runner at the last commit, of a
-- result or of an error: a NUL character, or a segment without a text, is refused there
pub record Env : Type 0 where
  pub started : ℕ
  pub ended : ℕ
  pub fresh_id : ℕ
  pub input : FileReads
  pub answer : Answer
  pub output : FileReads
  pub is_storable : Bool
  pub meanwhile : Db → Db

-- the first commit of the stage
unfoldable pub begun : ℕ → ℕ → Recording → Recording
begun fresh started r = record r {
  runner_request_id = some (get_or r.runner_request_id fresh);
  runner_started_at = if is_none r.runner_request_id then some started else r.runner_started_at;
  status = RecordingStatus.transcribing;
  stage_started_at = some started;
  progress = none;
}

abbrev pub is_current_request : ℕ → ℕ → Recording → Bool
is_current_request id request r = r.id == id && r.path_current && opt_eq r.runner_request_id request

-- _lock_current_request: the row, if this request is still the one that counts
unfoldable pub lock_current_request : Db → ℕ → ℕ → Option Recording
lock_current_request db id request = find_where (is_current_request id request) db.recordings

-- `seg.get("words") or None`, a word as its JSON text
abbrev pub non_empty : Option (List String) → Option (List String)
non_empty none = none
non_empty (some []) = none
non_empty (some (w ∷ ws)) = some (w ∷ ws)

abbrev pub to_segment : ℕ → ℕ → RunnerSegment → Segment
to_segment id idx s = record {
  recording_id = id;
  idx = idx;
  start_ms = s.start_ms;
  end_ms = s.end_ms;
  speaker_key = s.speaker;
  text = s.text;
  words = non_empty s.words;
  kind = or_text s.kind "speech";
}

-- `enumerate(result["segments"])`
unfoldable pub to_segments : ℕ → ℕ → List RunnerSegment → List Segment
to_segments id idx [] = []
to_segments id idx (s ∷ ss) = to_segment id idx s ∷ to_segments id (suc idx) ss

-- `max((seg["end"] for seg in segments), default=0.0)`
unfoldable pub last_end : List RunnerSegment → ℕ
last_end [] = 0
last_end (s ∷ ss) = max s.end_ms (last_end ss)

-- the length that the transcription reached counts, if it is more than the container says
unfoldable pub measured_duration : List RunnerSegment → Option ℕ → Option ℕ
unfolding last_end
measured_duration ss duration =
    if ltb (get_or duration 0) (last_end ss) then some (last_end ss) else duration

-- `if meta.get("diarize_error")`: the empty text counts as missing
abbrev pub diarize_warning : Option String → Option String
diarize_warning none = none
diarize_warning (some e) = if str_eq e "" then none else some (str_append diarize_error_prefix e)

unfoldable pub transcribed : Env → RunnerResult → List RunnerSegment → Recording → Recording
unfolding measured_duration
transcribed env res ss r = record r {
  language = res.language;
  stt_meta = some (get_or res.meta no_meta);
  duration_ms = measured_duration ss r.duration_ms;
  error = diarize_warning (get_or res.meta no_meta).diarize_error;
  status = RecordingStatus.summarizing;
  progress = none;
  stage_started_at = some env.ended;
  runner_request_id = none;
  runner_started_at = none;
}

-- the final commit: segments, recording and ledger together
unfoldable pub store_result : Env → Db → Recording → RunnerResult → List RunnerSegment → Db
unfolding transcribed to_segments log_row
store_result env db r res ss =
    add_log
      (write_recording r.id env.ended (transcribed env res ss) (record db {
        segments = delete_where (λ s. s.recording_id == r.id) db.segments ++ to_segments r.id 0 ss;
      }))
      (log_row db (transcribed env res ss r) Stage.transcribe LogStatus.done env.started env.ended
        (get_or res.meta no_meta) none)

-- the row that the handlers for a changed source, a timeout and other errors leave
abbrev pub failed_row : String → Recording → Recording
failed_row error r = record r {
  status = RecordingStatus.error;
  error = some error;
  progress = none;
  stage_started_at = none;
  runner_request_id = none;
  runner_started_at = none;
}

abbrev pub fail_with : Env → Db → Recording → String → String → Db
fail_with env db r text error =
    add_log (write_recording r.id env.ended (failed_row text) db)
      (log_row db r Stage.transcribe LogStatus.error env.started env.ended no_meta (some error))

-- `except RecordingChanged`
unfoldable pub on_changed : Env → Db → ℕ → ℕ → String → Db × Ending
unfolding lock_current_request log_row
on_changed env db id request error = elim (lock_current_request db id request) [
  | none ↦ (db, recording_changed)
  | some r ↦ (fail_with env db r (str_append source_changed_prefix error) error, recording_changed)
]

-- the row that goes back into the queue
abbrev pub waiting_row : Recording → Recording
waiting_row r = record r {
  status = RecordingStatus.pending;
  progress = none;
  stage_started_at = none;
}

-- `except RunnerUnavailable`
unfoldable pub on_unavailable : Env → Db → ℕ → ℕ → Db × Ending
unfolding lock_current_request
on_unavailable env db id request = elim (lock_current_request db id request) [
  | none ↦ (db, recording_changed)
  | some r ↦ (write_recording r.id env.ended waiting_row db, runner_unavailable)
]

-- `except RunnerJobTimedOut` and `except Exception`, which differ in what they raise
unfoldable pub on_error : Env → Db → ℕ → ℕ → String → Ending → Db × Ending
unfolding lock_current_request log_row
on_error env db id request error raised = elim (lock_current_request db id request) [
  | none ↦ (db, recording_changed)
  | some r ↦
      if env.is_storable
      then (fail_with env db r (str_append "stt: " error) error, raised)
      else (db, failed)
]

abbrev pub discarded : String
discarded = "파일 교체로 이전 요청의 결과를 폐기했습니다"

abbrev pub discarded_row : Env → Db → Recording → JobLog
discarded_row env db r =
    log_row db r Stage.transcribe LogStatus.error env.started env.ended no_meta (some discarded)

abbrev pub charged_row : Env → Db → Recording → RunnerResult → JobLog
charged_row env db r res =
    log_row db r Stage.transcribe LogStatus.done env.started env.ended (get_or res.meta no_meta)
      none

-- the result arrived for a request that no longer counts: the file was replaced, or the recording
-- was deleted, and then the runner's time is charged all the same
abbrev pub on_stale_result :
    Env → Db → Recording → ℕ → RunnerResult → Option Recording → Db × Ending
on_stale_result env db r request res (some now_there) =
    on_changed env (add_log db (discarded_row env db now_there)) r.id request discarded
on_stale_result env db r request res none =
    on_error env (add_log db (charged_row env db r res)) r.id request "전사 중 녹음이 삭제됐습니다" failed

abbrev pub on_segments :
    Env → Db → ℕ → Recording → ℕ → RunnerResult → Option (List RunnerSegment) → Db × Ending
on_segments env db id locked request res none = on_error env db id request "segments" failed
on_segments env db id locked request res (some ss) =
    if env.is_storable then (store_result env db locked res ss, completed) else (db, failed)

abbrev pub on_locked : Env → Db → Recording → ℕ → RunnerResult → Option Recording → Db × Ending
on_locked env db r request res none =
    on_stale_result env db r request res (find_where (has_id r.id) db.recordings)
on_locked env db r request res (some locked) =
    on_segments env db r.id locked request res res.segments

unfoldable pub on_result : Env → Db → Recording → ℕ → RunnerResult → Db × Ending
unfolding lock_current_request on_changed on_error store_result
on_result env db r request res =
    on_locked env db r request res (lock_current_request db r.id request)

abbrev pub after_output : Env → Db → Recording → ℕ → RunnerResult → Check → Db × Ending
after_output env db r request res (same s) = on_result env db r request res
after_output env db r request res changed =
    on_changed env db r.id request "전사 중 원본이 바뀌었습니다. 스캔으로 재확인하세요"
after_output env db r request res unreadable = on_error env db r.id request "OSError" failed

-- `input` is the signature that was checked, if the recording was scanned
abbrev pub on_answer : Env → Db → Recording → ℕ → Option Signature → Answer → Db × Ending
on_answer env db r request (some s) (result res) =
    after_output env db r request res (check_output s r.content_hash env.output)
on_answer env db r request none (result res) = on_result env db r request res
on_answer env db r request input unavailable = on_unavailable env db r.id request
on_answer env db r request input (timed_out e) = on_error env db r.id request e runner_unavailable
on_answer env db r request input (broken e) = on_error env db r.id request e failed

abbrev pub after_input : Env → Db → Recording → ℕ → Check → Db × Ending
after_input env db r request (same s) = on_answer env db r request (some s) env.answer
after_input env db r request changed =
    on_changed env db r.id request "등록한 원본과 현재 파일이 다릅니다. 스캔으로 재확인하세요"
after_input env db r request unreadable = on_error env db r.id request "OSError" failed

abbrev pub check_source : Env → Db → Recording → ℕ → RecordingSource → Db × Ending
check_source env db r request RecordingSource.scan =
    after_input env db r request (check_input r.content_hash env.input)
check_source env db r request RecordingSource.upload = on_answer env db r request none env.answer

-- the tables when the call is over
unfoldable pub after_call : Env → Db → Recording → Db
unfolding begun
after_call env db r =
    env.meanwhile (write_recording r.id env.started (begun env.fresh_id env.started) db)

abbrev pub request_of : Env → Recording → ℕ
request_of env r = get_or r.runner_request_id env.fresh_id

unfoldable pub transcribe_stage : Env → Db → Recording → Db × Ending
unfolding after_call on_result on_changed on_error on_unavailable check_input check_output
transcribe_stage env db r = check_source env (after_call env db r) r (request_of env r) r.source
