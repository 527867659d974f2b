-- ===== src/Quota/Ledger.antt =====
-- The ledger of processing: what a recording costs, and that deleting it gives nothing back.
use soriham_api.Prelude.{
  ℕ, ◌+◌, ◌*◌, ◌≤◌, ◌<◌, ◌≡◌, refl, none, some, List, [], ◌∷◌, ◌++◌, arith, ◌==◌, opt_eq, leb,
  if◌then◌else◌,
}
use soriham_api.Table.{find_where, sum_where, update_where, delete_where}
use soriham_api.Table.Rows.{sum_where-update_where, sum_where-append}
use soriham_api.Models.{Workspace, Recording, JobLog, Stage, LogStatus}
use soriham_api.Quota.{
  window, minute_ms, measure, counts_for, audio_of, transcription_block, check_minutes, block_in,
}

-- DELETE of a recording: its log rows stay and lose their reference (job_log.recording_id is
-- ON DELETE SET NULL)
unfoldable pub delete_recording : ℕ → List Recording → List Recording
delete_recording id recordings = delete_where (λ r. r.id == id) recordings

unfoldable pub detach_logs : ℕ → List JobLog → List JobLog
detach_logs id logs =
    update_where (λ l. opt_eq l.recording_id id) (λ l. record l { recording_id = none }) logs

-- Deleting a recording gives no transcription time back.
pub measure-delete_recording :
    (id : ℕ) (logs : List JobLog) (recordings : List Recording) (w : Workspace) (now : ℕ)
    → (measure (detach_logs id logs) (delete_recording id recordings) w now).used_ms
      ≡ (measure logs recordings w now).used_ms
unfolding measure detach_logs
measure-delete_recording id logs recordings w now =
    sum_where-update_where (counts_for w.id now) audio_of (λ l. opt_eq l.recording_id id)
      (λ l. record l { recording_id = none }) logs (λ l. refl) (λ l. refl)

-- the row that a finished transcription leaves
abbrev pub transcribed : ℕ → ℕ → ℕ → ℕ → JobLog
transcribed workspace_id recording_id started audio = record {
  workspace_id = workspace_id;
  recording_id = some recording_id;
  stage = Stage.transcribe;
  status = LogStatus.done;
  started_at = started;
  finished_at = none;
  audio_ms = some audio;
  elapsed_sec = none;
  device = none;
  model = none;
  error = none;
}

-- A finished transcription is charged to its own workspace in full for 30 days, and to no other.
pub measure-transcribed :
    (logs : List JobLog) (recordings : List Recording) (w : Workspace)
    (owner id started audio now : ℕ)
    → (measure (logs ++ transcribed owner id started audio ∷ []) recordings w now).used_ms
      ≡ (measure logs recordings w now).used_ms
        + (if owner == w.id then (if leb now (started + window) then audio else 0) else 0)
unfolding measure
measure-transcribed logs recordings w owner id started audio now =
    rw
      (sum_where-append (counts_for w.id now) audio_of logs
        (transcribed owner id started audio ∷ []))
      (unfold sum_where in ground arith)

-- Where a recording with a length is let through to the runner and charged that length at once, its
-- workspace is within its limit afterwards.
pub transcription_block-within :
    (workspaces : List Workspace) (logs : List JobLog) (recordings : List Recording) (r : Recording)
    (w : Workspace) (q d now : ℕ)
    → find_where (λ x. x.id == r.workspace_id) workspaces ≡ some w
    → w.quota_minutes ≡ some q
    → r.duration_ms ≡ some d
    → 0 < d
    → transcription_block workspaces logs recordings r now ≡ none
    → (measure (logs ++ transcribed w.id r.id now d ∷ []) recordings w now).used_ms ≤ q * minute_ms
unfolding transcription_block
transcription_block-within workspaces logs recordings r w q d now ew eq ed pos h =
    let passed : block_in logs recordings (some w) r.duration_ms now ≡ none = rw ew at h in
    let charged = measure-transcribed logs recordings w w.id r.id now d now in
    unfold check_minutes measure in ground arith
