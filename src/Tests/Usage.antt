-- ===== src/Tests/Usage.antt =====
-- quota.py: a workspace with a limit of ten minutes, nine of them used.
use soriham_api.Prelude.{
  ℕ, ◌+◌, ◌*◌, ◌≤◌, ◌≡◌, ◌↔◌, ◌⊎◌, refl, true, none, some, List, [], ◌∷◌, ◌++◌, arith,
}
use soriham_api.Table.{find_where, sum_where}
use soriham_api.Models.{
  Workspace, WorkspaceKind, Recording, RecordingStatus, RecordingSource, JobLog,
}
use soriham_api.Quota.{Usage, measure, minute_ms, check_storage, transcription_block}
use soriham_api.Quota.Limits.{check_storage_exact}
use soriham_api.Quota.Ledger.{
  delete_recording, detach_logs, transcribed, measure-delete_recording, transcription_block-within,
}

abbrev home : Workspace
home = record {
  id = 10;
  public_id = 501;
  slug = "home";
  name = "home";
  kind = WorkspaceKind.personal;
  last_claimed_at = none;
  quota_minutes = some 10;
  quota_bytes = some 1000000;
}

abbrev logs : List JobLog
logs = transcribed 10 100 5000 540000 ∷ transcribed 11 200 5000 60000 ∷ []

abbrev memo : Recording
memo = record {
  id = 101;
  public_id = 70101;
  workspace_id = 10;
  created_by_user_id = none;
  source = RecordingSource.upload;
  path = "/data/w/b.m4a";
  path_current = true;
  file_signature = none;
  filename = "b.m4a";
  size_bytes = 4096;
  partial_hash = "p";
  content_hash = some "beef";
  recorded_at = none;
  duration_ms = some 60000;
  language = none;
  title = none;
  summary = none;
  status = RecordingStatus.pending;
  error = none;
  stt_meta = none;
  runner_request_id = none;
  runner_started_at = none;
  progress = none;
  stage_started_at = none;
  duplicate_of_id = none;
  updated_at = 6000;
}

abbrev usage : Usage
usage = record {
  used_ms = 540000;
  quota_minutes = some 10;
  used_bytes = 4096;
  quota_bytes = some 1000000;
}

measured : measure logs (memo ∷ []) home 6000 ≡ usage
unfolding measure sum_where
measured = refl

check_storage_exact_example :
    check_storage usage 995904 ≡ none ↔ ((◌≡◌ {A = ℕ} 995904 0) ⊎ (4096 + 995904 ≤ 1000000))
check_storage_exact_example = check_storage_exact usage 995904 1000000 refl

measure-delete_recording_example :
    (measure (detach_logs 100 logs) (delete_recording 100 (memo ∷ [])) home 6000).used_ms
    ≡ (measure logs (memo ∷ []) home 6000).used_ms
measure-delete_recording_example = measure-delete_recording 100 logs (memo ∷ []) home 6000

transcription_block-within_example :
    (measure (logs ++ transcribed 10 101 6000 60000 ∷ []) (memo ∷ []) home 6000).used_ms
    ≤ 10 * minute_ms
unfolding transcription_block find_where sum_where
transcription_block-within_example =
    transcription_block-within (home ∷ []) logs (memo ∷ []) memo home 10 60000 6000 refl refl refl
      (omega arith) refl
