-- ===== src/Tests/Queue.antt =====
-- worker.py: a queue of two workspaces, one of them never served.
use soriham_api.Prelude.{◌≡◌, ◌≢◌, refl, true, false, ◌&&◌, none, some, [], ◌∷◌, arith, is_some}
use soriham_api.Table.{Row, here, there, find_where, filter_where, update_where}
use soriham_api.Table.Best.{best}
use soriham_api.Models.{
  Workspace, WorkspaceKind, Recording, RecordingStatus, RecordingSource, Segment,
}
use soriham_api.Quota.{allows_transcription}
use soriham_api.Worker.{Db, has_transcript, resume_status, resume_case}
use soriham_api.Worker.Recovery.{
  recover_in_flight, retry_failed, requeue_unenriched, release_quota_blocked, released,
  is_blocked_row,
}
use soriham_api.Table.Chunks.{contains}
use soriham_api.Worker.Recovery.Resume.{NoRedo, resume_case-eq-resume_status, recovery-NoRedo}
use soriham_api.Worker.Recovery.Release.{release_quota_blocked-exact}
use soriham_api.Worker.Claim.{claim_next, workspaces_with_work, stamp, waits_longer, has_work}
use soriham_api.Worker.Claim.Select.{IsChosen, claim_next-IsChosen}
use soriham_api.Worker.Claim.Fair.{unlocked, HasWorkspaces, claim_next-fair, claim_next-progress}

abbrev pub served : Workspace
served = record {
  id = 10;
  public_id = 501;
  slug = "a";
  name = "a";
  kind = WorkspaceKind.team;
  last_claimed_at = some 500;
  quota_minutes = none;
  quota_bytes = none;
}

abbrev pub unserved : Workspace
unserved = record served { id = 20; slug = "b"; last_claimed_at = none }

abbrev pub old : Recording
old = record {
  id = 1;
  public_id = 701;
  workspace_id = 10;
  created_by_user_id = none;
  source = RecordingSource.upload;
  path = "/data/w/1.m4a";
  path_current = true;
  file_signature = none;
  filename = "1.m4a";
  size_bytes = 1;
  partial_hash = "p";
  content_hash = some "01";
  recorded_at = some 100;
  duration_ms = some 60000;
  language = none;
  title = none;
  summary = none;
  status = RecordingStatus.pending;
  error = none;
  stt_meta = none;
  runner_request_id = none;
  runner_started_at = none;
  progress = none;
  stage_started_at = none;
  duplicate_of_id = none;
  updated_at = 900;
}

abbrev pub other : Recording
other = record old { id = 2; workspace_id = 20; recorded_at = none }

abbrev crashed : Recording
crashed = record old { id = 3; status = RecordingStatus.transcribing; progress = some 40 }

abbrev held : Recording
held = record old { id = 4; status = RecordingStatus.quota_blocked }

abbrev pub line : Segment
line = record {
  recording_id = 3;
  idx = 0;
  start_ms = 0;
  end_ms = 900;
  speaker_key = none;
  text = "hello";
  words = none;
  kind = "speech";
}

abbrev pub db : Db
db = record {
  workspaces = served ∷ unserved ∷ [];
  recordings = old ∷ other ∷ crashed ∷ held ∷ [];
  segments = line ∷ [];
  logs = [];
}

-- the crashed recording has a segment: it resumes at its summary
resume_after_crash : resume_status db.segments crashed ≡ RecordingStatus.enriching
unfolding resume_status find_where
resume_after_crash = refl

claim_unserved : claim_next db unlocked 1000 ≡ (stamp db 20 1000, some other)
unfolding claim_next find_where filter_where update_where best
claim_unserved = refl

resume_case-eq-resume_status_example :
    (crashed.duplicate_of_id ≡ none
      → resume_case db.segments crashed ≡ resume_status db.segments crashed)
    × (is_some crashed.duplicate_of_id ≡ true
        → (resume_status db.segments crashed ≡ RecordingStatus.duplicate)
          × (resume_case db.segments crashed ≢ RecordingStatus.duplicate))
resume_case-eq-resume_status_example = resume_case-eq-resume_status db.segments crashed

db-NoRedo : NoRedo db
unfolding has_transcript find_where
db-NoRedo = ground arith

recovery-NoRedo_example :
    NoRedo (recover_in_flight db 2000).0
    × NoRedo (retry_failed db (some 10) 2000).0
    × NoRedo (requeue_unenriched db 2000).0
recovery-NoRedo_example = recovery-NoRedo db (some 10) 2000 db-NoRedo

release_quota_blocked-exact_example : (release_quota_blocked db 2000).0 ≡ record db {
  recordings =
      update_where
        (λ r. is_blocked_row r && allows_transcription db.workspaces db.logs db.recordings r 2000)
        (released db.segments 2000)
        db.recordings;
}
release_quota_blocked-exact_example = release_quota_blocked-exact db 2000 (ground arith)

claim_next-IsChosen_example :
    ((claim_next db unlocked 1000).0.recordings ≡ db.recordings)
    × ((claim_next db unlocked 1000).0.segments ≡ db.segments)
    × ((claim_next db unlocked 1000).0.logs ≡ db.logs)
    × ((r : Recording)
        → (claim_next db unlocked 1000).1 ≡ some r
        → IsChosen db.recordings unlocked r.workspace_id r)
claim_next-IsChosen_example = claim_next-IsChosen db unlocked 1000

two_workspaces : workspaces_with_work db ≡ 10 ∷ 20 ∷ []
unfolding workspaces_with_work filter_where
two_workspaces = refl

home_of : Row served db.workspaces
home_of = here (unserved ∷ [])

db-HasWorkspaces : HasWorkspaces db
db-HasWorkspaces = (
  (served, home_of, refl),
  (
    (unserved, there served (unserved ∷ []) (here []), refl),
    ((served, home_of, refl), ((served, home_of, refl), tt)),
  ),
)

claim_next-fair_example :
    (w : Workspace) × (r : Recording) × (claim_next db unlocked 1000 ≡ (stamp db w.id 1000, some r))
    × Row w db.workspaces
    × (r.workspace_id ≡ w.id)
    × ((v : Workspace)
        → Row v db.workspaces
        → contains (workspaces_with_work db) v.id ≡ true
        → waits_longer v w ≡ false)
claim_next-fair_example = claim_next-fair db 1000 10 20 [] db-HasWorkspaces two_workspaces

abbrev idle : Db
idle = record db { recordings = held ∷ [] }

idle_claim : (claim_next idle unlocked 1000).1 ≡ none
unfolding claim_next filter_where
idle_claim = refl

claim_next-progress_example : has_work held ≡ false
claim_next-progress_example =
    claim_next-progress idle 1000 ((served, home_of, refl), tt) idle_claim held (here [])
