-- ===== src/Worker/Recovery/Resume.antt =====
-- The resume point is the same everywhere, and nothing that has a transcript is transcribed again.
use soriham_api.Prelude.{ℕ, ◌≡◌, ◌≢◌, true, Option, none, List, arith, is_some}
use soriham_api.Table.{All}
use soriham_api.Table.Rows.{All-update_where}
use soriham_api.Models.{Recording, RecordingStatus, Segment}
use soriham_api.Worker.{Db, has_transcript, resume_status, resume_case}
use soriham_api.Worker.Recovery.{
  recovered, recover_in_flight, is_abandoned, retry_failed, retried, is_failed, requeue_unenriched,
  requeued, is_unenriched,
}

-- The CASE expression of the bulk statements agrees with `resume_status` on every recording but a
-- duplicate: there `resume_status` keeps the mark and the bulk statements drop it.
pub resume_case-eq-resume_status :
    (segments : List Segment) (r : Recording)
    → (r.duplicate_of_id ≡ none → resume_case segments r ≡ resume_status segments r)
      × (is_some r.duplicate_of_id ≡ true
          → (resume_status segments r ≡ RecordingStatus.duplicate)
            × (resume_case segments r ≢ RecordingStatus.duplicate))
unfolding resume_case resume_status
resume_case-eq-resume_status segments r =
    (λ h. ground arith, λ h. (ground arith, λ e. ground arith))

-- what has a transcript does not wait for transcription
abbrev pub NoRedo : Db → Type 0
NoRedo db =
    All (λ r. has_transcript db.segments r ≡ true → r.status ≢ RecordingStatus.pending)
      db.recordings

-- Recovery after a crash, retry by hand and requeueing for a summary never put a recording that has
-- a transcript back into the queue for transcription.
pub recovery-NoRedo :
    (db : Db) (scope : Option ℕ) (now : ℕ)
    → NoRedo db
    → NoRedo (recover_in_flight db now).0
      × NoRedo (retry_failed db scope now).0
      × NoRedo (requeue_unenriched db now).0
unfolding recover_in_flight retry_failed requeue_unenriched resume_status resume_case
recovery-NoRedo db scope now h = (
  All-update_where P (is_abandoned now) (recovered db.segments now) db.recordings
      (λ x _ hx t. ground arith) h,
  All-update_where P (is_failed scope) (retried db.segments now) db.recordings
      (λ x _ hx t. ground arith) h,
  All-update_where P (is_unenriched db.segments) (requeued now) db.recordings
      (λ x _ hx t. ground arith) h,
)
  where
    P : Recording → Type 0
    P r = has_transcript db.segments r ≡ true → r.status ≢ RecordingStatus.pending
