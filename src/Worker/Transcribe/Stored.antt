-- ===== src/Worker/Transcribe/Stored.antt =====
-- What is stored of a transcription that completes.
use soriham_api.Prelude.{
  ℕ, zero, suc, ◌≡◌, ◌≤◌, Bool, not, ◌==◌, Option, none, some, List, [], ◌∷◌, length, get_or,
}
use soriham_api.Table.{All, filter_where}
use soriham_api.Models.{Recording, RecordingStatus, Segment}
use soriham_api.Worker.{Db}
use soriham_api.Worker.Transcribe.{RunnerSegment}

abbrev pub get_elem? {ℓ} : {A : Type ℓ} → List A → ℕ → Option A
get_elem? [] k = none
get_elem? (x ∷ xs) zero = some x
get_elem? (x ∷ xs) (suc k) = get_elem? xs k

abbrev pub is_own : ℕ → Segment → Bool
is_own id s = s.recording_id == id

abbrev pub is_other : ℕ → Segment → Bool
is_other id s = not (s.recording_id == id)

-- a line of the transcript says what the runner's segment said, and has this number
pub record Says (id k : ℕ) (s : RunnerSegment) (line : Segment) : Type 0 where
  pub whose : line.recording_id ≡ id
  pub number : line.idx ≡ k
  pub from : line.start_ms ≡ s.start_ms
  pub to : line.end_ms ≡ s.end_ms
  pub speaker : line.speaker_key ≡ s.speaker
  pub text : line.text ≡ s.text

-- the lines are the runner's segments in their order, numbered from 0
abbrev pub IsTranscript : ℕ → List RunnerSegment → List Segment → Type 0
IsTranscript id ss lines =
    (length lines ≡ length ss)
    × ((k : ℕ) (s : RunnerSegment)
        → get_elem? ss k ≡ some s
        → (line : Segment) × (get_elem? lines k ≡ some line) × Says id k s line)

-- the row waits for its summary and is as long as every segment of the runner reaches
abbrev pub IsHeard : List RunnerSegment → Recording → Type 0
IsHeard ss x =
    (x.status ≡ RecordingStatus.summarizing)
    × (x.runner_request_id ≡ none)
    × All (λ s. s.end_ms ≤ get_or x.duration_ms 0) ss

-- The recording's own segments are the transcript, the segments of the others are as before, and the
-- recording's row is heard.
abbrev pub Holds : ℕ → List RunnerSegment → List Segment → Db → Type 0
Holds id ss before out =
    IsTranscript id ss (filter_where (is_own id) out.segments)
    × (filter_where (is_other id) out.segments ≡ filter_where (is_other id) before)
    × All (λ x. x.id ≡ id → IsHeard ss x) out.recordings
