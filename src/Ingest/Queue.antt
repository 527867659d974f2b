-- ===== src/Ingest/Queue.antt =====
-- A registration queues nothing again that has a transcript.
use soriham_api.Prelude.{
  ℕ, ◌≡◌, ◌≢◌, true, false, ◌==◌, Option, none, some, List, [], ◌∷◌, arith, Bool-cases, inl, inr,
  is_some,
}
use soriham_api.Files.{Signature}
use soriham_api.Table.{find_where}
use soriham_api.Table.Rows.{All-append, All-update_where}
use soriham_api.Models.{Recording, RecordingStatus, Segment}
use soriham_api.Worker.{Db, resume_status, has_transcript}
use soriham_api.Worker.Write.{write_recording, has_id}
use soriham_api.Worker.Recovery.Resume.{NoRedo}
use soriham_api.Ingest.{
  Call, Contents, Ingested, is_at, is_elsewhere, is_same_file, is_scan, place, settle, insert_new,
  register, register_at, rediscover, rediscovered, let_go, let_go_of, moved_here, new_recording,
  find_moved, find_original, ingest_file,
}
use soriham_api.Ingest.Register.{Course, known, stopped, overtaken, through, ingest_file-Course}

-- one row of `NoRedo`
abbrev IsSound : List Segment → Recording → Type 0
IsSound segments r = has_transcript segments r ≡ true → r.status ≢ RecordingStatus.pending

-- no segment is left over under the id that a new row gets
abbrev pub IsUnused : ℕ → Db → Type 0
IsUnused id db = is_some (find_where (λ s. s.recording_id == id) db.segments) ≡ false

write_recording-NoRedo :
    (db : Db) (id now : ℕ) (f : Recording → Recording)
    → ((x : Recording)
        → IsSound db.segments x
        → IsSound db.segments (record (f x) { updated_at = now }))
    → NoRedo db
    → NoRedo (write_recording id now f db)
write_recording-NoRedo db id now f keep =
    All-update_where (IsSound db.segments) (has_id id) (λ x. record (f x) { updated_at = now })
      db.recordings (λ x _ h. keep x h)

module _ (c : Call) (s : Signature) (k : Contents) where
  insert_new-NoRedo :
      (db : Db) (original : Option Recording)
      → IsUnused c.fresh_id db
      → NoRedo db
      → NoRedo (insert_new db c s k original).0
  unfolding new_recording has_transcript
  insert_new-NoRedo db original unused sound =
      All-append (IsSound db.segments) db.recordings (new_recording c s k original ∷ []) sound
        ((λ h. ground arith), tt)

  settle-NoRedo :
      (db : Db) (row : Option Recording)
      → IsUnused c.fresh_id db
      → NoRedo db
      → NoRedo (settle db c s k row).0
  unfolding moved_here resume_status
  settle-NoRedo db none unused =
      insert_new-NoRedo db (find_original c.disk_again db.recordings c.workspace_id k.full k.digest)
        unused
  settle-NoRedo db (some r) unused =
      write_recording-NoRedo db r.id c.now (moved_here db c s k) (λ x h t. ground arith)

  place-NoRedo : (db : Db) → IsUnused c.fresh_id db → NoRedo db → NoRedo (place db c s k).0
  unfolding place
  place-NoRedo db = settle-NoRedo db (find_moved c.disk db.recordings c.workspace_id k.full)

  rediscover-NoRedo : (db : Db) (r : Recording) → NoRedo db → NoRedo (rediscover db c s k r).0
  unfolding rediscovered resume_status
  rediscover-NoRedo db r =
      write_recording-NoRedo db r.id c.now (rediscovered db s k) (λ x h t. ground (arith, h))

  register_at-NoRedo :
      (db : Db) (row : Option Recording)
      → IsUnused c.fresh_id db
      → NoRedo db
      → NoRedo (register_at db c s k row).0
  register_at-NoRedo db none unused sound = place-NoRedo db unused sound
  register_at-NoRedo db (some r) unused sound = elim (Bool-cases (is_elsewhere c r)) [
    | inl f ↦ rw f sound
    | inr f ↦ rw f (elim (Bool-cases (is_same_file k r)) [
      | inl g ↦ rw g (rediscover-NoRedo db r sound)
      | inr g ↦ rw g (elim (Bool-cases (is_scan c.source)) [
        | inl h ↦ rw h (
            place-NoRedo (let_go_of db c r) unused
              (write_recording-NoRedo db r.id c.now let_go (λ x _ _. ground arith) sound))
        | inr h ↦ rw h sound
      ])
    ])
  ]

  register-NoRedo : (db : Db) → IsUnused c.fresh_id db → NoRedo db → NoRedo (register db c s k).0
  unfolding register
  register-NoRedo db = register_at-NoRedo db (find_where (is_at c.path) db.recordings)

Course-NoRedo :
    (db : Db) (c : Call) (out : Db × Ingested)
    → Course db c out
    → IsUnused c.fresh_id (c.meanwhile db)
    → NoRedo db
    → NoRedo (c.meanwhile db)
    → NoRedo out.0
Course-NoRedo db c out (known r e) unused sound later = rw e sound
Course-NoRedo db c out (stopped x e) unused sound later = rw e sound
Course-NoRedo db c out (overtaken x e) unused sound later = rw e later
Course-NoRedo db c out (through s k es ek e) unused sound later =
    rw e (register-NoRedo c s k (c.meanwhile db) unused later)

-- Registration keeps it true that no recording with a transcript waits for transcription: a moved or
-- reappeared file resumes where its recording stood.
pub ingest_file-NoRedo :
    (db : Db) (c : Call)
    → IsUnused c.fresh_id (c.meanwhile db)
    → NoRedo db
    → NoRedo (c.meanwhile db)
    → NoRedo (ingest_file db c).0
ingest_file-NoRedo db c = Course-NoRedo db c (ingest_file db c) (ingest_file-Course db c)
