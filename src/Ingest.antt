-- ===== src/Ingest.antt =====
-- ingest.py: the registration of one file. What is read from the disk is an argument: a read gives
-- `none` where it raises OSError. Path resolution, ffprobe, the digests and the date in a file name
-- are arguments too. The rows of the table are in the order of their ids.
pub mod Lookup
pub mod Places
pub mod Register
pub mod Artefacts
pub mod Queue
pub mod Sweep
use soriham_api.Prelude.{
  ℕ, String, starts_with, Bool, true, false, ◌&&◌, ◌||◌, not, Option, none, some, List, [], ◌∷◌,
  ◌++◌, ◌==◌, str_eq, opt_str_eq, is_some, is_none, get_or, if◌then◌else◌,
}
use soriham_api.Files.{Signature, same_signature, is_signature}
use soriham_api.Table.{find_where, filter_where}
use soriham_api.Models.{Recording, RecordingStatus, RecordingSource}
use soriham_api.Worker.{Db, resume_status}
use soriham_api.Worker.Write.{write_recording, source_changed_prefix}

-- the disk as one look at it finds it, by path
pub record Disk : Type 0 where
  pub signature : String → Option Signature
  pub hash : String → Option String
  pub signature_after : String → Option Signature

abbrev pub is_missing : RecordingStatus → Bool
is_missing RecordingStatus.missing = true
is_missing other = false

abbrev pub is_duplicate : RecordingStatus → Bool
is_duplicate RecordingStatus.duplicate = true
is_duplicate other = false

abbrev pub same_source : RecordingSource → RecordingSource → Bool
same_source RecordingSource.upload RecordingSource.upload = true
same_source RecordingSource.scan RecordingSource.scan = true
same_source RecordingSource.upload RecordingSource.scan = false
same_source RecordingSource.scan RecordingSource.upload = false

abbrev pub is_after : Option Signature → Signature → Bool
is_after none before = false
is_after (some t) before = same_signature t before

abbrev pub has_content : Recording → Option String → Option Signature → Signature → Bool
has_content r none after before = false
has_content r (some h) after before = opt_str_eq r.content_hash h && is_after after before

abbrev pub matches_file : Disk → Recording → Option Signature → Bool
matches_file disk r none = false
matches_file disk r (some before) =
    if is_signature r.file_signature before
    then true
    else has_content r (disk.hash r.path) (disk.signature_after r.path) before

-- _has_matching_file
unfoldable pub has_matching_file : Disk → Recording → Bool
has_matching_file disk r =
    if r.path_current then matches_file disk r (disk.signature r.path) else false

abbrev pub is_by_content : ℕ → String → Recording → Bool
is_by_content workspace full r =
    r.workspace_id == workspace
    && opt_str_eq r.content_hash full
    && not (is_duplicate r.status)
    && is_none r.duplicate_of_id

unfoldable pub find_by_content : List Recording → ℕ → String → List Recording
find_by_content rows workspace full = filter_where (is_by_content workspace full) rows

abbrev pub is_by_digest : ℕ → String → Recording → Bool
is_by_digest workspace digest r =
    r.workspace_id == workspace
    && str_eq r.partial_hash digest
    && is_none r.content_hash
    && r.path_current
    && not (is_duplicate r.status || is_missing r.status)

unfoldable pub find_duplicate : List Recording → ℕ → String → Option Recording
find_duplicate rows workspace digest = find_where (is_by_digest workspace digest) rows

abbrev pub or_row : Option Recording → Option Recording → Option Recording
or_row none other = other
or_row (some r) other = some r

abbrev pub is_in_place : Disk → Recording → Bool
is_in_place disk r = not (is_missing r.status) && has_matching_file disk r

unfoldable pub find_original : Disk → List Recording → ℕ → String → String → Option Recording
unfolding find_by_content find_duplicate has_matching_file
find_original disk rows workspace full digest =
    or_row (find_where (is_in_place disk) (find_by_content rows workspace full))
      (find_duplicate rows workspace digest)

unfoldable pub find_moved : Disk → List Recording → ℕ → String → Option Recording
unfolding find_by_content has_matching_file
find_moved disk rows workspace full =
    find_where (λ r. not (has_matching_file disk r)) (find_by_content rows workspace full)

-- the values of `Outcome`
pub data Outcome : Type 0 where
  new duplicate reappeared moved existing : Outcome

-- OSError, FileChangedDuringRead and the two uses of ValueError
pub data IngestError : Type 0 where
  unreadable changed elsewhere replaced_upload : IngestError

pub data Ingested : Type 0 where
  registered : Recording → Outcome → Ingested
  refused : IngestError → Ingested

pub record Contents : Type 0 where
  pub digest : String
  pub full : String
  pub duration_ms : Option ℕ

-- one call: its arguments, what it reads, and what other processes commit until it has the locks; each
-- of the two searches reads the files anew
pub record Call : Type 0 where
  pub path : String
  pub name : String
  pub workspace_id : ℕ
  pub source : RecordingSource
  pub created_by : Option ℕ
  pub verify_existing : Bool
  pub signature : Option Signature
  pub contents : Option Contents
  pub signature_read : Option Signature
  pub meanwhile : Db → Db
  pub signature_locked : Option Signature
  pub disk : Disk
  pub disk_again : Disk
  pub recorded_at : Option ℕ
  pub fresh_id : ℕ
  pub fresh_public_id : ℕ
  pub now : ℕ

abbrev pub is_at : String → Recording → Bool
is_at path r = str_eq r.path path && r.path_current

abbrev pub is_elsewhere : Call → Recording → Bool
is_elsewhere c r = not (r.workspace_id == c.workspace_id) || not (same_source r.source c.source)

-- the file is the one that the row was made of
abbrev pub is_same_file : Contents → Recording → Bool
is_same_file k r =
    opt_str_eq r.content_hash k.full || is_none r.content_hash && str_eq r.partial_hash k.digest

abbrev pub confirmed : Signature → Contents → Recording → Recording
confirmed s k r = record r {
  file_signature = some s;
  content_hash = some k.full;
  size_bytes = s.size;
  duration_ms = k.duration_ms;
}

abbrev pub was_changed : Option String → Bool
was_changed none = false
was_changed (some e) = starts_with e source_changed_prefix

-- the row of the path, found again with the same content
unfoldable pub rediscovered : Db → Signature → Contents → Recording → Recording
unfolding resume_status
rediscovered db s k r =
    let r' = confirmed s k r in
    if is_missing r.status
    then record r' { status = resume_status db.segments r' }
    else if was_changed r.error
    then record r' { status = resume_status db.segments r'; error = none }
    else r'

-- the row of a path whose file was replaced keeps what was made of the old file
abbrev pub let_go : Recording → Recording
let_go r = record r {
  path_current = false;
  status = RecordingStatus.missing;
  runner_request_id = none;
  runner_started_at = none;
  progress = none;
  stage_started_at = none;
}

abbrev pub or_else_time : Option ℕ → Option ℕ → Option ℕ
or_else_time none known = known
or_else_time (some t) known = some t

unfoldable pub moved_here : Db → Call → Signature → Contents → Recording → Recording
unfolding resume_status
moved_here db c s k r =
    let r' = record r {
      path = c.path;
      filename = c.name;
      size_bytes = s.size;
      partial_hash = k.digest;
      path_current = true;
      file_signature = some s;
      duration_ms = k.duration_ms;
      recorded_at = or_else_time c.recorded_at r.recorded_at;
    } in
    record r' { status = resume_status db.segments r' }

abbrev pub id_of : Option Recording → Option ℕ
id_of none = none
id_of (some r) = some r.id

unfoldable pub new_recording : Call → Signature → Contents → Option Recording → Recording
new_recording c s k original = record {
  id = c.fresh_id;
  public_id = c.fresh_public_id;
  workspace_id = c.workspace_id;
  created_by_user_id = c.created_by;
  source = c.source;
  path = c.path;
  path_current = true;
  file_signature = some s;
  filename = c.name;
  size_bytes = s.size;
  partial_hash = k.digest;
  content_hash = some k.full;
  recorded_at = c.recorded_at;
  duration_ms = k.duration_ms;
  language = none;
  title = none;
  summary = none;
  status = if is_some original then RecordingStatus.duplicate else RecordingStatus.pending;
  error = none;
  stt_meta = none;
  runner_request_id = none;
  runner_started_at = none;
  progress = none;
  stage_started_at = none;
  duplicate_of_id = id_of original;
  updated_at = c.now;
}

abbrev pub add_recording : Db → Recording → Db
add_recording db r = record db { recordings = db.recordings ++ r ∷ [] }

abbrev pub insert_new : Db → Call → Signature → Contents → Option Recording → Db × Ingested
insert_new db c s k original = (
  add_recording db (new_recording c s k original),
  registered (new_recording c s k original) (if is_some original then duplicate else new),
)

-- the path is free: a moved recording, or a new row
abbrev pub settle : Db → Call → Signature → Contents → Option Recording → Db × Ingested
settle db c s k none =
    insert_new db c s k (find_original c.disk_again db.recordings c.workspace_id k.full k.digest)
settle db c s k (some r) =
    (write_recording r.id c.now (moved_here db c s k) db, registered (moved_here db c s k r) moved)

unfoldable pub place : Db → Call → Signature → Contents → Db × Ingested
unfolding find_moved find_original moved_here new_recording
place db c s k = settle db c s k (find_moved c.disk db.recordings c.workspace_id k.full)

abbrev pub is_scan : RecordingSource → Bool
is_scan RecordingSource.scan = true
is_scan RecordingSource.upload = false

abbrev pub let_go_of : Db → Call → Recording → Db
let_go_of db c r = write_recording r.id c.now let_go db

abbrev pub rediscover : Db → Call → Signature → Contents → Recording → Db × Ingested
rediscover db c s k r = (
  write_recording r.id c.now (rediscovered db s k) db,
  registered (rediscovered db s k r) (if is_missing r.status then reappeared else existing),
)

-- what follows the locks: `db` holds the tables that the call then sees
abbrev pub register_at : Db → Call → Signature → Contents → Option Recording → Db × Ingested
register_at db c s k none = place db c s k
register_at db c s k (some r) =
    if is_elsewhere c r
    then (db, refused elsewhere)
    else if is_same_file k r
    then rediscover db c s k r
    else if is_scan c.source
    then place (let_go_of db c r) c s k
    else (db, refused replaced_upload)

unfoldable pub register : Db → Call → Signature → Contents → Db × Ingested
unfolding place rediscovered
register db c s k = register_at db c s k (find_where (is_at c.path) db.recordings)

abbrev pub after_locks : Db → Call → Signature → Contents → Option Signature → Db × Ingested
after_locks db c s k none = (db, refused unreadable)
after_locks db c s k (some t) =
    if same_signature t s then register db c s k else (db, refused changed)

abbrev pub after_read : Db → Call → Signature → Contents → Option Signature → Db × Ingested
after_read db c s k none = (db, refused unreadable)
after_read db c s k (some t) =
    if same_signature t s
    then after_locks (c.meanwhile db) c s k c.signature_locked
    else (db, refused changed)

abbrev pub read_file : Db → Call → Signature → Option Contents → Db × Ingested
read_file db c s none = (db, refused unreadable)
read_file db c s (some k) = after_read db c s k c.signature_read

-- nothing needs to be read of a row that is known to be of this file
abbrev pub is_settled : Call → Signature → Recording → Bool
is_settled c s r =
    not c.verify_existing
    && is_some r.content_hash
    && is_signature r.file_signature s
    && not (is_missing r.status)

abbrev pub first_look : Db → Call → Signature → Option Recording → Db × Ingested
first_look db c s none = read_file db c s c.contents
first_look db c s (some r) =
    if is_elsewhere c r
    then (db, refused elsewhere)
    else if is_settled c s r
    then (db, registered r existing)
    else read_file db c s c.contents

abbrev pub ingest_seen : Db → Call → Option Signature → Db × Ingested
ingest_seen db c none = (db, refused unreadable)
ingest_seen db c (some s) = first_look db c s (find_where (is_at c.path) db.recordings)

unfoldable pub ingest_file : Db → Call → Db × Ingested
unfolding register
ingest_file db c = ingest_seen db c c.signature
