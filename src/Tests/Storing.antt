-- ===== src/Tests/Storing.antt =====
-- uploads.py and storage.py: an upload of three bytes, a name that is given twice, and a path of
-- another workspace.
use soriham_api.Prelude.{◌≡◌, refl, true, false, none, some, List, [], ◌∷◌, ◌++◌}
use soriham_api.Table.{delete_where, Row}
use soriham_api.Models.{RecordingSource}
use soriham_api.Media.Header.{Text}
use soriham_api.Media.Decimal.{decimal}
use soriham_api.Storage.{FilePath, FileSystem, workspace_upload_dir, resolve_audio_path}
use soriham_api.Storage.Containment.{IsUnder, resolve_audio_path-IsUnder}
use soriham_api.Uploads.{
  File, Disk, Chunk, read, too_large, received, receive, stage_upload, next_path, unique_path,
  contains, is_at, finalize,
}
use soriham_api.Uploads.Moving.{finalize-keeps}

abbrev disk : Disk
disk = record { path = b'a' ∷ []; content = 1 ∷ [] } ∷ []

abbrev stream : List Chunk
stream = read (7 ∷ 8 ∷ []) ∷ read (9 ∷ []) ∷ read [] ∷ []

kept : stage_upload disk stream (b'p' ∷ []) 3 ≡ (
  disk ++ record { path = b'p' ∷ []; content = 7 ∷ 8 ∷ 9 ∷ [] } ∷ [],
  received (7 ∷ 8 ∷ 9 ∷ []),
)
unfolding stage_upload receive delete_where
kept = refl

over_limit : stage_upload disk stream (b'p' ∷ []) 2 ≡ (disk, too_large)
unfolding stage_upload receive delete_where
over_limit = refl

-- a.m and a-2.m are there
abbrev there : List Text
there = (b'a' ∷ b'.' ∷ b'm' ∷ []) ∷ (b'a' ∷ b'-' ∷ b'2' ∷ b'.' ∷ b'm' ∷ []) ∷ []

third :
    unique_path there (b'a' ∷ b'.' ∷ b'm' ∷ []) (b'a' ∷ []) (b'.' ∷ b'm' ∷ [])
    ≡ some (b'a' ∷ b'-' ∷ b'3' ∷ b'.' ∷ b'm' ∷ [])
unfolding unique_path next_path decimal
third = refl

-- a recording of the table has the second name
abbrev taken : List Text
taken = (b'a' ∷ b'-' ∷ b'2' ∷ b'.' ∷ b'm' ∷ []) ∷ []

abbrev full_disk : Disk
full_disk =
    record { path = b'a' ∷ b'.' ∷ b'm' ∷ []; content = 1 ∷ [] }
    ∷ record { path = b'p' ∷ []; content = 7 ∷ [] }
    ∷ []

finalize-keeps_example :
    (after : Disk) × (found : Text) × (finalize full_disk taken
        (b'p' ∷ [])
        (b'a' ∷ b'.' ∷ b'm' ∷ [])
        (b'a' ∷ [])
        (b'.' ∷ b'm' ∷ [])
      ≡ some after)
    × (contains taken found ≡ false)
    × ((f : File) → Row f full_disk → is_at (b'p' ∷ []) f ≡ false → Row f after)
    × ((f : File)
        → Row f full_disk
        → is_at (b'p' ∷ []) f ≡ true
        → Row (record f { path = found }) after)
finalize-keeps_example =
    finalize-keeps full_disk taken (b'p' ∷ []) (b'a' ∷ b'.' ∷ b'm' ∷ []) (b'a' ∷ [])
      (b'.' ∷ b'm' ∷ [])

abbrev fs : FileSystem
fs = record { resolve = λ p. p; is_file = λ p. true }

abbrev mine : FilePath
mine = "up" ∷ "w" ∷ "a1" ∷ "2026-07" ∷ "x.m4a" ∷ []

own_file :
    resolve_audio_path fs mine RecordingSource.upload "a1" (some ("up" ∷ [])) [] true ≡ some mine
unfolding resolve_audio_path workspace_upload_dir
own_file = refl

of_others : resolve_audio_path fs mine RecordingSource.upload "b2" (some ("up" ∷ [])) [] true ≡ none
unfolding resolve_audio_path workspace_upload_dir
of_others = refl

resolve_audio_path-IsUnder_example :
    (mine ≡ mine) × (true ≡ true) × IsUnder mine (workspace_upload_dir ("up" ∷ []) "a1")
resolve_audio_path-IsUnder_example =
    resolve_audio_path-IsUnder fs mine mine "a1" ("up" ∷ []) [] true own_file
