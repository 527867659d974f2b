-- ===== src/Storage.antt =====
-- storage.py: where uploads live, and which files may be read. A path is the list of its parts;
-- following symbolic links is an argument, and so is the question whether a file is there.
pub mod Containment
use soriham_api.Prelude.{
  String, Bool, true, false, ◌&&◌, ◌||◌, Option, none, some, List, [], ◌∷◌, ◌++◌, str_eq,
  if◌then◌else◌,
}
use soriham_api.Models.{RecordingSource}

abbrev pub FilePath : Type 0
FilePath = List String

pub record FileSystem : Type 0 where
  -- Path.resolve, after expanduser for a folder that is watched
  pub resolve : FilePath → FilePath
  pub is_file : FilePath → Bool

-- workspace_upload_dir; the second argument is the hexadecimal text of the public id
unfoldable pub workspace_upload_dir : FilePath → String → FilePath
workspace_upload_dir upload_dir workspace = upload_dir ++ "w" ∷ workspace ∷ []

-- real == r or real.is_relative_to(r)
abbrev pub is_within : FilePath → FilePath → Bool
is_within path [] = true
is_within [] (r ∷ root) = false
is_within (p ∷ path) (r ∷ root) = str_eq p r && is_within path root

abbrev pub is_within_any : FilePath → List FilePath → Bool
is_within_any path [] = false
is_within_any path (r ∷ roots) = is_within path r || is_within_any path roots

abbrev pub resolve_all : FileSystem → List FilePath → List FilePath
resolve_all fs [] = []
resolve_all fs (d ∷ dirs) = fs.resolve d ∷ resolve_all fs dirs

abbrev pub upload_roots : FileSystem → String → Option FilePath → Option (List FilePath)
upload_roots fs workspace none = none
upload_roots fs workspace (some dir) = some (fs.resolve (workspace_upload_dir dir workspace) ∷ [])

-- `none` is AudioUnavailable
abbrev pub roots_for :
    FileSystem → RecordingSource → String → Option FilePath → List FilePath → Option (List FilePath)
roots_for fs RecordingSource.upload workspace upload_dir audio_dirs =
    upload_roots fs workspace upload_dir
roots_for fs RecordingSource.scan workspace upload_dir audio_dirs = some (resolve_all fs audio_dirs)

abbrev pub read_within : FileSystem → FilePath → Option (List FilePath) → Option FilePath
read_within fs real none = none
read_within fs real (some roots) =
    if is_within_any real roots && fs.is_file real then some real else none

unfoldable pub resolve_audio_path :
    FileSystem
    → FilePath
    → RecordingSource
    → String
    → Option FilePath
    → List FilePath
    → Bool
    → Option FilePath
unfolding workspace_upload_dir
resolve_audio_path fs stored source workspace upload_dir audio_dirs path_current =
    if path_current
    then read_within fs (fs.resolve stored) (roots_for fs source workspace upload_dir audio_dirs)
    else none
