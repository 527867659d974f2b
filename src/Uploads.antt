-- ===== src/Uploads.antt =====
-- uploads.py: the disk's side of an upload. Names and paths are texts, lists of character codes; the
-- random name of a staged file is an argument.
pub mod Staging
pub mod Naming
pub mod Moving
use soriham_api.Prelude.{
  ℕ, zero, suc, ◌+◌, ◌-◌, ◌*◌, Bool, true, false, ◌&&◌, ◌||◌, not, Option, none, some, List, [],
  ◌∷◌, ◌++◌, ◌==◌, ltb, leb, length, if◌then◌else◌,
}
use soriham_api.Table.{update_where, delete_where}
use soriham_api.Media.Header.{Text, same_text}
use soriham_api.Media.Decimal.{decimal}

pub record File : Type 0 where
  pub path : Text
  pub content : List ℕ

abbrev pub Disk : Type 0
Disk = List File

abbrev pub is_at : Text → File → Bool
is_at path f = same_text f.path path

abbrev pub unlink : Text → Disk → Disk
unlink path disk = delete_where (is_at path) disk

-- what a read of the request's stream gives: bytes, none at its end, or an exception
pub data Chunk : Type 0 where
  read : List ℕ → Chunk
  broken : Chunk

pub data Received : Type 0 where
  too_large : Received
  is_empty : Received
  failed : Received
  received : List ℕ → Received

-- the end of the stream, where no byte at all is UploadEmpty
abbrev pub at_end : ℕ → List ℕ → Received
at_end zero out = is_empty
at_end (suc n) out = received out

-- the loop of stage_upload; `out` is what has been written
unfoldable pub receive : List Chunk → ℕ → ℕ → List ℕ → Received
receive [] max_bytes written out = at_end written out
receive (broken ∷ src) max_bytes written out = failed
receive (read [] ∷ src) max_bytes written out = at_end written out
receive (read (b ∷ bs) ∷ src) max_bytes written out =
    let rest = receive src max_bytes (written + length (b ∷ bs)) (out ++ b ∷ bs) in
    if ltb max_bytes (written + length (b ∷ bs)) then too_large else rest

-- a failure unlinks the file that was opened for writing
abbrev pub stage : Disk → Text → Received → Disk × Received
stage disk dest too_large = (unlink dest disk, too_large)
stage disk dest is_empty = (unlink dest disk, is_empty)
stage disk dest failed = (unlink dest disk, failed)
stage disk dest (received out) =
    (unlink dest disk ++ record { path = dest; content = out } ∷ [], received out)

unfoldable pub stage_upload : Disk → List Chunk → Text → ℕ → Disk × Received
unfolding receive
stage_upload disk src dest max_bytes = stage disk dest (receive src max_bytes 0 [])

abbrev pub contains : List Text → Text → Bool
contains [] path = false
contains (p ∷ paths) path = if same_text p path then true else contains paths path

-- directory / f"{stem}-{n}{suffix}"
abbrev pub numbered : Text → Text → ℕ → Text
numbered stem suffix n = stem ++ b'-' ∷ (decimal n ++ suffix)

-- the loop of _unique_path from `n` on; `none` is a bound on its rounds that is too small
unfoldable pub next_path : ℕ → List Text → Text → Text → ℕ → Option Text
next_path zero unavailable stem suffix n = none
next_path (suc fuel) unavailable stem suffix n =
    let rest = next_path fuel unavailable stem suffix (suc n) in
    if contains unavailable (numbered stem suffix n) then rest else some (numbered stem suffix n)

-- _unique_path. `unavailable` are the paths that exist or are taken; `path` and `stem` begin with the
-- directory, and `path` is `stem` with `suffix`. The loop ends after as many rounds as paths are
-- unavailable, and one more.
unfoldable pub unique_path : List Text → Text → Text → Text → Option Text
unfolding next_path
unique_path unavailable path stem suffix =
    if contains unavailable path
    then next_path (suc (length unavailable)) unavailable stem suffix 2
    else some path

abbrev pub paths_of : Disk → List Text
paths_of [] = []
paths_of (f ∷ disk) = f.path ∷ paths_of disk

-- os.replace: what stands at the new path is lost
abbrev pub rename : Disk → Text → Text → Disk
rename disk path new_path =
    update_where (is_at path) (λ f. record f { path = new_path }) (unlink new_path disk)

abbrev pub rename_to : Disk → Text → Option Text → Option Disk
rename_to disk staged none = none
rename_to disk staged (some path) = some (rename disk staged path)

-- finalize: `taken` are the paths that the table of recordings holds
unfoldable pub finalize : Disk → List Text → Text → Text → Text → Text → Option Disk
unfolding unique_path
finalize disk taken staged path stem suffix =
    rename_to disk staged (unique_path (paths_of disk ++ taken) path stem suffix)
