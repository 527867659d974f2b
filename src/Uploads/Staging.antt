-- ===== src/Uploads/Staging.antt =====
-- What an upload leaves on the disk.
use soriham_api.Prelude.{ℕ, ◌≤◌, ◌<◌, ◌≡◌, List, [], ◌∷◌, ◌++◌, length}
use soriham_api.Media.Header.{Text}
use soriham_api.Uploads.{Disk, Chunk, read, broken, Received, received}

-- the bytes up to the end of the stream
abbrev pub sent : List Chunk → List ℕ
sent [] = []
sent (broken ∷ src) = []
sent (read [] ∷ src) = []
sent (read (b ∷ bs) ∷ src) = (b ∷ bs) ++ sent src

-- all of what was sent, at least a byte and no more than the limit
abbrev pub IsWhole : List ℕ → ℕ → Received → Type 0
IsWhole all max_bytes (received out) = (out ≡ all) × (0 < length out) × (length out ≤ max_bytes)
IsWhole all max_bytes other = Unit

-- one file more with all bytes, or nothing
abbrev pub Leaves : Disk → Text → List ℕ → ℕ → Disk → Received → Type 0
Leaves disk dest all max_bytes after (received out) =
    (after ≡ disk ++ record { path = dest; content = all } ∷ [])
    × (out ≡ all)
    × (0 < length all)
    × (length all ≤ max_bytes)
Leaves disk dest all max_bytes after other = after ≡ disk
