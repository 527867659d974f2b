-- ===== src/Storage/Containment.antt =====
-- Whose files may be read.
use soriham_api.Prelude.{
  String, ◌≡◌, ◌∙◌, refl, ap, sym, Bool, true, false, ◌&&◌, Option, none, some, List, [], ◌∷◌, ◌++◌,
  arith, str_eq, Bool-cases, inl, inr,
}
use text.Mathlib.TextEquality.{eq_iff}
use soriham_api.Table.{Row, here, there}
use soriham_api.Models.{RecordingSource}
use soriham_api.Storage.{
  FilePath, FileSystem, workspace_upload_dir, is_within, is_within_any, read_within,
  resolve_audio_path,
}

-- the path goes on from the root
abbrev pub IsUnder : FilePath → FilePath → Type 0
IsUnder path root = (rest : FilePath) × (path ≡ root ++ rest)

is_within-IsUnder : (path root : FilePath) → is_within path root ≡ true → IsUnder path root
is_within-IsUnder path [] h = (path, refl)
is_within-IsUnder [] (r ∷ root) h = cc
is_within-IsUnder (p ∷ path) (r ∷ root) h = elim (Bool-cases (str_eq p r)) [
  | inl e ↦
      let (rest, eq) = is_within-IsUnder path root (rw e at h) in
      let same = (eq_iff p r).0 e in (rest, rw (same, eq) refl)
  | inr e ↦ absurd (let bad : false ≡ true = rw e at h in cc)
]

is_within_any-IsUnder :
    (path : FilePath) (roots : List FilePath)
    → is_within_any path roots ≡ true
    → (r : FilePath) × Row r roots × IsUnder path r
is_within_any-IsUnder path [] h = cc
is_within_any-IsUnder path (r ∷ roots) h = elim (Bool-cases (is_within path r)) [
  | inl e ↦ (r, here roots, is_within-IsUnder path r e)
  | inr e ↦
      let (x, row, under) = is_within_any-IsUnder path roots (rw e at h) in
      (x, there r roots row, under)
]

read_within-IsUnder :
    (fs : FileSystem) (real path : FilePath) (row : Option (List FilePath))
    → read_within fs real row ≡ some path
    → (roots : List FilePath) × (row ≡ some roots)
      × (real ≡ path)
      × (fs.is_file path ≡ true)
      × ((r : FilePath) × Row r roots × IsUnder path r)
read_within-IsUnder fs real path none h = cc
read_within-IsUnder fs real path (some roots) h =
    elim (Bool-cases (is_within_any real roots && fs.is_file real)) [
      | inr e ↦ absurd (let bad : none ≡ some path = rw e at h in cc)
      | inl e ↦
          let out : some real ≡ some path = rw e at h in
          let same : real ≡ path = cc in
          let (a, b) : (is_within_any real roots ≡ true) × (fs.is_file real ≡ true) =
            ground arith in
          (roots, refl, same, rw same at b, rw same at (is_within_any-IsUnder real roots a))
    ]

one_root : (r root : FilePath) → Row r (root ∷ []) → r ≡ root
one_root r root (here _) = refl
one_root r root (there _ _ row) = elim row [ ]

-- What an upload is read from is a file under the folder of the recording's own workspace, links
-- followed on both sides: whatever path the row holds.
pub resolve_audio_path-IsUnder :
    (fs : FileSystem) (stored path : FilePath) (workspace : String) (upload_dir : FilePath)
    (audio_dirs : List FilePath) (path_current : Bool)
    → resolve_audio_path fs stored RecordingSource.upload workspace
        (some upload_dir)
        audio_dirs
        path_current
      ≡ some path
    → (path ≡ fs.resolve stored)
      × (fs.is_file path ≡ true)
      × IsUnder path (fs.resolve (workspace_upload_dir upload_dir workspace))
unfolding resolve_audio_path
resolve_audio_path-IsUnder fs stored path workspace upload_dir audio_dirs path_current h =
    elim (Bool-cases path_current) [
      | inr e ↦ absurd (let bad : none ≡ some path = rw e at h in cc)
      | inl e ↦
          let root = fs.resolve (workspace_upload_dir upload_dir workspace) in
          let (roots, eq, same, file, (r, row, under)) =
            read_within-IsUnder fs (fs.resolve stored) path (some (root ∷ [])) (rw e at h) in
          let alone : root ∷ [] ≡ roots = cc in
          let at_root = one_root r root (rw (← alone) at row) in
          (sym same, file, rw at_root at under)
    ]

abbrev tail : FilePath → FilePath
tail [] = []
tail (p ∷ path) = path

abbrev head_or : String → FilePath → String
head_or d [] = d
head_or d (p ∷ path) = p

-- one path is not under the folders of two workspaces
under_one :
    (base : FilePath) (a b : String) (rest rest' : FilePath)
    → workspace_upload_dir base a ++ rest ≡ workspace_upload_dir base b ++ rest'
    → a ≡ b
unfolding workspace_upload_dir
under_one [] a b rest rest' h = ap (λ p. head_or a (tail p)) h
under_one (d ∷ base) a b rest rest' h = under_one base a b rest rest' (ap tail h)

-- The workspaces' folders being no links themselves, a file that a row of one workspace lets be read
-- is not let be read by a row of another one.
pub resolve_audio_path-apart :
    (fs : FileSystem) (stored stored' path upload_dir base : FilePath) (a b : String)
    (audio_dirs : List FilePath) (current current' : Bool)
    → ((w : String) → fs.resolve (workspace_upload_dir upload_dir w) ≡ workspace_upload_dir base w)
    → resolve_audio_path fs stored RecordingSource.upload a (some upload_dir) audio_dirs current
      ≡ some path
    → resolve_audio_path fs stored' RecordingSource.upload b (some upload_dir) audio_dirs current'
      ≡ some path
    → a ≡ b
resolve_audio_path-apart fs stored stored' path upload_dir base a b audio_dirs current current'
      plain h h' =
    let (_, _, (rest, one)) =
      resolve_audio_path-IsUnder fs stored path a upload_dir audio_dirs current h in
    let (_, _, (rest', two)) =
      resolve_audio_path-IsUnder fs stored' path b upload_dir audio_dirs current' h' in
    under_one base a b rest rest' (rw (plain a) at (sym one) ∙ rw (plain b) at two)
