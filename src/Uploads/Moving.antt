-- ===== src/Uploads/Moving.antt =====
-- Where a staged upload goes.
use soriham_api.Prelude.{◌≡◌, refl, true, false, some, List, [], ◌∷◌, ◌++◌, Bool-cases, inl, inr}
use soriham_api.Table.{update_where, Row, here, there}
use soriham_api.Table.Keys.{Row-update_where_miss, Row-delete_where_miss}
use soriham_api.Media.Header.{Text, same_text}
use soriham_api.Uploads.{File, Disk, is_at, unlink, contains, paths_of, rename, finalize}
use soriham_api.Uploads.Naming.{unique_path-free}

contains-append :
    (a b : List Text) (x : Text)
    → contains (a ++ b) x ≡ false
    → (contains a x ≡ false) × (contains b x ≡ false)
contains-append [] b x h = (refl, h)
contains-append (p ∷ a) b x h = elim (Bool-cases (same_text p x)) [
  | inl e ↦ absurd (let bad : true ≡ false = rw e at h in cc)
  | inr e ↦ let (l, r) = contains-append a b x (rw e at h) in (rw e l, r)
]

Row-paths_of :
    (f : File) (disk : Disk) (x : Text)
    → Row f disk
    → contains (paths_of disk) x ≡ false
    → is_at x f ≡ false
Row-paths_of f [] x r h = elim r [ ]
Row-paths_of f (g ∷ disk) x (here _) h = elim (Bool-cases (is_at x f)) [
  | inl e ↦ absurd (let bad : true ≡ false = rw e at h in cc)
  | inr e ↦ e
]
Row-paths_of f (g ∷ disk) x (there _ _ r) h = elim (Bool-cases (is_at x g)) [
  | inl e ↦ absurd (let bad : true ≡ false = rw e at h in cc)
  | inr e ↦ Row-paths_of f disk x r (rw e at h)
]

Row-update_where_hit :
    (f : File) (disk : Disk) (staged found : Text)
    → Row f disk
    → is_at staged f ≡ true
    → Row
        (record f { path = found })
        (update_where (is_at staged) (λ g. record g { path = found }) disk)
unfolding update_where
Row-update_where_hit f [] staged found r own = elim r [ ]
Row-update_where_hit f (g ∷ disk) staged found (here _) own = rw own (here _)
Row-update_where_hit f (g ∷ disk) staged found (there _ _ r) own =
    there _ _ (Row-update_where_hit f disk staged found r own)

-- The move of a staged file always finds a path. It is none of those that the table of recordings
-- holds, every other file of the disk stays as it is, and the staged one stands at the path.
pub finalize-keeps :
    (disk : Disk) (taken : List Text) (staged path stem suffix : Text)
    → (after : Disk) × (found : Text) × (finalize disk taken staged path stem suffix ≡ some after)
      × (contains taken found ≡ false)
      × ((f : File) → Row f disk → is_at staged f ≡ false → Row f after)
      × ((f : File) → Row f disk → is_at staged f ≡ true → Row (record f { path = found }) after)
unfolding finalize
finalize-keeps disk taken staged path stem suffix =
    let (found, is_found, free) = unique_path-free (paths_of disk ++ taken) path stem suffix in
    let (not_on_disk, not_taken) = contains-append (paths_of disk) taken found free in
    (
      rename disk staged found,
      found,
      rw is_found refl,
      not_taken,
      λ f row other.
          Row-update_where_miss (is_at staged) f other (λ g. record g { path = found })
            (unlink found disk)
            (Row-delete_where_miss (is_at found) f (Row-paths_of f disk found row not_on_disk) disk
              row),
      λ f row own.
          Row-update_where_hit f (unlink found disk) staged found
            (Row-delete_where_miss (is_at found) f (Row-paths_of f disk found row not_on_disk) disk
              row)
            own,
    )
