-- ===== src/Ingest/Lookup.antt =====
-- What a new file is compared with: rows of its own workspace only.
use soriham_api.Prelude.{
  ℕ, String, ◌≡◌, refl, ap, true, false, ◌||◌, Option, none, some, List, Option-cases, inl, inr,
  arith, opt_str_eq, str_eq,
}
use soriham_api.Files.{Signature}
use soriham_api.Table.{find_where, filter_where, Row}
use soriham_api.Table.Find.{find_where-Row}
use soriham_api.Table.Best.{filter_where-Row}
use soriham_api.Models.{Recording}
use soriham_api.Worker.{Db}
use soriham_api.Ingest.{
  Disk, Call, Contents, registered, duplicate, new, moved, moved_here, has_matching_file,
  is_by_content, is_by_digest, is_in_place, is_missing, find_by_content, find_duplicate,
  find_original, find_moved, place, settle, insert_new, new_recording,
}

-- a row that a file may be a duplicate of
pub record IsOriginal (workspace : ℕ) (full digest : String) (o : Recording) : Type 0 where
  pub here : o.workspace_id ≡ workspace
  pub current : o.path_current ≡ true
  pub present : is_missing o.status ≡ false
  pub alike : (opt_str_eq o.content_hash full || str_eq o.partial_hash digest) ≡ true

module _ (disk : Disk) (rows : List Recording) (workspace : ℕ) (full digest : String)
    (o : Recording) where
  by_content-IsOriginal :
      find_where (is_in_place disk) (find_by_content rows workspace full) ≡ some o
      → Row o rows × IsOriginal workspace full digest o
  unfolding find_by_content has_matching_file
  by_content-IsOriginal e =
      let found =
        find_where-Row (is_in_place disk) (filter_where (is_by_content workspace full) rows) o e in
      let row = filter_where-Row (is_by_content workspace full) rows o found.0 in
      let place : is_in_place disk o ≡ true = found.1 in
      let content : is_by_content workspace full o ≡ true = row.1 in
      (
        row.0,
        record {
          here = ground arith;
          current = ground arith;
          present = ground arith;
          alike = ground arith;
        },
      )

  by_digest-IsOriginal :
      find_duplicate rows workspace digest ≡ some o
      → Row o rows × IsOriginal workspace full digest o
  unfolding find_duplicate
  by_digest-IsOriginal e =
      let found = find_where-Row (is_by_digest workspace digest) rows o e in
      let digests : is_by_digest workspace digest o ≡ true = found.1 in
      (
        found.0,
        record {
          here = ground arith;
          current = ground arith;
          present = ground arith;
          alike = ground arith;
        },
      )

  find_original-IsOriginal :
      find_original disk rows workspace full digest ≡ some o
      → Row o rows × IsOriginal workspace full digest o
  unfolding find_original
  find_original-IsOriginal e =
      elim (Option-cases (find_where (is_in_place disk) (find_by_content rows workspace full))) [
        | inl f ↦ by_digest-IsOriginal (rw f at e)
        | inr (x, f) ↦
            let same : some x ≡ some o = rw f at e in
            let eq : x ≡ o = cc in by_content-IsOriginal (rw eq at f)
      ]

-- what the outcome `duplicate` says of a registration
abbrev pub NamesOriginal : Db → Call → Contents → Recording → Type 0
NamesOriginal db c k r =
    (o : Recording) × Row o db.recordings
    × IsOriginal c.workspace_id k.full k.digest o
    × (r.duplicate_of_id ≡ some o.id)

insert_new-duplicate :
    (db after : Db) (c : Call) (s : Signature) (k : Contents) (r : Recording)
    (original : Option Recording)
    → find_original c.disk_again db.recordings c.workspace_id k.full k.digest ≡ original
    → insert_new db c s k original ≡ (after, registered r duplicate)
    → NamesOriginal db c k r
unfolding new_recording
insert_new-duplicate db after c s k r none f e =
    let bad : registered (new_recording c s k none) new ≡ registered r duplicate =
      ap (λ x. x.1) e in
    cc
insert_new-duplicate db after c s k r (some o) f e =
    let same : registered (new_recording c s k (some o)) duplicate ≡ registered r duplicate =
      ap (λ x. x.1) e in
    let eq : new_recording c s k (some o) ≡ r = cc in
    let found =
      find_original-IsOriginal c.disk_again db.recordings c.workspace_id k.full k.digest o f in
    (o, found.0, found.1, rw (← eq) refl)

settle-duplicate :
    (db after : Db) (c : Call) (s : Signature) (k : Contents) (r : Recording)
    (row : Option Recording)
    → settle db c s k row ≡ (after, registered r duplicate)
    → NamesOriginal db c k r
settle-duplicate db after c s k r none e =
    insert_new-duplicate db after c s k r
      (find_original c.disk_again db.recordings c.workspace_id k.full k.digest) refl e
settle-duplicate db after c s k r (some m) e =
    let bad : registered (moved_here db c s k m) moved ≡ registered r duplicate = ap (λ x. x.1) e in
    cc

-- A file is registered as a duplicate only of a present, current row of the same workspace whose
-- whole content, or partial digest, is that of the file, and it names that row.
pub place-duplicate :
    (db after : Db) (c : Call) (s : Signature) (k : Contents) (r : Recording)
    → place db c s k ≡ (after, registered r duplicate)
    → (o : Recording) × Row o db.recordings
      × IsOriginal c.workspace_id k.full k.digest o
      × (r.duplicate_of_id ≡ some o.id)
unfolding place
place-duplicate db after c s k r e =
    settle-duplicate db after c s k r (find_moved c.disk db.recordings c.workspace_id k.full) e
