-- ===== src/Ingest/Register.antt =====
-- How a registration can end, and that it keeps the keys of the table.
use soriham_api.Prelude.{◌≡◌, refl, Option, none, some, Bool-cases, inl, inr}
use soriham_api.Files.{Signature, same_signature}
use soriham_api.Table.{find_where}
use soriham_api.Models.{Recording}
use soriham_api.Worker.{Db}
use soriham_api.Ingest.{
  Call, Contents, Ingested, registered, refused, IngestError, existing, is_at, is_elsewhere,
  is_settled, register, after_locks, after_read, read_file, first_look, ingest_seen, ingest_file,
  unreadable, changed, elsewhere,
}
use soriham_api.Ingest.Places.{HasKeys, IsFresh, register-HasKeys}

-- the ways that a call can end
pub data Course (db : Db) (c : Call) (out : Db × Ingested) : Type 0 where
  known : (r : Recording) → out ≡ (db, registered r existing) → Course db c out
  stopped : (e : IngestError) → out ≡ (db, refused e) → Course db c out
  overtaken : (e : IngestError) → out ≡ (c.meanwhile db, refused e) → Course db c out
  through :
      (s : Signature) (k : Contents)
      → c.signature ≡ some s
      → c.contents ≡ some k
      → out ≡ register (c.meanwhile db) c s k
      → Course db c out

module _ (db : Db) (c : Call) (s : Signature) (seen : c.signature ≡ some s) where
  after_locks-Course :
      (k : Contents) (t : Option Signature)
      → c.contents ≡ some k
      → Course db c (after_locks (c.meanwhile db) c s k t)
  after_locks-Course k none e = overtaken unreadable refl
  after_locks-Course k (some t) e = elim (Bool-cases (same_signature t s)) [
    | inl same ↦ through s k seen e (rw same refl)
    | inr apart ↦ overtaken changed (rw apart refl)
  ]

  after_read-Course :
      (k : Contents) (t : Option Signature)
      → c.contents ≡ some k
      → Course db c (after_read db c s k t)
  after_read-Course k none e = stopped unreadable refl
  after_read-Course k (some t) e = elim (Bool-cases (same_signature t s)) [
    | inl same ↦ rw same (after_locks-Course k c.signature_locked e)
    | inr apart ↦ stopped changed (rw apart refl)
  ]

  read_file-Course : (k : Option Contents) → c.contents ≡ k → Course db c (read_file db c s k)
  read_file-Course none e = stopped unreadable refl
  read_file-Course (some k) e = after_read-Course k c.signature_read e

  first_look-Course : (row : Option Recording) → Course db c (first_look db c s row)
  first_look-Course none = read_file-Course c.contents refl
  first_look-Course (some r) = elim (Bool-cases (is_elsewhere c r)) [
    | inl f ↦ stopped elsewhere (rw f refl)
    | inr f ↦ rw f (elim (Bool-cases (is_settled c s r)) [
      | inl g ↦ known r (rw g refl)
      | inr g ↦ rw g (read_file-Course c.contents refl)
    ])
  ]

ingest_seen-Course :
    (db : Db) (c : Call) (s : Option Signature) → c.signature ≡ s → Course db c (ingest_seen db c s)
ingest_seen-Course db c none e = stopped unreadable refl
ingest_seen-Course db c (some s) e =
    first_look-Course db c s e (find_where (is_at c.path) db.recordings)

pub ingest_file-Course : (db : Db) (c : Call) → Course db c (ingest_file db c)
unfolding ingest_file
ingest_file-Course db c = ingest_seen-Course db c c.signature refl

Course-HasKeys :
    (db : Db) (c : Call) (out : Db × Ingested)
    → Course db c out
    → HasKeys db
    → HasKeys (c.meanwhile db)
    → IsFresh c.fresh_id (c.meanwhile db)
    → HasKeys out.0
Course-HasKeys db c out (known r e) keys later fresh = rw e keys
Course-HasKeys db c out (stopped x e) keys later fresh = rw e keys
Course-HasKeys db c out (overtaken x e) keys later fresh = rw e later
Course-HasKeys db c out (through s k es ek e) keys later fresh =
    rw e (register-HasKeys c s k (c.meanwhile db) later fresh)

-- Where ids and current paths are unique before the call and when it has the locks, and the next id
-- is free, they are unique after it: two current recordings never share a path.
pub ingest_file-HasKeys :
    (db : Db) (c : Call)
    → HasKeys db
    → HasKeys (c.meanwhile db)
    → IsFresh c.fresh_id (c.meanwhile db)
    → HasKeys (ingest_file db c).0
ingest_file-HasKeys db c = Course-HasKeys db c (ingest_file db c) (ingest_file-Course db c)
