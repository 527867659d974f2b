-- ===== src/Watch.antt =====
-- watch.py: files are registered once their signature has been the same for a while. The handler's
-- tables are shared by the thread of the events and that of `process_ready`; a ticket stands for the
-- identity of a pending item. A time is a number of seconds of the monotonic clock.
pub mod Keys
pub mod Newer
pub mod Quiet
pub mod Waiting
pub mod Stable
use soriham_api.Prelude.{
  ℕ, suc, ◌+◌, String, Bool, true, false, ◌&&◌, ◌||◌, not, Option, none, some, List, [], ◌∷◌, ◌++◌,
  ◌==◌, leb, str_eq, is_some, if◌then◌else◌,
}
use soriham_api.Files.{Signature, same_signature, is_signature}
use soriham_api.Table.{find_where, filter_where, update_where, delete_where}

-- STABLE_QUIET_SEC
abbrev pub stable_quiet : ℕ
stable_quiet = 5

pub record Item : Type 0 where
  pub path : String
  pub signature : Signature
  pub ready_at : ℕ
  pub ticket : ℕ

pub record Known : Type 0 where
  pub path : String
  pub signature : Signature

pub record Handler : Type 0 where
  pub pending : List Item
  pub registered : List Known
  -- the next ticket
  pub tickets : ℕ

abbrev pub is_for : String → Item → Bool
is_for path e = str_eq e.path path

abbrev pub is_known : String → Known → Bool
is_known path k = str_eq k.path path

-- self._pending[path] = (signature, ready_at)
abbrev pub put : Handler → String → Signature → ℕ → Handler
put h path signature ready_at =
    if is_some (find_where (is_for path) h.pending)
    then record h {
      pending =
          update_where (is_for path)
            (λ e. record e { signature = signature; ready_at = ready_at; ticket = h.tickets })
            h.pending;
      tickets = suc h.tickets;
    }
    else record h {
      pending =
          h.pending
          ++ record { path = path; signature = signature; ready_at = ready_at; ticket = h.tickets }
            ∷ [];
      tickets = suc h.tickets;
    }

abbrev pub known_signature : Option Known → Option Signature
known_signature none = none
known_signature (some k) = some k.signature

abbrev pub item_signature : Option Item → Option Signature
item_signature none = none
item_signature (some e) = some e.signature

-- what _maybe_ingest does under the lock
abbrev pub note : Handler → String → Signature → ℕ → Handler
note h path signature now =
    if is_signature (known_signature (find_where (is_known path) h.registered)) signature
    then h
    else if is_signature (item_signature (find_where (is_for path) h.pending)) signature
    then h
    else put h path signature (now + stable_quiet)

-- `none` is OSError
abbrev pub note_read : Handler → String → Option Signature → ℕ → Handler
note_read h path none now = h
note_read h path (some signature) now = note h path signature now

unfoldable pub maybe_ingest : Handler → Bool → String → Option Signature → ℕ → Handler
maybe_ingest h is_audio path signature now = if is_audio then note_read h path signature now else h

-- on_deleted, and the first half of on_modified
unfoldable pub forget : Handler → String → Handler
forget h path = record h {
  pending = delete_where (is_for path) h.pending;
  registered = delete_where (is_known path) h.registered;
}

-- one section under the lock of the thread of the events: on_created, on_moved and on_closed are
-- `looked`, on_deleted is `gone`, on_modified is `gone` and then `looked`, of a directory nothing; the
-- first field of `looked` says that the path is a file with a suffix of AUDIO_EXTENSIONS
pub data Event : Type 0 where
  looked : Bool → String → Option Signature → ℕ → Event
  gone : String → Event

unfoldable pub handle : Handler → Event → Handler
unfolding maybe_ingest forget
handle h (looked is_audio path signature now) = maybe_ingest h is_audio path signature now
handle h (gone path) = forget h path

unfoldable pub handle_all : Handler → List Event → Handler
unfolding handle
handle_all h [] = h
handle_all h (e ∷ es) = handle_all (handle h e) es

-- self._pending.get(path) is item
abbrev pub has_ticket : ℕ → Option Item → Bool
has_ticket ticket none = false
has_ticket ticket (some e) = e.ticket == ticket

abbrev pub is_current : Handler → Item → Bool
is_current h item = has_ticket item.ticket (find_where (is_for item.path) h.pending)

unfoldable pub drop_item : Handler → Item → Handler
drop_item h item =
    if is_current h item
    then record h { pending = delete_where (is_for item.path) h.pending }
    else h

-- _retry
unfoldable pub retry : Handler → Item → Signature → ℕ → Handler
retry h item signature now =
    if is_current h item then put h item.path signature (now + stable_quiet) else h

-- the signature is that of the row that was registered, or there is no row
abbrev pub learn : Handler → String → Signature → Option Signature → Handler
learn h path signature saved =
    if is_signature saved signature
    then record h {
      registered =
          delete_where (is_known path) h.registered
          ++ record { path = path; signature = signature } ∷ [];
    }
    else h

-- how a read of the file or its registration ends
pub data Look : Type 0 where
  seen : Signature → Look
  not_found : Look
  unreadable : Look

pub data Registration : Type 0 where
  saved : Option Signature → Registration
  vanished : Registration
  failed : Registration

-- one pending item: what is read, what the registration gives, and the events until the last lock
pub record Attempt : Type 0 where
  pub look : Look
  pub registration : Registration
  pub meanwhile : List Event
  pub now : ℕ

abbrev pub conclude : Handler → Item → Signature → ℕ → Registration → Handler
conclude h item signature now (saved s) = learn (drop_item h item) item.path signature s
conclude h item signature now vanished = drop_item h item
conclude h item signature now failed = retry h item item.signature now

-- the file is as it was, and not empty
abbrev pub is_stable : Item → Signature → Bool
is_stable item signature = same_signature signature item.signature && not (signature.size == 0)

abbrev pub after_look : Handler → Item → Attempt → Look → Handler
after_look h item a not_found = drop_item h item
after_look h item a unreadable = retry h item item.signature a.now
after_look h item a (seen signature) =
    if is_stable item signature
    then conclude h item signature a.now a.registration
    else retry h item signature a.now

unfoldable pub process_item : Handler → Item → Attempt → Handler
unfolding handle_all drop_item retry
process_item h item a = after_look (handle_all h a.meanwhile) item a a.look

abbrev pub is_ready : ℕ → Item → Bool
is_ready now e = leb e.ready_at now

unfoldable pub process_items : Handler → List Item → (Item → Attempt) → Handler
unfolding process_item
process_items h [] attempt = h
process_items h (item ∷ ready) attempt =
    process_items (process_item h item (attempt item)) ready attempt

unfoldable pub process_ready : Handler → ℕ → (Item → Attempt) → Handler
unfolding process_items
process_ready h now attempt = process_items h (filter_where (is_ready now) h.pending) attempt
