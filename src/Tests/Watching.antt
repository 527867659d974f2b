-- ===== src/Tests/Watching.antt =====
-- watch.py: a file is modified while it is registered.
use soriham_api.Prelude.{◌≡◌, refl, ap, sym, arith, true, some, [], ◌∷◌, ◌++◌}
use soriham_api.Files.{Signature}
use soriham_api.Table.{find_where, filter_where, delete_where, Row, here}
use soriham_api.Watch.{
  Item, Handler, Event, looked, gone, Attempt, seen, saved, vanished, handle, handle_all,
  maybe_ingest, forget, drop_item, process_item, process_ready, process_items,
}
use soriham_api.Watch.Newer.{process_item-keeps}
use soriham_api.Watch.Quiet.{readings_of}
use soriham_api.Watch.Waiting.{start, event, no_items, WasQuiet}
use soriham_api.Watch.Stable.{process_ready-quiet}

abbrev written : Signature
written = record { device = 1; inode = 2; size = 5; mtime = 3; ctime = 4 }

abbrev created : Event
created = looked true "/a.m4a" (some written) 10

abbrev first : Item
first = record { path = "/a.m4a"; signature = written; ready_at = 15; ticket = 0 }

abbrev waiting : Handler
waiting = record { pending = first ∷ []; registered = []; tickets = 1 }

wait : handle no_items created ≡ waiting
unfolding handle maybe_ingest find_where
wait = refl

abbrev second : Item
second = record first { ready_at = 21; ticket = 1 }

-- an event of a modification, though the signature is the same
abbrev modified : Attempt
modified = record {
  look = seen written;
  registration = saved (some written);
  meanwhile = gone "/a.m4a" ∷ looked true "/a.m4a" (some written) 16 ∷ [];
  now = 17;
}

left : Row second (handle_all waiting modified.meanwhile).pending
unfolding handle_all handle maybe_ingest forget find_where delete_where
left = here []

process_item-keeps_example : Row second (process_item waiting first modified).pending
process_item-keeps_example = process_item-keeps waiting first second modified (tt, tt) left refl

abbrev undisturbed : Attempt
undisturbed = record modified { meanwhile = [] }

registered_once : process_ready waiting 17 (λ item. undisturbed) ≡ record {
  pending = [];
  registered = record { path = "/a.m4a"; signature = written } ∷ [];
  tickets = 1;
}
unfolding process_ready process_items process_item handle_all drop_item filter_where find_where
    delete_where
registered_once = refl

too_early : process_ready waiting 14 (λ item. undisturbed) ≡ waiting
unfolding process_ready process_items filter_where
too_early = refl

-- of the empty file nothing is registered, though it is due and looks the same
abbrev empty : Signature
empty = record written { size = 0 }

abbrev touched : Event
touched = looked true "/a.m4a" (some empty) 10

abbrev at_empty : Attempt
at_empty = record undisturbed { look = seen empty; registration = saved (some empty) }

empty_is_not_quiet :
    (item : Item) (s : Signature)
    → seen empty ≡ seen s
    → WasQuiet ([] ++ readings_of touched) item s 17
    → saved (some empty) ≡ vanished
empty_is_not_quiet item s looks (r, row, path, sig, time, full) =
    let same : empty ≡ s = cc in absurd (full (ap (λ x. x.size) (sym same)))

process_ready-quiet_example :
    process_ready (handle no_items touched) 17 (λ item. at_empty)
    ≡ process_ready
        (handle no_items touched)
        17
        (λ item. record at_empty { registration = vanished })
process_ready-quiet_example =
    process_ready-quiet ([] ++ readings_of touched) (handle no_items touched) 17 (λ item. at_empty)
      (λ item. record at_empty { registration = vanished }) (event [] no_items touched start)
      (λ item. omega arith)
      (λ item. record {
        look = refl;
        meanwhile = refl;
        now = refl;
        registration = λ s looks quiet. empty_is_not_quiet item s looks quiet;
      })
