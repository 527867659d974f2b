-- ===== src/Watch/Waiting.antt =====
-- What every registration of the handler rests on.
use soriham_api.Prelude.{
  ℕ, ◌+◌, ◌≤◌, ◌≡◌, ◌≢◌, ◌∙◌, sym, true, false, List, [], ◌∷◌, ◌++◌, ◌==◌, arith,
}
use soriham_api.Files.{Signature, same_signature, same_signature_iff}
use soriham_api.Table.{filter_where, Row, All}
use soriham_api.Table.Rows.{All-Row, All-map}
use soriham_api.Table.Keys.{All-of_Row}
use soriham_api.Table.Best.{filter_where-Row}
use soriham_api.Watch.{
  Item, Handler, Event, Attempt, handle, process_item, process_items, process_ready, is_ready,
  is_stable, stable_quiet,
}
use soriham_api.Watch.Quiet.{
  Reading, WasSeen, IsQuiet, readings_of, readings_for, readings_for_all, append_assoc,
  WasSeen-append, IsQuiet-append, handle-IsQuiet, process_item-IsQuiet,
}

abbrev pub no_items : Handler
no_items = record { pending = []; registered = []; tickets = 0 }

-- the handler after any events and passes, with what was read of the files
pub data Run : List Reading → Handler → Type 0 where
  start : Run [] no_items
  event :
      (rs : List Reading) (h : Handler) (e : Event)
      → Run rs h
      → Run (rs ++ readings_of e) (handle h e)
  pass :
      (rs : List Reading) (h : Handler) (now : ℕ) (attempt : Item → Attempt)
      → ((item : Item) → now ≤ (attempt item).now)
      → Run rs h
      → Run
          (rs ++ readings_for_all (filter_where (is_ready now) h.pending) attempt)
          (process_ready h now attempt)

process_items-IsQuiet :
    (rs : List Reading) (h : Handler) (items : List Item) (now : ℕ) (attempt : Item → Attempt)
    → IsQuiet rs h
    → All (WasSeen rs) items
    → All (λ item. item.ready_at ≤ now) items
    → ((item : Item) → now ≤ (attempt item).now)
    → IsQuiet (rs ++ readings_for_all items attempt) (process_items h items attempt)
unfolding process_items
process_items-IsQuiet rs h [] now attempt q w due later = IsQuiet-append rs [] h q
process_items-IsQuiet rs h (item ∷ items) now attempt q w due later =
    let more = readings_for item (attempt item) in
    rw (← append_assoc rs more (readings_for_all items attempt)) (
      process_items-IsQuiet (rs ++ more) (process_item h item (attempt item)) items now attempt
        (process_item-IsQuiet rs h item (attempt item) q w.0 (omega (arith, due.0, later item)))
        (All-map (WasSeen rs) (WasSeen (rs ++ more)) items (WasSeen-append rs more) w.1) due.1
        later)

Run-IsQuiet : (rs : List Reading) (h : Handler) → Run rs h → IsQuiet rs h
unfolding process_ready
Run-IsQuiet _ _ start = tt
Run-IsQuiet _ _ (event rs h e run) = handle-IsQuiet rs h e (Run-IsQuiet rs h run)
Run-IsQuiet _ _ (pass rs h now attempt later run) =
    let q = Run-IsQuiet rs h run in
    let items = filter_where (is_ready now) h.pending in
    process_items-IsQuiet rs h items now attempt q
      (All-of_Row (WasSeen rs) items (λ x r.
        All-Row (WasSeen rs) h.pending x q (filter_where-Row (is_ready now) h.pending x r).0))
      (All-of_Row (λ x. x.ready_at ≤ now) items
        (λ x r. let due = (filter_where-Row (is_ready now) h.pending x r).1 in ground arith))
      later

-- the file is not empty, and a reading of the path gave this signature at least the quiet time before
abbrev pub WasQuiet : List Reading → Item → Signature → ℕ → Type 0
WasQuiet rs item s now =
    (r : Reading) × Row r rs
    × (r.path ≡ item.path)
    × (r.signature ≡ s)
    × (r.time + stable_quiet ≤ now)
    × (s.size ≢ 0)

-- After any events and passes, an item that is due and whose file looks the same again was quiet.
pub Run-is_stable :
    (rs : List Reading) (h : Handler) (item : Item) (now : ℕ) (s : Signature)
    → Run rs h
    → Row item h.pending
    → is_ready now item ≡ true
    → is_stable item s ≡ true
    → WasQuiet rs item s now
Run-is_stable rs h item now s run row due stable =
    let w = All-Row (WasSeen rs) h.pending item (Run-IsQuiet rs h run) row in
    let same : same_signature s item.signature ≡ true = ground arith in
    let full : (s.size == 0) ≡ false = ground arith in
    let at : item.ready_at ≤ now = ground arith in
    (
      w.reading,
      w.is_read,
      w.same_path,
      w.same_sig ∙ sym ((same_signature_iff s item.signature).0 same),
      omega (arith, w.waits, at),
      λ empty. let yes_empty : (s.size == 0) ≡ true = ground arith in cc,
    )
