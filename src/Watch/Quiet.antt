-- ===== src/Watch/Quiet.antt =====
-- How long a signature has been the same before a file is registered.
use soriham_api.Prelude.{
  ℕ, ◌+◌, ◌≤◌, ◌≡◌, ◌∙◌, refl, sym, ap, String, true, false, Option, none, some, List, [], ◌∷◌,
  ◌++◌, eq_iff, is_some, arith, Bool-cases, inl, inr,
}
use soriham_api.Files.{Signature, is_signature}
use soriham_api.Table.{find_where, Row, here, there, All}
use soriham_api.Table.Rows.{All-map, All-append, All-update_where, All-delete_where}
use soriham_api.Table.Keys.{Row-append}
use soriham_api.Watch.{
  Item, Handler, Event, looked, gone, is_for, is_known, put, known_signature, item_signature,
  stable_quiet, maybe_ingest, forget, handle, handle_all, is_current, drop_item, retry, learn,
  Registration, saved, vanished, failed, conclude, Look, seen, not_found, unreadable, is_stable,
  Attempt, after_look, process_item,
}

-- a signature that was read of a path, at the time or before
pub record Reading : Type 0 where
  pub path : String
  pub signature : Signature
  pub time : ℕ

-- a reading that is as old as an item's wait
pub record WasSeen (readings : List Reading) (e : Item) : Type 0 where
  pub reading : Reading
  pub is_read : Row reading readings
  pub same_path : reading.path ≡ e.path
  pub same_sig : reading.signature ≡ e.signature
  pub waits : reading.time + stable_quiet ≤ e.ready_at

abbrev pub IsQuiet : List Reading → Handler → Type 0
IsQuiet readings h = All (WasSeen readings) h.pending

-- the readings of an event
abbrev pub readings_of : Event → List Reading
readings_of (gone path) = []
readings_of (looked is_audio path none now) = []
readings_of (looked is_audio path (some s) now) =
    record { path = path; signature = s; time = now } ∷ []

abbrev pub readings_in : List Event → List Reading
readings_in [] = []
readings_in (e ∷ es) = readings_of e ++ readings_in es

-- the readings of one attempt, and of those of a pass
abbrev pub readings_at : Item → Attempt → Look → List Reading
readings_at item a (seen s) = record { path = item.path; signature = s; time = a.now } ∷ []
readings_at item a other = []

abbrev pub readings_for : Item → Attempt → List Reading
readings_for item a = readings_in a.meanwhile ++ readings_at item a a.look

abbrev pub readings_for_all : List Item → (Item → Attempt) → List Reading
readings_for_all [] attempt = []
readings_for_all (item ∷ items) attempt =
    readings_for item (attempt item) ++ readings_for_all items attempt

pub append_assoc : (a b c : List Reading) → (a ++ b) ++ c ≡ a ++ (b ++ c)
append_assoc [] b c = refl
append_assoc (x ∷ a) b c = ap (λ l. x ∷ l) (append_assoc a b c)

append_nil : (a : List Reading) → a ++ [] ≡ a
append_nil [] = refl
append_nil (x ∷ a) = ap (λ l. x ∷ l) (append_nil a)

Row-append_end : (r : Reading) (rs : List Reading) → Row r (rs ++ r ∷ [])
Row-append_end r [] = here []
Row-append_end r (x ∷ rs) = there x (rs ++ r ∷ []) (Row-append_end r rs)

pub WasSeen-append : (rs more : List Reading) (e : Item) → WasSeen rs e → WasSeen (rs ++ more) e
WasSeen-append rs more e w = record {
  reading = w.reading;
  is_read = Row-append w.reading rs more w.is_read;
  same_path = w.same_path;
  same_sig = w.same_sig;
  waits = w.waits;
}

pub IsQuiet-append : (rs more : List Reading) (h : Handler) → IsQuiet rs h → IsQuiet (rs ++ more) h
IsQuiet-append rs more h q =
    All-map (WasSeen rs) (WasSeen (rs ++ more)) h.pending (WasSeen-append rs more) q

module _ (rs : List Reading) where
  -- an entry that waits for a reading
  put-IsQuiet :
      (h : Handler) (path : String) (r : Reading) (ready_at : ℕ)
      → IsQuiet rs h
      → Row r rs
      → r.path ≡ path
      → r.time + stable_quiet ≤ ready_at
      → IsQuiet rs (put h path r.signature ready_at)
  put-IsQuiet h path r ready_at q row same waits =
      elim (Bool-cases (is_some (find_where (is_for path) h.pending))) [
        | inl e ↦ rw e (
            All-update_where (WasSeen rs) (is_for path)
              (λ x. record x { signature = r.signature; ready_at = ready_at; ticket = h.tickets })
              h.pending
              (λ x hit w. record {
                reading = r;
                is_read = row;
                same_path = same ∙ sym ((eq_iff x.path path).0 hit);
                same_sig = refl;
                waits = waits;
              })
              q)
        | inr e ↦ rw e (
            All-append (WasSeen rs) h.pending _ q (
              record {
                reading = r;
                is_read = row;
                same_path = same;
                same_sig = refl;
                waits = waits;
              },
              tt,
            ))
      ]

  drop_item-IsQuiet : (h : Handler) (item : Item) → IsQuiet rs h → IsQuiet rs (drop_item h item)
  unfolding drop_item
  drop_item-IsQuiet h item q = elim (Bool-cases (is_current h item)) [
    | inl c ↦ rw c (All-delete_where (WasSeen rs) (is_for item.path) h.pending q)
    | inr c ↦ rw c q
  ]

  retry-IsQuiet :
      (h : Handler) (item : Item) (r : Reading) (now : ℕ)
      → IsQuiet rs h
      → Row r rs
      → r.path ≡ item.path
      → r.time ≤ now
      → IsQuiet rs (retry h item r.signature now)
  unfolding retry
  retry-IsQuiet h item r now q row same past = elim (Bool-cases (is_current h item)) [
    | inl c ↦ rw c (put-IsQuiet h item.path r (now + stable_quiet) q row same (omega arith))
    | inr c ↦ rw c q
  ]

  learn-IsQuiet :
      (h : Handler) (path : String) (s : Signature) (o : Option Signature)
      → IsQuiet rs h
      → IsQuiet rs (learn h path s o)
  learn-IsQuiet h path s o q = elim (Bool-cases (is_signature o s)) [
    | inl c ↦ rw c q
    | inr c ↦ rw c q
  ]

  -- the item goes back with the signature that it had
  retry_item-IsQuiet :
      (h : Handler) (item : Item) (now : ℕ)
      → IsQuiet rs h
      → WasSeen rs item
      → item.ready_at ≤ now
      → IsQuiet rs (retry h item item.signature now)
  unfolding retry
  retry_item-IsQuiet h item now q w due =
      rw (← w.same_sig)
        (retry-IsQuiet h item w.reading now q w.is_read w.same_path (omega (arith, w.waits)))

  conclude-IsQuiet :
      (h : Handler) (item : Item) (s : Signature) (now : ℕ) (end : Registration)
      → IsQuiet rs h
      → WasSeen rs item
      → item.ready_at ≤ now
      → IsQuiet rs (conclude h item s now end)
  conclude-IsQuiet h item s now (saved o) q w due =
      learn-IsQuiet (drop_item h item) item.path s o (drop_item-IsQuiet h item q)
  conclude-IsQuiet h item s now vanished q w due = drop_item-IsQuiet h item q
  conclude-IsQuiet h item s now failed q w due = retry_item-IsQuiet h item now q w due

pub handle-IsQuiet :
    (rs : List Reading) (h : Handler) (e : Event)
    → IsQuiet rs h
    → IsQuiet (rs ++ readings_of e) (handle h e)
unfolding handle maybe_ingest forget
handle-IsQuiet rs h (gone path) q =
    IsQuiet-append rs [] (forget h path) (All-delete_where (WasSeen rs) (is_for path) h.pending q)
handle-IsQuiet rs h (looked false path none now) q = IsQuiet-append rs [] h q
handle-IsQuiet rs h (looked true path none now) q = IsQuiet-append rs [] h q
handle-IsQuiet rs h (looked false path (some s) now) q = IsQuiet-append rs _ h q
handle-IsQuiet rs h (looked true path (some s) now) q =
    let r : Reading = record { path = path; signature = s; time = now } in
    let later = IsQuiet-append rs (r ∷ []) h q in
    elim (Bool-cases (is_signature (known_signature (find_where (is_known path) h.registered)) s)) [
      | inl e ↦ rw e later
      | inr e ↦
          rw e
            (elim (Bool-cases
              (is_signature (item_signature (find_where (is_for path) h.pending)) s)) [
                | inl g ↦ rw g later
                | inr g ↦ rw g (
                    put-IsQuiet (rs ++ r ∷ []) h path r (now + stable_quiet) later
                      (Row-append_end r rs) refl (omega arith))
              ])
    ]

handle_all-IsQuiet :
    (rs : List Reading) (h : Handler) (es : List Event)
    → IsQuiet rs h
    → IsQuiet (rs ++ readings_in es) (handle_all h es)
unfolding handle_all
handle_all-IsQuiet rs h [] q = IsQuiet-append rs [] h q
handle_all-IsQuiet rs h (e ∷ es) q =
    rw (← append_assoc rs (readings_of e) (readings_in es))
      (handle_all-IsQuiet (rs ++ readings_of e) (handle h e) es (handle-IsQuiet rs h e q))

after_look-IsQuiet :
    (rs : List Reading) (h : Handler) (item : Item) (a : Attempt) (look : Look)
    → IsQuiet rs h
    → WasSeen rs item
    → item.ready_at ≤ a.now
    → IsQuiet (rs ++ readings_at item a look) (after_look h item a look)
after_look-IsQuiet rs h item a not_found q w due =
    IsQuiet-append rs [] (drop_item h item) (drop_item-IsQuiet rs h item q)
after_look-IsQuiet rs h item a unreadable q w due =
    IsQuiet-append rs [] (retry h item item.signature a.now)
      (retry_item-IsQuiet rs h item a.now q w due)
after_look-IsQuiet rs h item a (seen s) q w due =
    let r : Reading = record { path = item.path; signature = s; time = a.now } in
    let later = IsQuiet-append rs (r ∷ []) h q in
    elim (Bool-cases (is_stable item s)) [
      | inl c ↦ rw c (
          conclude-IsQuiet (rs ++ r ∷ []) h item s a.now a.registration later
            (WasSeen-append rs (r ∷ []) item w) due)
      | inr c ↦ rw c (
          retry-IsQuiet (rs ++ r ∷ []) h item r a.now later (Row-append_end r rs) refl
            (omega arith))
    ]

pub process_item-IsQuiet :
    (rs : List Reading) (h : Handler) (item : Item) (a : Attempt)
    → IsQuiet rs h
    → WasSeen rs item
    → item.ready_at ≤ a.now
    → IsQuiet (rs ++ readings_for item a) (process_item h item a)
unfolding process_item
process_item-IsQuiet rs h item a q w due =
    rw (← append_assoc rs (readings_in a.meanwhile) (readings_at item a a.look)) (
      after_look-IsQuiet (rs ++ readings_in a.meanwhile) (handle_all h a.meanwhile) item a a.look
        (handle_all-IsQuiet rs h a.meanwhile q) (WasSeen-append rs (readings_in a.meanwhile) item w)
        due)
