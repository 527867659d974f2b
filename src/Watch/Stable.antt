-- ===== src/Watch/Stable.antt =====
-- A pass registers only files that were quiet: what the registration of another one would give plays
-- no part.
use soriham_api.Prelude.{
  ℕ, ◌≤◌, ◌≡◌, ◌∙◌, refl, ap, true, List, [], ◌∷◌, arith, Bool-cases, inl, inr,
}
use soriham_api.Files.{Signature}
use soriham_api.Table.{filter_where, All}
use soriham_api.Table.Keys.{All-of_Row}
use soriham_api.Table.Best.{filter_where-Row}
use soriham_api.Watch.{
  Item, Handler, Attempt, Look, seen, not_found, unreadable, handle_all, retry, conclude,
  after_look, is_stable, is_ready, process_item, process_items, process_ready,
}
use soriham_api.Watch.Quiet.{Reading}
use soriham_api.Watch.Waiting.{Run, WasQuiet, Run-is_stable}

-- Two attempts at an item that see the same, at the same time and among the same events. What the
-- registration gives is the same if the file was quiet, and may be anything if it was not.
pub record Agree (rs : List Reading) (item : Item) (a b : Attempt) : Type 0 where
  pub look : a.look ≡ b.look
  pub meanwhile : a.meanwhile ≡ b.meanwhile
  pub now : a.now ≡ b.now
  pub registration :
      (s : Signature) → a.look ≡ seen s → WasQuiet rs item s a.now → a.registration ≡ b.registration

-- the two attempts leave the same, whatever the handler holds by then
abbrev Alike : (Item → Attempt) → (Item → Attempt) → Item → Type 0
Alike attempt other item =
    (h : Handler) → process_item h item (attempt item) ≡ process_item h item (other item)

after_look-Agree :
    (h : Handler) (item : Item) (a b : Attempt) (look : Look)
    → a.now ≡ b.now
    → ((s : Signature) → look ≡ seen s → is_stable item s ≡ true → a.registration ≡ b.registration)
    → after_look h item a look ≡ after_look h item b look
after_look-Agree h item a b not_found now same = refl
after_look-Agree h item a b unreadable now same = ap (retry h item item.signature) now
after_look-Agree h item a b (seen s) now same = elim (Bool-cases (is_stable item s)) [
  | inl stable ↦
      let given = same s refl stable in
      rw stable
        (ap (λ n. conclude h item s n a.registration) now ∙ ap (conclude h item s b.now) given)
  | inr moving ↦ rw moving (ap (retry h item s) now)
]

process_item-Agree :
    (rs : List Reading) (item : Item) (a b : Attempt)
    → Agree rs item a b
    → ((s : Signature) → is_stable item s ≡ true → WasQuiet rs item s a.now)
    → (h : Handler) → process_item h item a ≡ process_item h item b
unfolding process_item
process_item-Agree rs item a b g quiet h =
    after_look-Agree (handle_all h a.meanwhile) item a b a.look g.now
      (λ s looks stable. g.registration s looks (quiet s stable))
    ∙ ap (λ es. after_look (handle_all h es) item b a.look) g.meanwhile
    ∙ ap (λ l. after_look (handle_all h b.meanwhile) item b l) g.look

WasQuiet-later :
    (rs : List Reading) (item : Item) (s : Signature) (now later : ℕ)
    → now ≤ later
    → WasQuiet rs item s now
    → WasQuiet rs item s later
WasQuiet-later rs item s now later le (r, row, path, sig, time, full) =
    (r, row, path, sig, omega arith, full)

process_items-Alike :
    (h : Handler) (items : List Item) (attempt other : Item → Attempt)
    → All (Alike attempt other) items
    → process_items h items attempt ≡ process_items h items other
unfolding process_items
process_items-Alike h [] attempt other alike = refl
process_items-Alike h (item ∷ items) attempt other (alike, rest) =
    ap (λ h'. process_items h' items attempt) (alike h)
    ∙ process_items-Alike (process_item h item (other item)) items attempt other rest

-- After any events and passes, a pass registers an item only if its file is not empty and has the
-- signature that a reading of the same path gave at least the quiet time before: for every other item
-- it makes no difference what a registration would give.
pub process_ready-quiet :
    (rs : List Reading) (h : Handler) (now : ℕ) (attempt other : Item → Attempt)
    → Run rs h
    → ((item : Item) → now ≤ (attempt item).now)
    → ((item : Item) → Agree rs item (attempt item) (other item))
    → process_ready h now attempt ≡ process_ready h now other
unfolding process_ready
process_ready-quiet rs h now attempt other run later agree =
    let items = filter_where (is_ready now) h.pending in
    process_items-Alike h items attempt other (
      All-of_Row (Alike attempt other) items (λ item row.
        let (pending, due) = filter_where-Row (is_ready now) h.pending item row in
        process_item-Agree rs item (attempt item) (other item) (agree item) (λ s stable.
          WasQuiet-later rs item s now (attempt item).now (later item)
            (Run-is_stable rs h item now s run pending due stable))))
