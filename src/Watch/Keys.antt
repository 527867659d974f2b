-- ===== src/Watch/Keys.antt =====
-- A path is pending once.
use soriham_api.Prelude.{
  ℕ, ◌+◌, ◌≡◌, String, Bool, true, false, none, some, List, [], ◌∷◌, str_eq, is_some, Bool-cases,
  Option-cases, inl, inr,
}
use soriham_api.Files.{Signature, is_signature}
use soriham_api.Table.{find_where, Unique}
use soriham_api.Table.Rows.{Unique-append}
use soriham_api.Table.Keys.{Unique-update_where_sub, Unique-delete_where}
use soriham_api.Table.Find.{find_where-All_none}
use soriham_api.Watch.{
  Item, Handler, Event, looked, gone, is_for, is_known, put, known_signature, item_signature,
  stable_quiet, maybe_ingest, forget, handle, handle_all, is_current, drop_item,
}

abbrev pub same_path : Item → Item → Bool
same_path a b = str_eq a.path b.path

abbrev pub HasPaths : Handler → Type 0
HasPaths h = Unique same_path h.pending

none_found :
    (path : String) (xs : List Item)
    → is_some (find_where (is_for path) xs) ≡ false
    → find_where (is_for path) xs ≡ none
none_found path xs h = elim (Option-cases (find_where (is_for path) xs)) [
  | inl e ↦ e
  | inr (x, e) ↦ absurd (let bad : true ≡ false = rw e at h in cc)
]

pub put-HasPaths :
    (h : Handler) (path : String) (s : Signature) (ready_at : ℕ)
    → HasPaths h
    → HasPaths (put h path s ready_at)
put-HasPaths h path s ready_at keys =
    elim (Bool-cases (is_some (find_where (is_for path) h.pending))) [
      | inl e ↦ rw e (
          Unique-update_where_sub same_path (is_for path)
            (λ x. record x { signature = s; ready_at = ready_at; ticket = h.tickets }) h.pending
            (λ x y same. same) (λ x y same. same) keys)
      | inr e ↦ rw e (
          Unique-append same_path h.pending
            (record { path = path; signature = s; ready_at = ready_at; ticket = h.tickets }) keys
            (find_where-All_none (is_for path) h.pending (none_found path h.pending e)))
    ]

drop_item-HasPaths : (h : Handler) (item : Item) → HasPaths h → HasPaths (drop_item h item)
unfolding drop_item
drop_item-HasPaths h item keys = elim (Bool-cases (is_current h item)) [
  | inl e ↦ rw e (Unique-delete_where same_path (is_for item.path) h.pending keys)
  | inr e ↦ rw e keys
]

handle-HasPaths : (h : Handler) (e : Event) → HasPaths h → HasPaths (handle h e)
unfolding handle maybe_ingest forget
handle-HasPaths h (gone path) keys = Unique-delete_where same_path (is_for path) h.pending keys
handle-HasPaths h (looked false path signature now) keys = keys
handle-HasPaths h (looked true path none now) keys = keys
handle-HasPaths h (looked true path (some s) now) keys =
    elim (Bool-cases (is_signature (known_signature (find_where (is_known path) h.registered)) s)) [
      | inl e ↦ rw e keys
      | inr e ↦
          rw e
            (elim (Bool-cases
              (is_signature (item_signature (find_where (is_for path) h.pending)) s)) [
                | inl g ↦ rw g keys
                | inr g ↦ rw g (put-HasPaths h path s (now + stable_quiet) keys)
              ])
    ]

pub handle_all-HasPaths : (h : Handler) (es : List Event) → HasPaths h → HasPaths (handle_all h es)
unfolding handle_all
handle_all-HasPaths h [] keys = keys
handle_all-HasPaths h (e ∷ es) keys = handle_all-HasPaths (handle h e) es (handle-HasPaths h e keys)
