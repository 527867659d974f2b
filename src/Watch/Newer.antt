-- ===== src/Watch/Newer.antt =====
-- Events that come while an item is processed.
use soriham_api.Prelude.{
  ℕ, ◌+◌, ◌≡◌, ◌∙◌, sym, true, false, Option, ◌==◌, eq_iff, is_some, Bool-cases, Option-cases, inl,
  inr,
}
use soriham_api.Files.{Signature, is_signature}
use soriham_api.Table.{find_where, Row}
use soriham_api.Table.Keys.{Unique-one, Row-update_where_miss, Row-delete_where_miss, Row-append}
use soriham_api.Table.Find.{find_where-Row}
use soriham_api.Watch.{
  Item, Handler, is_for, handle_all, is_current, drop_item, retry, stable_quiet, learn,
  Registration, saved, vanished, failed, conclude, Look, seen, not_found, unreadable, is_stable,
  Attempt, after_look, process_item,
}
use soriham_api.Watch.Keys.{same_path, HasPaths, handle_all-HasPaths}

module _ (h : Handler) (item e : Item) (keys : HasPaths h) (row : Row e h.pending)
    (newer : (e.ticket == item.ticket) ≡ false) where
  -- the one item of a path is the current one, so that another one is of another path
  current-miss : is_current h item ≡ true → is_for item.path e ≡ false
  current-miss current = elim (Bool-cases (is_for item.path e)) [
    | inr away ↦ away
    | inl there ↦ elim (Option-cases (find_where (is_for item.path) h.pending)) [
      | inl f ↦ absurd (let bad : false ≡ true = rw f at current in cc)
      | inr (x, f) ↦
          let at = find_where-Row (is_for item.path) h.pending x f in
          let ticket : (x.ticket == item.ticket) ≡ true = rw f at current in
          let one : e ≡ x =
            Unique-one same_path (is_for item.path) h.pending e x keys
              (λ a b ha hb.
                (eq_iff a.path b.path).1
                  ((eq_iff a.path item.path).0 ha ∙ sym ((eq_iff b.path item.path).0 hb)))
              row at.0 there at.1 in
          absurd (let bad : (x.ticket == item.ticket) ≡ false = rw (← one) newer in cc)
    ]
  ]

  drop_item-keeps : Row e (drop_item h item).pending
  unfolding drop_item
  drop_item-keeps = elim (Bool-cases (is_current h item)) [
    | inl c ↦ rw c (Row-delete_where_miss (is_for item.path) e (current-miss c) h.pending row)
    | inr c ↦ rw c row
  ]

  retry-keeps : (s : Signature) (now : ℕ) → Row e (retry h item s now).pending
  unfolding retry
  retry-keeps s now = elim (Bool-cases (is_current h item)) [
    | inr c ↦ rw c row
    | inl c ↦ rw c (elim (Bool-cases (is_some (find_where (is_for item.path) h.pending))) [
      | inl f ↦ rw f (
          Row-update_where_miss (is_for item.path) e (current-miss c)
            (λ x. record x { signature = s; ready_at = now + stable_quiet; ticket = h.tickets })
            h.pending row)
      | inr f ↦ rw f (Row-append e h.pending _ row)
    ])
  ]

  learn-keeps :
      (g : Handler) (s : Signature) (o : Option Signature)
      → Row e g.pending
      → Row e (learn g item.path s o).pending
  learn-keeps g s o r = elim (Bool-cases (is_signature o s)) [ inl c ↦ rw c r | inr c ↦ rw c r ]

  conclude-keeps :
      (s : Signature) (now : ℕ) (end : Registration) → Row e (conclude h item s now end).pending
  conclude-keeps s now (saved o) = learn-keeps (drop_item h item) s o drop_item-keeps
  conclude-keeps s now vanished = drop_item-keeps
  conclude-keeps s now failed = retry-keeps item.signature now

  after_look-keeps : (a : Attempt) (look : Look) → Row e (after_look h item a look).pending
  after_look-keeps a not_found = drop_item-keeps
  after_look-keeps a unreadable = retry-keeps item.signature a.now
  after_look-keeps a (seen s) = elim (Bool-cases (is_stable item s)) [
    | inl c ↦ rw c (conclude-keeps s a.now a.registration)
    | inr c ↦ rw c (retry-keeps s a.now)
  ]

-- No path being pending twice, whatever events come while an item is looked at and registered, and
-- however that ends: what they leave pending, but for the item itself, is still pending afterwards.
pub process_item-keeps :
    (h : Handler) (item e : Item) (a : Attempt)
    → HasPaths h
    → Row e (handle_all h a.meanwhile).pending
    → (e.ticket == item.ticket) ≡ false
    → Row e (process_item h item a).pending
unfolding process_item
process_item-keeps h item e a keys row newer =
    after_look-keeps (handle_all h a.meanwhile) item e (handle_all-HasPaths h a.meanwhile keys) row
      newer a a.look
