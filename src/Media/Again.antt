-- ===== src/Media/Again.antt =====
-- A part of a file that is asked for again, by the name that its response gave it.
use soriham_api.Prelude.{
  ℕ, ◌-◌, ◌≡◌, ◌∙◌, refl, ap, sym, String, true, false, Option, none, some, [], ◌∷◌, ◌++◌, ◌==◌,
  arith, Bool-cases, inl, inr, if◌then◌else◌,
}
use soriham_api.Table.{All}
use soriham_api.Media.Header.{Text, bytes, is_digit, range_of}
use soriham_api.Media.Decimal.{decimal}
use soriham_api.Media.RoundTrip.{IsShort, ask, range_of-again, decimal-AreDigits}
use soriham_api.Media.Answers.{range_text, part_text-eq-range_text}
use soriham_api.Media.Response.{
  Expected, Opened, Body, media_type, is_identified, part, part_text, answer, range_response,
}

-- A client's reading of a Content-Range as a Range header: up to the length of the file, with `=` in
-- place of the space.
abbrev pub as_request : Text → Text
as_request [] = []
as_request (c ∷ s) =
    let rest = as_request s in if c == b'/' then [] else (if c == 32 then b'=' else c) ∷ rest

as_request-digits :
    (s t : Text) → All (λ c. is_digit c ≡ true) s → as_request (s ++ t) ≡ s ++ as_request t
as_request-digits [] t h = refl
as_request-digits (c ∷ s) t h =
    let not_slash : (c == b'/') ≡ false = ground arith in
    let not_space : (c == 32) ≡ false = ground arith in
    rw (not_slash, not_space) (ap (λ rest. c ∷ rest) (as_request-digits s t h.1))

as_request-range_text :
    (start past_end size : ℕ)
    → as_request (range_text start past_end size) ≡ ask start (past_end - 1)
as_request-range_text start past_end size =
    let last = decimal (past_end - 1) in
    rw
      (
        as_request-digits (decimal start) (b'-' ∷ (last ++ b'/' ∷ decimal size))
            (decimal-AreDigits start),
        as_request-digits last (b'/' ∷ decimal size) (decimal-AreDigits (past_end - 1)),
      )
      (ap (λ t. bytes ++ b'=' ∷ (decimal start ++ b'-' ∷ t)) (append-nil last))
  where
    append-nil : (s : Text) → s ++ [] ≡ s
    append-nil [] = refl
    append-nil (c ∷ s) = ap (λ t. c ∷ t) (append-nil s)

part-again :
    (kind : String) (o : Opened) (hash : Option String) (header text : Text)
    (range : Option (ℕ × ℕ)) (b : Body)
    → range_of o.signature.size header ≡ range
    → (part kind o hash range).content_range ≡ some text
    → (part kind o hash range).body ≡ some b
    → IsShort b.start
    → IsShort (b.past_end - 1)
    → answer kind o hash (some (as_request text)) ≡ part kind o hash range
part-again kind o hash header text none b read named sent short_start short_end =
    let bad : none ≡ some b = sent in cc
part-again kind o hash header text (some (start, past_end)) b read named sent short_start
      short_end =
    let size = o.signature.size in
    let start_eq : start ≡ b.start = cc in
    let end_eq : past_end ≡ b.past_end = cc in
    let text_eq : part_text start past_end size ≡ text = cc in
    let name : range_text start past_end size ≡ text =
      sym (part_text-eq-range_text start past_end size) ∙ text_eq in
    let one : IsShort start = rw start_eq short_start in
    let two : IsShort (past_end - 1) = rw end_eq short_end in
    rw
      (
        ← name,
        as_request-range_text start past_end size,
        range_of-again size start past_end header read one two,
        read,
      )
      refl

answer-again :
    (kind : String) (o : Opened) (hash : Option String) (header : Option Text) (text : Text)
    (b : Body)
    → (answer kind o hash header).content_range ≡ some text
    → (answer kind o hash header).body ≡ some b
    → IsShort b.start
    → IsShort (b.past_end - 1)
    → answer kind o hash (some (as_request text)) ≡ answer kind o hash header
answer-again kind o hash none text b named sent one two = cc
answer-again kind o hash (some []) text b named sent one two = cc
answer-again kind o hash (some (c ∷ s)) text b named sent one two =
    part-again kind o hash (c ∷ s) text (range_of o.signature.size (c ∷ s)) b refl named sent one
      two

-- A client that asks for a part of a file and is answered can ask again by the Content-Range of the
-- answer, and gets the very same response, as long as the positions have no more digits than int()
-- reads.
pub range_response-again :
    (suffix : String) (e : Expected) (o : Opened) (header : Option Text) (text : Text) (b : Body)
    → (range_response suffix e header (some o)).content_range ≡ some text
    → (range_response suffix e header (some o)).body ≡ some b
    → IsShort b.start
    → IsShort (b.past_end - 1)
    → range_response suffix e (some (as_request text)) (some o)
      ≡ range_response suffix e header (some o)
unfolding range_response
range_response-again suffix e o header text b named sent short_start short_end =
    elim (Bool-cases (is_identified e o)) [
      | inl known ↦ rw known (
          answer-again (media_type suffix) o e.hash header text b (rw known at named)
            (rw known at sent) short_start short_end)
      | inr unknown ↦ let bad : none ≡ some b = rw unknown at sent in cc
    ]
