-- ===== src/Media/Answers.antt =====
-- What the headers of a response say of its bytes.
use soriham_api.Prelude.{
  ℕ, ◌-◌, ◌≤◌, ◌≡◌, ◌∙◌, refl, ap, sym, String, Option, none, some, List, [], ◌∷◌, length, take,
  drop, length-drop, arith, Bool-cases, ◌⊎◌, inl, inr, ◌++◌,
}
use soriham_api.Media.Header.{Text, bytes, range_of}
use soriham_api.Media.Decimal.{decimal}
use soriham_api.Media.Bounds.{range_of-IsWithin, IsWithin}
use soriham_api.Media.Stream.{Look}
use soriham_api.Media.Stream.Exact.{concat, length-take, iter_stream-content}
use soriham_api.Media.Response.{
  Opened, Expected, Body, Response, media_type, whole, part, part_text, answer, is_identified,
  range_response, chunks_of,
}

-- `Content-Range: bytes <first>-<last>/<size>`, for the bytes before `past_end`
abbrev pub range_text : ℕ → ℕ → ℕ → Text
range_text start past_end size =
    bytes ++ 32 ∷ (decimal start ++ b'-' ∷ (decimal (past_end - 1) ++ b'/' ∷ decimal size))

append-cons : (d e f : Text) (c k : ℕ) → (d ++ c ∷ e) ++ k ∷ f ≡ d ++ c ∷ (e ++ k ∷ f)
append-cons [] e f c k = refl
append-cons (x ∷ d) e f c k = ap (λ rest. x ∷ rest) (append-cons d e f c k)

pub part_text-eq-range_text :
    (start past_end size : ℕ) → part_text start past_end size ≡ range_text start past_end size
part_text-eq-range_text start past_end size =
    ap (λ rest. bytes ++ 32 ∷ rest)
      (append-cons (decimal start) (decimal (past_end - 1)) (decimal size) b'-' b'/')

-- what the status and the Content-Range say of the bytes of a file of this size: a part of it is
-- named by its first and last byte, and without a name it is all of it
abbrev pub Names : ℕ → Response → Body → Type 0
Names size r b =
    ((r.status_code ≡ 206) × (r.content_range ≡ some (range_text b.start b.past_end size)))
    ⊎ ((r.status_code ≡ 200) × (r.content_range ≡ none) × (b.start ≡ 0) × (b.past_end ≡ size))

-- the part of the opened file that a response announces
abbrev pub Announces : Opened → Option String → Response → Option Body → Type 0
Announces o hash r none = Unit
Announces o hash r (some b) =
    (b.start ≤ b.past_end)
    × (b.past_end ≤ o.signature.size)
    × (r.content_length ≡ some (decimal (b.past_end - b.start)))
    × (b.signature ≡ o.signature)
    × (b.hash ≡ hash)
    × Names o.signature.size r b

part-Announces :
    (kind : String) (o : Opened) (hash : Option String) (range : Option (ℕ × ℕ))
    → IsWithin o.signature.size range
    → Announces o hash (part kind o hash range) (part kind o hash range).body
part-Announces kind o hash none h = tt
part-Announces kind o hash (some (start, past_end)) h = (
  omega arith,
  h.1,
  refl,
  refl,
  refl,
  inl (refl, ap some (part_text-eq-range_text start past_end o.signature.size)),
)

whole-Announces :
    (kind : String) (o : Opened) (hash : Option String)
    → Announces o hash (whole kind o hash) (whole kind o hash).body
whole-Announces kind o hash =
    let e : o.signature.size - 0 ≡ o.signature.size = omega arith in
    (omega arith, omega arith, rw e refl, refl, refl, inr (refl, refl, refl, refl))

answer-Announces :
    (kind : String) (o : Opened) (hash : Option String) (header : Option Text)
    → Announces o hash (answer kind o hash header) (answer kind o hash header).body
answer-Announces kind o hash none = whole-Announces kind o hash
answer-Announces kind o hash (some []) = whole-Announces kind o hash
answer-Announces kind o hash (some (c ∷ s)) =
    part-Announces kind o hash (range_of o.signature.size (c ∷ s))
      (range_of-IsWithin o.signature.size (c ∷ s))

range_response-Announces :
    (suffix : String) (e : Expected) (header : Option Text) (o : Opened)
    → Announces o e.hash
        (range_response suffix e header (some o))
        (range_response suffix e header (some o)).body
unfolding range_response
range_response-Announces suffix e header o = elim (Bool-cases (is_identified e o)) [
  | inl e1 ↦ rw e1 (answer-Announces (media_type suffix) o e.hash header)
  | inr e' ↦ rw e' tt
]

-- A file that nobody changes while it is sent, as long as its signature says. A response's
-- Content-Length is the number of the bytes that its stream sends. With status 206 they are those of
-- the file from the first to the last byte that its Content-Range names, which also names the length
-- of the file; with status 200 there is no Content-Range, and they are the whole file.
pub range_response-content :
    (suffix : String) (e : Expected) (header : Option Text) (o : Opened) (b : Body)
    (looks : ℕ → Look) (content : List ℕ)
    → length content ≡ o.signature.size
    → ((k : ℕ) → (looks k).file ≡ content)
    → ((k : ℕ) → (looks k).signature ≡ o.signature)
    → (range_response suffix e header (some o)).body ≡ some b
    → ((range_response suffix e header (some o)).content_length
        ≡ some (decimal (length (concat (chunks_of looks (some b))))))
      × (concat (chunks_of looks (some b)) ≡ take (b.past_end - b.start) (drop b.start content))
      × Names (length content) (range_response suffix e header (some o)) b
range_response-content suffix e header o b looks content size same_file same_sig has_body =
    let (le, inside, announced, signature, hash, named) : Announces o e.hash
        (range_response suffix e header (some o)) (some b) =
      rw has_body at (range_response-Announces suffix e header o) in
    let sent =
      iter_stream-content looks b.start b.past_end b.signature b.hash content same_file
        (λ k. same_sig k ∙ sym signature) in
    let count : length (take (b.past_end - b.start) (drop b.start content)) ≡ b.past_end - b.start =
      let one = length-take (b.past_end - b.start) (drop b.start content) in
      let two = length-drop b.start content in omega arith in
    (announced ∙ ap (λ n. some (decimal n)) (sym (ap length sent ∙ count)), sent, rw size named)
