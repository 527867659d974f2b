-- ===== src/Tests/Playing.antt =====
-- media.py: a file of ten bytes, a range of it, and a request for a range behind its end.
use soriham_api.Prelude.{
  ℕ, ◌≡◌, ◌≤◌, refl, true, none, some, List, [], ◌∷◌, ◌++◌, length, take, drop, arith,
}
use soriham_api.Table.{All}
use soriham_api.Files.{Signature}
use soriham_api.Media.Header.{Text, bytes, range_of}
use soriham_api.Media.Decimal.{decimal}
use soriham_api.Media.Bounds.{IsWithin, range_of-IsWithin}
use soriham_api.Media.RoundTrip.{IsShort}
use soriham_api.Media.Again.{as_request, range_response-again}
use soriham_api.Media.Stream.{Look, rounds, iter_stream}
use soriham_api.Media.Stream.Exact.{concat, iter_stream-ends}
use soriham_api.Media.Stream.Trusted.{IsTrusted, iter_stream-IsTrusted}
use soriham_api.Media.Response.{
  Expected, Opened, Body, range_response, media_type, is_identified, chunks_of,
}
use soriham_api.Media.Answers.{Names, range_text, range_response-content}

abbrev ten : List ℕ
ten = 0 ∷ 1 ∷ 2 ∷ 3 ∷ 4 ∷ 5 ∷ 6 ∷ 7 ∷ 8 ∷ 9 ∷ []

abbrev at_ten : Signature
at_ten = record { device = 1; inode = 2; size = 10; mtime = 3; ctime = 4 }

abbrev look : ℕ → Look
look k = record { file = ten; signature = at_ten; digest = "d"; after = at_ten }

-- "bytes=2-"
abbrev from_two : Text
from_two = bytes ++ b'=' ∷ b'2' ∷ b'-' ∷ []

-- " Bytes = -3"
abbrev last_three : Text
last_three = 32 ∷ b'B' ∷ b'y' ∷ b't' ∷ b'e' ∷ b's' ∷ 32 ∷ b'=' ∷ 32 ∷ b'-' ∷ b'3' ∷ []

reads_from_two : range_of 10 from_two ≡ some (2, 10)
unfolding range_of
reads_from_two = refl

reads_last_three : range_of 10 last_three ≡ some (7, 10)
unfolding range_of
reads_last_three = refl

-- "bytes=10-" of ten bytes
behind : range_of 10 (bytes ++ b'=' ∷ b'1' ∷ b'0' ∷ b'-' ∷ []) ≡ none
unfolding range_of
behind = refl

-- "bytes=3-1" and "bytes=a-"
no_range :
    (range_of 10 (bytes ++ b'=' ∷ b'3' ∷ b'-' ∷ b'1' ∷ []) ≡ none)
    × (range_of 10 (bytes ++ b'=' ∷ b'a' ∷ b'-' ∷ []) ≡ none)
unfolding range_of
no_range = (refl, refl)

short : IsShort 2 × IsShort 9
unfolding decimal
short = (omega arith, omega arith)

range_of-IsWithin_example : IsWithin 10 (range_of 10 last_three)
range_of-IsWithin_example = range_of-IsWithin 10 last_three

iter_stream-ends_example :
    (iter_stream look 2 10 at_ten none ≡ rounds 20 look 0 2 8 at_ten none)
    × (length (concat (iter_stream look 2 10 at_ten none)) ≤ 8)
iter_stream-ends_example = iter_stream-ends look 2 10 20 at_ten none (omega arith)

iter_stream-IsTrusted_example :
    All (IsTrusted look at_ten (some "d")) (iter_stream look 2 10 at_ten (some "d"))
iter_stream-IsTrusted_example = iter_stream-IsTrusted look 2 10 at_ten (some "d")

abbrev expected : Expected
expected = record { hash = some "d"; signature = some at_ten; verify_identity = true }

abbrev opened : Opened
opened = record { signature = at_ten; reading = none }

abbrev body : Body
body = record { start = 2; past_end = 10; signature = at_ten; hash = some "d" }

has_body : (range_response ".m4a" expected (some from_two) (some opened)).body ≡ some body
unfolding range_response media_type is_identified range_of
has_body = refl

-- "bytes 2-9/10"
has_name :
    (range_response ".m4a" expected (some from_two) (some opened)).content_range
    ≡ some (range_text 2 10 10)
unfolding range_response media_type is_identified range_of
has_name = refl

range_response-again_example :
    range_response ".m4a" expected (some (as_request (range_text 2 10 10))) (some opened)
    ≡ range_response ".m4a" expected (some from_two) (some opened)
range_response-again_example =
    range_response-again ".m4a" expected opened (some from_two) (range_text 2 10 10) body has_name
      has_body short.0 short.1

range_response-content_example :
    ((range_response ".m4a" expected (some from_two) (some opened)).content_length
      ≡ some (decimal (length (concat (chunks_of look (some body))))))
    × (concat (chunks_of look (some body)) ≡ take 8 (drop 2 ten))
    × Names 10 (range_response ".m4a" expected (some from_two) (some opened)) body
range_response-content_example =
    range_response-content ".m4a" expected (some from_two) opened body look ten refl (λ k. refl)
      (λ k. refl) has_body
