-- ===== src/Media/Response.antt =====
-- range_response (media.py). The headers that a caller adds and the constant ones are left out.
use soriham_api.Prelude.{
  ℕ, ◌-◌, String, Bool, true, false, ◌&&◌, not, Option, none, some, List, [], ◌∷◌, ◌++◌, str_eq,
  if◌then◌else◌,
}
use soriham_api.Files.{Signature, same_signature, is_signature}
use soriham_api.Media.Header.{Text, bytes, range_of}
use soriham_api.Media.Decimal.{decimal}
use soriham_api.Media.Stream.{Look, iter_stream}

-- media_type, from the suffix in lower case
unfoldable pub media_type : String → String
media_type suffix =
    if str_eq suffix ".wav"
    then "audio/wav"
    else if str_eq suffix ".mp3"
    then "audio/mpeg"
    else if str_eq suffix ".m4a"
    then "audio/mp4"
    else if str_eq suffix ".aac"
    then "audio/aac"
    else if str_eq suffix ".flac"
    then "audio/flac"
    else if str_eq suffix ".ogg"
    then "audio/ogg"
    else if str_eq suffix ".opus"
    then "audio/ogg"
    else if str_eq suffix ".wma"
    then "audio/x-ms-wma"
    else if str_eq suffix ".amr"
    then "audio/amr"
    else "application/octet-stream"

-- what opening the file shows: its signature, and the digest with the signature behind it if they are
-- asked for; `none` is OSError
pub record Opened : Type 0 where
  pub signature : Signature
  pub reading : Option (String × Signature)

-- what a recording's row says of the file
pub record Expected : Type 0 where
  pub hash : Option String
  pub signature : Option Signature
  pub verify_identity : Bool

pub record Body : Type 0 where
  pub start : ℕ
  pub past_end : ℕ
  pub signature : Signature
  pub hash : Option String

pub record Response : Type 0 where
  pub status_code : ℕ
  pub media_type : Option String
  pub content_range : Option Text
  pub content_length : Option Text
  pub body : Option Body

abbrev pub missing : Response
missing = record {
  status_code = 404;
  media_type = none;
  content_range = none;
  content_length = none;
  body = none;
}

abbrev pub bytes_sp : Text
bytes_sp = bytes ++ 32 ∷ []

abbrev pub unsatisfiable : ℕ → Response
unsatisfiable size = record missing {
  status_code = 416;
  content_range = some (bytes_sp ++ b'*' ∷ b'/' ∷ decimal size);
}

abbrev pub part_text : ℕ → ℕ → ℕ → Text
part_text start past_end size =
    bytes_sp ++ decimal start ++ b'-' ∷ decimal (past_end - 1) ++ b'/' ∷ decimal size

abbrev pub whole : String → Opened → Option String → Response
whole kind o hash = record {
  status_code = 200;
  media_type = some kind;
  content_range = none;
  content_length = some (decimal o.signature.size);
  body =
      some
        (record { start = 0; past_end = o.signature.size; signature = o.signature; hash = hash });
}

abbrev pub part : String → Opened → Option String → Option (ℕ × ℕ) → Response
part kind o hash none = unsatisfiable o.signature.size
part kind o hash (some (start, past_end)) = record {
  status_code = 206;
  media_type = some kind;
  content_range = some (part_text start past_end o.signature.size);
  content_length = some (decimal (past_end - start));
  body = some (record { start = start; past_end = past_end; signature = o.signature; hash = hash });
}

abbrev pub matches_reading : String → Signature → Option (String × Signature) → Bool
matches_reading hash signature none = false
matches_reading hash signature (some (digest, after)) =
    str_eq digest hash && same_signature after signature

abbrev pub matches_hash : Option String → Opened → Bool
matches_hash none o = false
matches_hash (some hash) o = matches_reading hash o.signature o.reading

-- the file is the recording's, by its signature or else by its content
unfoldable pub is_identified : Expected → Opened → Bool
is_identified e o =
    if e.verify_identity && not (is_signature e.signature o.signature)
    then matches_hash e.hash o
    else true

abbrev pub answer : String → Opened → Option String → Option Text → Response
answer kind o hash none = whole kind o hash
answer kind o hash (some []) = whole kind o hash
answer kind o hash (some (c ∷ s)) = part kind o hash (range_of o.signature.size (c ∷ s))

abbrev pub response_to : String → Expected → Option Text → Option Opened → Response
response_to kind e header none = missing
response_to kind e header (some o) =
    if is_identified e o then answer kind o e.hash header else missing

unfoldable pub range_response : String → Expected → Option Text → Option Opened → Response
unfolding media_type is_identified range_of decimal
range_response suffix e header opened = response_to (media_type suffix) e header opened

abbrev pub chunks_of : (ℕ → Look) → Option Body → List (List ℕ)
chunks_of looks none = []
chunks_of looks (some b) = iter_stream looks b.start b.past_end b.signature b.hash
