-- ===== src/Media/Header.antt =====
-- The Range header of range_response (media.py). A header is the list of its characters' codes, which
-- the server decodes as Latin-1. `int_of` is Python's int() on such a text, its limit on digits included.
use soriham_api.Prelude.{
  ℕ, zero, suc, ◌+◌, ◌-◌, ◌*◌, min, Bool, true, false, ◌&&◌, ◌||◌, Option, none, some, List, [],
  ◌∷◌, ◌==◌, leb, if◌then◌else◌,
}

abbrev pub Text : Type 0
Text = List ℕ

pub data Integer : Type 0 where
  pos : ℕ → Integer
  negsuc : ℕ → Integer

abbrev pub is_empty : Text → Bool
is_empty [] = true
is_empty (c ∷ s) = false

abbrev pub same_text : Text → Text → Bool
same_text [] [] = true
same_text [] (d ∷ t) = false
same_text (c ∷ s) [] = false
same_text (c ∷ s) (d ∷ t) = c == d && same_text s t

-- str.isspace on Latin-1
abbrev pub is_space : ℕ → Bool
is_space c = (leb 9 c && leb c 13) || (leb 28 c && leb c 32) || c == 133 || c == 160

abbrev pub lstrip : Text → Text
lstrip [] = []
lstrip (c ∷ s) = let rest = lstrip s in if is_space c then rest else c ∷ s

abbrev pub rstrip : Text → Text
rstrip [] = []
rstrip (c ∷ s) = let rest = rstrip s in if is_empty rest && is_space c then [] else c ∷ rest

abbrev pub strip : Text → Text
strip s = rstrip (lstrip s)

-- the letters that matter for "bytes"
abbrev pub lower : Text → Text
lower [] = []
lower (c ∷ s) = (if leb 65 c && leb c 90 then c + 32 else c) ∷ lower s

abbrev pub cut : Bool → Text → ℕ → Text × Text → Text × Text
cut true s c rest = ([], s)
cut false s c rest = (c ∷ rest.0, rest.1)

-- str.partition at one character, without the separator
abbrev pub partition : ℕ → Text → Text × Text
partition sep [] = ([], [])
partition sep (c ∷ s) = cut (c == sep) s c (partition sep s)

abbrev pub is_digit : ℕ → Bool
is_digit c = leb b'0' c && leb c b'9'

abbrev pub count_digits : Text → ℕ
count_digits [] = 0
count_digits (c ∷ s) = if is_digit c then suc (count_digits s) else count_digits s

-- sys.int_info.default_max_str_digits
abbrev pub max_str_digits : ℕ
max_str_digits = 4300

-- digits, with single underscores between them; `after` says that a digit stands before
abbrev pub scan : Text → Bool → ℕ → Option ℕ
scan [] after n = if after then some n else none
scan (c ∷ s) after n =
    let rest = scan s (is_digit c) (if is_digit c then n * 10 + (c - b'0') else n) in
    if is_digit c || (c == b'_' && after) then rest else none

abbrev pub positive : Option ℕ → Option Integer
positive none = none
positive (some n) = some (pos n)

abbrev pub negative : Option ℕ → Option Integer
negative none = none
negative (some zero) = some (pos 0)
negative (some (suc n)) = some (negsuc n)

abbrev pub signed : Text → Option Integer
signed [] = none
signed (c ∷ s) =
    if c == b'-'
    then negative (scan s false 0)
    else if c == b'+'
    then positive (scan s false 0)
    else positive (scan (c ∷ s) false 0)

abbrev pub int_of : Text → Option Integer
int_of s = if leb (count_digits s) max_str_digits then signed (strip s) else none

-- start and the position behind the end, which is `end + 1` of the code
abbrev pub satisfiable : ℕ → ℕ → ℕ → Option (ℕ × ℕ)
satisfiable size start past_end =
    if leb past_end start || leb size start then none else some (start, min past_end size)

abbrev pub to_end : ℕ → ℕ → Option Integer → Option (ℕ × ℕ)
to_end size start none = none
to_end size start (some (pos end)) = satisfiable size start (suc end)
to_end size start (some (negsuc n)) = none

-- the text before the first dash spells no negative number
abbrev pub from_start : ℕ → Text → Option Integer → Option (ℕ × ℕ)
from_start size end_s none = none
from_start size end_s (some (negsuc n)) = none
from_start size end_s (some (pos start)) =
    if is_empty end_s then satisfiable size start size else to_end size start (int_of end_s)

-- the last bytes: max(0, size - n)
abbrev pub suffix : ℕ → Option Integer → Option (ℕ × ℕ)
suffix size none = none
suffix size (some (pos n)) = satisfiable size (size - n) size
suffix size (some (negsuc n)) = satisfiable size (size + suc n) size

abbrev pub spec_range : ℕ → Text × Text → Option (ℕ × ℕ)
spec_range size (start_s, end_s) =
    if is_empty start_s then suffix size (int_of end_s) else from_start size end_s (int_of start_s)

abbrev pub bytes : Text
bytes = b'b' ∷ b'y' ∷ b't' ∷ b'e' ∷ b's' ∷ []

abbrev pub unit_range : ℕ → Text × Text → Option (ℕ × ℕ)
unit_range size (unit, spec) =
    if same_text (lower (strip unit)) bytes
    then spec_range size (partition b'-' (strip spec))
    else none

-- `none` is ValueError
unfoldable pub range_of : ℕ → Text → Option (ℕ × ℕ)
range_of size header = unit_range size (partition b'=' header)
