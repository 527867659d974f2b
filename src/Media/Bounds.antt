-- ===== src/Media/Bounds.antt =====
-- A range lies in the file.
use soriham_api.Prelude.{
  ℕ, suc, ◌+◌, ◌-◌, ◌≤◌, ◌<◌, ◌||◌, Option, none, some, [], ◌∷◌, leb, arith, Bool-cases, inl, inr,
}
use soriham_api.Media.Header.{
  Text, Integer, pos, negsuc, same_text, lower, strip, partition, int_of, satisfiable, to_end,
  from_start, suffix, spec_range, bytes, range_of,
}

abbrev pub IsWithin : ℕ → Option (ℕ × ℕ) → Type 0
IsWithin size none = Unit
IsWithin size (some (start, past_end)) = (start < past_end) × (past_end ≤ size)

satisfiable-IsWithin : (size start past_end : ℕ) → IsWithin size (satisfiable size start past_end)
satisfiable-IsWithin size start past_end =
    elim (Bool-cases (leb past_end start || leb size start)) [
      | inl e ↦ rw e tt
      | inr e ↦ rw e (ground arith)
    ]

to_end-IsWithin : (size start : ℕ) (end : Option Integer) → IsWithin size (to_end size start end)
to_end-IsWithin size start none = tt
to_end-IsWithin size start (some (pos end)) = satisfiable-IsWithin size start (suc end)
to_end-IsWithin size start (some (negsuc n)) = tt

from_start-IsWithin :
    (size : ℕ) (end_s : Text) (start : Option Integer) → IsWithin size (from_start size end_s start)
from_start-IsWithin size end_s none = tt
from_start-IsWithin size end_s (some (negsuc n)) = tt
from_start-IsWithin size [] (some (pos start)) = satisfiable-IsWithin size start size
from_start-IsWithin size (c ∷ s) (some (pos start)) = to_end-IsWithin size start (int_of (c ∷ s))

suffix-IsWithin : (size : ℕ) (n : Option Integer) → IsWithin size (suffix size n)
suffix-IsWithin size none = tt
suffix-IsWithin size (some (pos n)) = satisfiable-IsWithin size (size - n) size
suffix-IsWithin size (some (negsuc n)) = satisfiable-IsWithin size (size + suc n) size

spec_range-IsWithin : (size : ℕ) (spec : Text × Text) → IsWithin size (spec_range size spec)
spec_range-IsWithin size ([], end_s) = suffix-IsWithin size (int_of end_s)
spec_range-IsWithin size (c ∷ s, end_s) = from_start-IsWithin size end_s (int_of (c ∷ s))

-- Whatever a header says, the range that is read off it has at least a byte and lies in the file.
pub range_of-IsWithin : (size : ℕ) (header : Text) → IsWithin size (range_of size header)
unfolding range_of
range_of-IsWithin size header =
    elim (Bool-cases (same_text (lower (strip (partition b'=' header).0)) bytes)) [
      | inl e ↦ rw e (spec_range-IsWithin size (partition b'-' (strip (partition b'=' header).1)))
      | inr e ↦ rw e tt
    ]
