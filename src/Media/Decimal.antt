-- ===== src/Media/Decimal.antt =====
-- The decimal print of a number, which the headers of a response hold.
use soriham_api.Prelude.{ℕ, zero, suc, ◌+◌, ◌/◌, ◌%◌, true, false, [], ◌∷◌, ltb}
use soriham_api.Media.Header.{Text}

-- one digit a round; a number has no more digits than its successor
abbrev pub emit : ℕ → ℕ → Text → Text
emit zero n out = out
emit (suc fuel) n out = elim (ltb n 10) [
  | true ↦ (b'0' + n) ∷ out
  | false ↦ emit fuel (n / 10) ((b'0' + n % 10) ∷ out)
]

-- str(n)
unfoldable pub decimal : ℕ → Text
decimal n = emit (suc n) n []
