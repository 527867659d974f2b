-- ===== src/Media/RoundTrip.antt =====
-- A range that is printed and read again.
use soriham_api.Prelude.{
  ℕ, zero, suc, ◌+◌, ◌-◌, ◌*◌, ◌/◌, ◌%◌, ◌≤◌, ◌<◌, min, ◌≡◌, ◌∙◌, refl, ap, sym, Bool, true, false,
  ◌&&◌, ◌||◌, some, [], ◌∷◌, ◌++◌, leb, ltb, ◌==◌, arith, Bool-cases, inl, inr,
}
use soriham_api.Table.{All}
use soriham_api.Media.Header.{
  Text, pos, is_empty, is_space, is_digit, lstrip, rstrip, strip, partition, count_digits,
  max_str_digits, scan, signed, int_of, bytes, range_of,
}
use soriham_api.Media.Decimal.{emit, decimal}
use soriham_api.Media.Bounds.{range_of-IsWithin}

abbrev AreDigits : Text → Type 0
AreDigits = All (λ c. is_digit c ≡ true)

-- how many digits int() reads
abbrev pub IsShort : ℕ → Type 0
IsShort n = count_digits (decimal n) ≤ max_str_digits

digit-is_digit : (n : ℕ) → n < 10 → is_digit (b'0' + n) ≡ true
digit-is_digit n h = ground arith

emit_last : (fuel n : ℕ) (out : Text) → ltb n 10 ≡ true → emit (suc fuel) n out ≡ (b'0' + n) ∷ out
emit_last fuel n out e = rw (emit, e) refl

emit_round :
    (fuel n : ℕ) (out : Text)
    → ltb n 10 ≡ false
    → emit (suc fuel) n out ≡ emit fuel (n / 10) ((b'0' + n % 10) ∷ out)
emit_round fuel n out e = rw (emit, e) refl

emit-AreDigits : (fuel n : ℕ) (out : Text) → AreDigits out → AreDigits (emit fuel n out)
emit-AreDigits zero n out h = h
emit-AreDigits (suc fuel) n out h = elim (Bool-cases (ltb n 10)) [
  | inl e ↦ rw (emit_last fuel n out e) (digit-is_digit n (ground arith), h)
  | inr e ↦ rw (emit_round fuel n out e) (
      emit-AreDigits fuel (n / 10) ((b'0' + n % 10) ∷ out)
        (digit-is_digit (n % 10) (omega arith), h))
]

scan-digit :
    (d n : ℕ) (out : Text) (after : Bool)
    → d < 10
    → scan ((b'0' + d) ∷ out) after n ≡ scan out true (n * 10 + d)
scan-digit d n out after h =
    let is = digit-is_digit d h in let e : b'0' + d - b'0' ≡ d = omega arith in rw (is, e) refl

scan-emit :
    (fuel n : ℕ) (out : Text) (after : Bool)
    → n < fuel
    → scan (emit fuel n out) after 0 ≡ scan out true n
scan-emit zero n out after h = absurd (omega arith)
scan-emit (suc fuel) n out after h = elim (Bool-cases (ltb n 10)) [
  | inl e ↦
      let z : 0 * 10 + n ≡ n = omega arith in
      rw (emit_last fuel n out e) (scan-digit n 0 out after (ground arith) ∙ ap (scan out true) z)
  | inr e ↦
      let big : 10 ≤ n = ground arith in
      let back : n / 10 * 10 + n % 10 ≡ n = omega arith in
      rw (emit_round fuel n out e) (
        scan-emit fuel (n / 10) ((b'0' + n % 10) ∷ out) after (omega arith)
        ∙ scan-digit (n % 10) (n / 10) out true (omega arith)
        ∙ ap (scan out true) back)
]

scan-decimal : (n : ℕ) → scan (decimal n) false 0 ≡ some n
unfolding decimal
scan-decimal n = scan-emit (suc n) n [] false (omega arith)

-- two numbers that are printed alike
pub decimal-inj : (m n : ℕ) → decimal m ≡ decimal n → m ≡ n
decimal-inj m n h =
    let one = scan-decimal m in
    let two = scan-decimal n in
    let same : scan (decimal m) false 0 ≡ scan (decimal n) false 0 = ap (λ s. scan s false 0) h in
    cc

abbrev AreSolid : Text → Type 0
AreSolid = All (λ c. is_space c ≡ false)

lstrip-AreSolid : (s : Text) → AreSolid s → lstrip s ≡ s
lstrip-AreSolid [] h = refl
lstrip-AreSolid (c ∷ s) h = rw h.0 refl

rstrip-AreSolid : (s : Text) → AreSolid s → rstrip s ≡ s
rstrip-AreSolid [] h = refl
rstrip-AreSolid (c ∷ s) h =
    let no_space : (is_empty (rstrip s) && is_space c) ≡ false = ground arith in
    rw no_space (ap (λ t. c ∷ t) (rstrip-AreSolid s h.1))

strip-AreSolid : (s : Text) → AreSolid s → strip s ≡ s
strip-AreSolid s h = rw (lstrip-AreSolid s h) (rstrip-AreSolid s h)

AreDigits-AreSolid : (s : Text) → AreDigits s → AreSolid s
AreDigits-AreSolid [] h = tt
AreDigits-AreSolid (c ∷ s) h = (ground arith, AreDigits-AreSolid s h.1)

AreSolid-append : (s t : Text) → AreSolid s → AreSolid t → AreSolid (s ++ t)
AreSolid-append [] t hs ht = ht
AreSolid-append (c ∷ s) t hs ht = (hs.0, AreSolid-append s t hs.1 ht)

signed-digits : (s : Text) (n : ℕ) → AreDigits s → scan s false 0 ≡ some n → signed s ≡ some (pos n)
signed-digits [] n h e = cc
signed-digits (c ∷ s) n h e =
    let minus : (c == b'-') ≡ false = ground arith in
    let plus : (c == b'+') ≡ false = ground arith in rw (minus, plus) (rw e refl)

pub decimal-AreDigits : (n : ℕ) → AreDigits (decimal n)
unfolding decimal
decimal-AreDigits n = emit-AreDigits (suc n) n [] tt

int_of-decimal : (n : ℕ) → IsShort n → int_of (decimal n) ≡ some (pos n)
unfolding decimal
int_of-decimal n short =
    let digits = decimal-AreDigits n in
    let fits : leb (count_digits (decimal n)) max_str_digits ≡ true = ground arith in
    rw (fits, strip-AreSolid (decimal n) (AreDigits-AreSolid (decimal n) digits))
      (signed-digits (decimal n) n digits (scan-emit (suc n) n [] false (omega arith)))

partition-digits : (s t : Text) → AreDigits s → partition b'-' (s ++ b'-' ∷ t) ≡ (s, t)
partition-digits [] t h = refl
partition-digits (c ∷ s) t h =
    let plain : (c == b'-') ≡ false = ground arith in rw (plain, partition-digits s t h.1) refl

emit-text : (fuel n c : ℕ) (out : Text) → is_empty (emit fuel n (c ∷ out)) ≡ false
emit-text zero n c out = refl
emit-text (suc fuel) n c out = elim (Bool-cases (ltb n 10)) [
  | inl e ↦ rw (emit_last fuel n (c ∷ out) e) refl
  | inr e ↦ rw (emit_round fuel n (c ∷ out) e) (emit-text fuel (n / 10) (b'0' + n % 10) (c ∷ out))
]

decimal-text : (n : ℕ) → is_empty (decimal n) ≡ false
unfolding decimal
decimal-text n = elim (Bool-cases (ltb n 10)) [
  | inl e ↦ rw (emit_last n n [] e) refl
  | inr e ↦ rw (emit_round n n [] e) (emit-text n (n / 10) (b'0' + n % 10) [])
]

-- the header that asks for the bytes from `start` to `end`
abbrev pub ask : ℕ → ℕ → Text
ask start end = bytes ++ b'=' ∷ (decimal start ++ b'-' ∷ decimal end)

-- A header that asks for the bytes from one position to another one of the file, or behind it, is
-- understood as just that.
pub range_of-ask :
    (size start end : ℕ)
    → start ≤ end
    → start < size
    → IsShort start
    → IsShort end
    → range_of size (ask start end) ≡ some (start, min (suc end) size)
unfolding range_of
range_of-ask size start end le inside short_start short_end =
    let digits_start = decimal-AreDigits start in
    let digits_end = decimal-AreDigits end in
    let solid : AreSolid (decimal start ++ b'-' ∷ decimal end) =
      AreSolid-append (decimal start) (b'-' ∷ decimal end)
        (AreDigits-AreSolid (decimal start) digits_start)
        (refl, AreDigits-AreSolid (decimal end) digits_end) in
    let off : (leb (suc end) start || leb size start) ≡ false = ground arith in
    rw
      (
        strip-AreSolid (decimal start ++ b'-' ∷ decimal end) solid,
        partition-digits (decimal start) (decimal end) digits_start,
        decimal-text start,
        int_of-decimal start short_start,
        decimal-text end,
        int_of-decimal end short_end,
        off,
      )
      refl

-- A range that was read off a header is read again off the header that asks for its first and last
-- byte.
pub range_of-again :
    (size start past_end : ℕ) (header : Text)
    → range_of size header ≡ some (start, past_end)
    → IsShort start
    → IsShort (past_end - 1)
    → range_of size (ask start (past_end - 1)) ≡ range_of size header
range_of-again size start past_end header read short_start short_end =
    let (some_byte, inside) : (start < past_end) × (past_end ≤ size) =
      rw read at (range_of-IsWithin size header) in
    let end : min (suc (past_end - 1)) size ≡ past_end = omega arith in
    range_of-ask size start (past_end - 1) (omega arith) (omega arith) short_start short_end
    ∙ ap (λ e. some (start, e)) end
    ∙ sym read
