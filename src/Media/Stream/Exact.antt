-- ===== src/Media/Stream/Exact.antt =====
-- How many rounds and which bytes.
use soriham_api.Prelude.{
  ℕ, zero, suc, ◌+◌, ◌-◌, ◌≤◌, ◌<◌, min, ◌≡◌, ◌∙◌, refl, ap, sym, String, Option, none, some, List,
  [], ◌∷◌, ◌++◌, take, drop, length, arith,
}
use soriham_api.Files.{Signature, same_signature_iff}
use soriham_api.Media.Stream.{
  Look, chunk_size, chunk_at, still_valid, yields, unless_empty, rounds, iter_stream,
}

abbrev pub concat : List (List ℕ) → List ℕ
concat [] = []
concat (c ∷ cs) = c ++ concat cs

pub length-take : (n : ℕ) (xs : List ℕ) → length (take n xs) ≡ min n (length xs)
length-take zero xs = omega arith
length-take (suc n) [] = omega arith
length-take (suc n) (x ∷ xs) = omega (arith, length-take n xs)

length-append : (xs ys : List ℕ) → length (xs ++ ys) ≡ length xs + length ys
length-append [] ys = omega arith
length-append (x ∷ xs) ys = omega (arith, length-append xs ys)

unless_empty-congr :
    (chunk : List ℕ) (f g : List (List ℕ))
    → (0 < length chunk → f ≡ g)
    → unless_empty chunk f ≡ unless_empty chunk g
unless_empty-congr [] f g h = refl
unless_empty-congr (b ∷ bs) f g h = h (omega arith)

yields-congr :
    (s : Option Signature) (chunk : List ℕ) (f g : Signature → List (List ℕ))
    → ((t : Signature) → f t ≡ g t)
    → yields s chunk f ≡ yields s chunk g
yields-congr none chunk f g h = refl
yields-congr (some s) chunk f g h = ap (λ cs. chunk ∷ cs) (h s)

-- a chunk has at most the bytes that remain
length-chunk_at :
    (look : Look) (position remaining : ℕ) → length (chunk_at look position remaining) ≤ remaining
length-chunk_at look position remaining =
    let l = length-take (min chunk_size remaining) (drop position look.file) in omega (arith, l)

-- reading in two steps
take-split :
    (n r : ℕ) (d : List ℕ)
    → n ≤ r
    → take n d ++ take (r - length (take n d)) (drop (length (take n d)) d) ≡ take r d
take-split zero r d le = let e : r - 0 ≡ r = omega arith in rw e refl
take-split (suc n) zero d le = absurd (omega arith)
take-split (suc n) (suc r) [] le = let e : suc r - 0 ≡ suc r = omega arith in rw e refl
take-split (suc n) (suc r) (x ∷ d) le =
    let e : suc r - suc (length (take n d)) ≡ r - length (take n d) = omega arith in
    rw e (ap (λ ys. x ∷ ys) (take-split n r d (omega arith)))

drop-nil : (n : ℕ) → drop {A = ℕ} n [] ≡ []
drop-nil zero = refl
drop-nil (suc n) = refl

take-nil : (n : ℕ) → take {A = ℕ} n [] ≡ []
take-nil zero = refl
take-nil (suc n) = refl

drop-drop : (m n : ℕ) (d : List ℕ) → drop n (drop m d) ≡ drop (m + n) d
drop-drop zero n d = let e : 0 + n ≡ n = omega arith in rw e refl
drop-drop (suc m) n [] = let e : suc m + n ≡ suc (m + n) = omega arith in rw e (drop-nil n)
drop-drop (suc m) n (x ∷ d) =
    let e : suc m + n ≡ suc (m + n) = omega arith in rw e (drop-drop m n d)

take-rest :
    (n m : ℕ) (d : List ℕ) → 0 < n → take n d ≡ [] → take m (drop (length (take n d)) d) ≡ []
take-rest zero m d pos h = absurd (omega arith)
take-rest (suc n) m [] pos h = take-nil m
take-rest (suc n) m (x ∷ d) pos h = cc

concat-unless_empty :
    (chunk rest : List ℕ) (cs : List (List ℕ))
    → (0 < length chunk → concat cs ≡ rest)
    → (chunk ≡ [] → rest ≡ [])
    → concat (unless_empty chunk (chunk ∷ cs)) ≡ chunk ++ rest
concat-unless_empty [] rest cs more none_left = sym (none_left refl)
concat-unless_empty (b ∷ bs) rest cs more none_left = ap (λ ys. (b ∷ bs) ++ ys) (more (omega arith))

length-yields :
    (s : Option Signature) (chunk : List ℕ) (f : Signature → List (List ℕ)) (bound : ℕ)
    → ((t : Signature) → length (concat (f t)) ≤ bound - length chunk)
    → length chunk ≤ bound
    → length (concat (unless_empty chunk (yields s chunk f))) ≤ bound
length-yields s [] f bound h le = omega arith
length-yields none (b ∷ bs) f bound h le = omega arith
length-yields (some s) (b ∷ bs) f bound h le =
    let one = length-append (b ∷ bs) (concat (f s)) in omega (arith, one, h s)

module _ (looks : ℕ → Look) (expected : Option String) where
  -- two bounds that reach the number of bytes give one stream
  pub rounds-enough :
      (m n k position remaining : ℕ) (signature : Signature)
      → remaining ≤ m
      → remaining ≤ n
      → rounds m looks k position remaining signature expected
        ≡ rounds n looks k position remaining signature expected
  unfolding rounds
  rounds-enough zero zero k position remaining signature le_m le_n = refl
  rounds-enough zero (suc n) k position zero signature le_m le_n = refl
  rounds-enough zero (suc n) k position (suc more) signature le_m le_n = absurd (omega arith)
  rounds-enough (suc m) zero k position zero signature le_m le_n = refl
  rounds-enough (suc m) zero k position (suc more) signature le_m le_n = absurd (omega arith)
  rounds-enough (suc m) (suc n) k position zero signature le_m le_n = refl
  rounds-enough (suc m) (suc n) k position (suc more) signature le_m le_n =
      let chunk = chunk_at (looks k) position (suc more) in
      unless_empty-congr chunk _ _ (λ some_byte.
        yields-congr (still_valid signature expected (looks k)) chunk _ _ (λ s.
          rounds-enough m n (suc k) (position + length chunk) (suc more - length chunk) s
            (omega arith) (omega arith)))

  rounds-length :
      (fuel k position remaining : ℕ) (signature : Signature)
      → length (concat (rounds fuel looks k position remaining signature expected)) ≤ remaining
  unfolding rounds
  rounds-length zero k position remaining signature = omega arith
  rounds-length (suc fuel) k position zero signature = omega arith
  rounds-length (suc fuel) k position (suc more) signature =
      let chunk = chunk_at (looks k) position (suc more) in
      length-yields (still_valid signature expected (looks k)) chunk _ (suc more)
        (λ s. rounds-length fuel (suc k) (position + length chunk) (suc more - length chunk) s)
        (length-chunk_at (looks k) position (suc more))

  module _ (content : List ℕ) (signature : Signature)
      (same_file : (k : ℕ) → (looks k).file ≡ content)
      (same_sig : (k : ℕ) → (looks k).signature ≡ signature) where
    -- a file that nobody changes is sent as it is
    rounds-content :
        (fuel k position remaining : ℕ)
        → remaining ≤ fuel
        → concat (rounds fuel looks k position remaining signature expected)
          ≡ take remaining (drop position content)
    unfolding rounds
    rounds-content zero k position zero le = refl
    rounds-content zero k position (suc more) le = absurd (omega arith)
    rounds-content (suc fuel) k position zero le = refl
    rounds-content (suc fuel) k position (suc more) le =
        rw (valid, same_file k)
          (concat-unless_empty chunk _ _
              (λ some_byte.
                rounds-content fuel (suc k) (position + length chunk) (suc more - length chunk)
                  (omega arith)
                ∙ ap (take (suc more - length chunk))
                    (sym (drop-drop position (length chunk) content)))
              (take-rest (min chunk_size (suc more)) (suc more - length chunk)
                (drop position content) (omega arith))
            ∙ take-split (min chunk_size (suc more)) (suc more) (drop position content)
                (omega arith))
      where
        chunk : List ℕ
        chunk = take (min chunk_size (suc more)) (drop position content)

        valid : still_valid signature expected (looks k) ≡ some signature
        valid =
            let e = (same_signature_iff (looks k).signature signature).1 (same_sig k) in rw e refl

-- The stream of a file that nobody changes is its bytes from the start to the end, all of them and in
-- order, in rounds whose number is the one that is allowed.
pub iter_stream-content :
    (looks : ℕ → Look) (start past_end : ℕ) (signature : Signature) (expected : Option String)
    (content : List ℕ)
    → ((k : ℕ) → (looks k).file ≡ content)
    → ((k : ℕ) → (looks k).signature ≡ signature)
    → concat (iter_stream looks start past_end signature expected)
      ≡ take (past_end - start) (drop start content)
unfolding iter_stream
iter_stream-content looks start past_end signature expected content same_file same_sig =
    rounds-content looks expected content signature same_file same_sig (past_end - start) 0 start
      (past_end - start) (omega arith)

-- Whatever others do to the file, the stream has at most the bytes that were announced, and it ends by
-- itself: no larger number of rounds gives another stream.
pub iter_stream-ends :
    (looks : ℕ → Look) (start past_end fuel : ℕ) (signature : Signature) (expected : Option String)
    → past_end - start ≤ fuel
    → (iter_stream looks start past_end signature expected
        ≡ rounds fuel looks 0 start (past_end - start) signature expected)
      × (length (concat (iter_stream looks start past_end signature expected)) ≤ past_end - start)
unfolding iter_stream
iter_stream-ends looks start past_end fuel signature expected le = (
  rounds-enough looks expected (past_end - start) fuel 0 start (past_end - start) signature
      (omega arith) le,
  rounds-length looks expected (past_end - start) 0 start (past_end - start) signature,
)
