-- ===== src/Uploads/Naming.antt =====
-- The search for a free path.
use soriham_api.Prelude.{
  ℕ, zero, suc, ◌+◌, ◌≤◌, ◌<◌, ◌≡◌, refl, ap, true, false, some, List, [], ◌∷◌, ◌++◌, length,
  is_some, arith, Bool-cases, Option-cases, inl, inr, if◌then◌else◌,
}
use soriham_api.Media.Header.{Text, same_text}
use soriham_api.Media.Decimal.{decimal}
use soriham_api.Media.RoundTrip.{decimal-inj}
use soriham_api.Uploads.{contains, numbered, next_path, unique_path}

same_text_iff : (s t : Text) → (same_text s t ≡ true → s ≡ t) × (s ≡ t → same_text s t ≡ true)
same_text_iff s t = (reads s t, λ e. rw e (self t))
  where
    reads : (s t : Text) → same_text s t ≡ true → s ≡ t
    reads [] [] h = refl
    reads [] (d ∷ t) h = cc
    reads (c ∷ s) [] h = cc
    reads (c ∷ s) (d ∷ t) h =
        let (a, b) : (c ≡ d) × (same_text s t ≡ true) = ground arith in rw (a, reads s t b) refl

    self : (t : Text) → same_text t t ≡ true
    self [] = refl
    self (c ∷ t) = rw (self t) (ground arith)

-- the list without a path
remove : List Text → Text → List Text
remove [] path = []
remove (p ∷ paths) path =
    let rest = remove paths path in if same_text p path then rest else p ∷ rest

contains-remove :
    (paths : List Text) (x y : Text)
    → same_text x y ≡ false
    → contains (remove paths x) y ≡ contains paths y
unfolding remove
contains-remove [] x y ne = refl
contains-remove (p ∷ paths) x y ne = elim (Bool-cases (same_text p x)) [
  | inl e ↦
      let at_x = (same_text_iff p x).0 e in
      let other : same_text p y ≡ false = rw at_x ne in rw (e, other) (contains-remove paths x y ne)
  | inr e ↦ rw (e, contains-remove paths x y ne) refl
]

length-remove : (paths : List Text) (x : Text) → length (remove paths x) ≤ length paths
unfolding remove
length-remove [] x = omega arith
length-remove (p ∷ paths) x = elim (Bool-cases (same_text p x)) [
  | inl e ↦ rw e (omega (arith, length-remove paths x))
  | inr e ↦ rw e (omega (arith, length-remove paths x))
]

length-remove_lt :
    (paths : List Text) (x : Text)
    → contains paths x ≡ true
    → length (remove paths x) < length paths
unfolding remove
length-remove_lt [] x h = cc
length-remove_lt (p ∷ paths) x h = elim (Bool-cases (same_text p x)) [
  | inl e ↦ rw e (omega (arith, length-remove paths x))
  | inr e ↦
      let inside : contains paths x ≡ true = rw e at h in
      rw e (omega (arith, length-remove_lt paths x inside))
]

tail : Text → Text
tail [] = []
tail (c ∷ s) = s

head_or : ℕ → Text → ℕ
head_or d [] = d
head_or d (c ∷ s) = c

append-cancel_left : (s a b : Text) → s ++ a ≡ s ++ b → a ≡ b
unfolding tail
append-cancel_left [] a b h = h
append-cancel_left (c ∷ s) a b h = append-cancel_left s a b (ap tail h)

length-append : (xs ys : Text) → length (xs ++ ys) ≡ length xs + length ys
length-append [] ys = omega arith
length-append (x ∷ xs) ys = omega (arith, length-append xs ys)

append-cancel_right_of : (a b s : Text) → length a ≡ length b → a ++ s ≡ b ++ s → a ≡ b
unfolding tail head_or
append-cancel_right_of [] [] s l h = refl
append-cancel_right_of [] (d ∷ b) s l h = absurd (omega arith)
append-cancel_right_of (c ∷ a) [] s l h = absurd (omega arith)
append-cancel_right_of (c ∷ a) (d ∷ b) s l h =
    let head : c ≡ d = ap (head_or c) h in
    let rest = append-cancel_right_of a b s (omega arith) (ap tail h) in rw (head, rest) refl

append-cancel_right : (a b s : Text) → a ++ s ≡ b ++ s → a ≡ b
append-cancel_right a b s h =
    append-cancel_right_of a b s
      (let l = ap length h in omega (arith, l, length-append a s, length-append b s)) h

module _ (stem suffix : Text) where
  numbered-inj :
      (m n : ℕ) → m < n → same_text (numbered stem suffix m) (numbered stem suffix n) ≡ false
  numbered-inj m n lt =
      elim (Bool-cases (same_text (numbered stem suffix m) (numbered stem suffix n))) [
        | inr e ↦ e
        | inl e ↦
            let all = (same_text_iff (numbered stem suffix m) (numbered stem suffix n)).0 e in
            let back =
              append-cancel_left stem (b'-' ∷ (decimal m ++ suffix)) (b'-' ∷ (decimal n ++ suffix))
                all in
            let digits =
              append-cancel_left (b'-' ∷ []) (decimal m ++ suffix) (decimal n ++ suffix) back in
            let same =
              decimal-inj m n (append-cancel_right (decimal m) (decimal n) suffix digits) in
            absurd (omega (arith, same))
      ]

  -- a path that comes before plays no part
  next_path-remove :
      (fuel : ℕ) (paths : List Text) (m n : ℕ)
      → m < n
      → next_path fuel (remove paths (numbered stem suffix m)) stem suffix n
        ≡ next_path fuel paths stem suffix n
  unfolding next_path
  next_path-remove zero paths m n lt = refl
  next_path-remove (suc fuel) paths m n lt =
      let e =
        contains-remove paths (numbered stem suffix m) (numbered stem suffix n)
          (numbered-inj m n lt) in
      rw (e, next_path-remove fuel paths m (suc n) (omega arith)) refl

  next_path-enough :
      (fuel : ℕ) (paths : List Text) (n : ℕ)
      → length paths < fuel
      → is_some (next_path fuel paths stem suffix n) ≡ true
  unfolding next_path
  next_path-enough zero paths n lt = absurd (omega arith)
  next_path-enough (suc fuel) paths n lt =
      let x = numbered stem suffix n in
      elim (Bool-cases (contains paths x)) [
        | inr e ↦ rw e refl
        | inl e ↦
            let less = length-remove_lt paths x e in
            let rest = next_path-enough fuel (remove paths x) (suc n) (omega arith) in
            let same = next_path-remove fuel paths n (suc n) (omega arith) in rw (e, ← same) rest
      ]

  next_path-free :
      (fuel : ℕ) (paths : List Text) (n : ℕ) (found : Text)
      → next_path fuel paths stem suffix n ≡ some found
      → contains paths found ≡ false
  unfolding next_path
  next_path-free zero paths n found h = cc
  next_path-free (suc fuel) paths n found h =
      elim (Bool-cases (contains paths (numbered stem suffix n))) [
        | inl e ↦ next_path-free fuel paths (suc n) found (rw e at h)
        | inr e ↦
            let out : some (numbered stem suffix n) ≡ some found = rw e at h in
            let same : numbered stem suffix n ≡ found = cc in rw (← same) e
      ]

-- However many paths are unavailable, the search comes to an end, and what it finds is not one of
-- them.
pub unique_path-free :
    (unavailable : List Text) (path stem suffix : Text)
    → (found : Text) × (unique_path unavailable path stem suffix ≡ some found)
      × (contains unavailable found ≡ false)
unfolding unique_path
unique_path-free unavailable path stem suffix = elim (Bool-cases (contains unavailable path)) [
  | inr e ↦ (path, rw e refl, e)
  | inl e ↦ elim (Option-cases (next_path (suc (length unavailable)) unavailable stem suffix 2)) [
    | inl h ↦
        let ends =
          next_path-enough stem suffix (suc (length unavailable)) unavailable 2 (omega arith) in
        absurd (let bad : false ≡ true = rw h at ends in cc)
    | inr (found, h) ↦
        (found, rw e h, next_path-free stem suffix (suc (length unavailable)) unavailable 2 found h)
  ]
]
