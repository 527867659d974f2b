-- ===== src/Media/Stream/Trusted.antt =====
-- What a file may become while it is sent.
use soriham_api.Prelude.{
  ℕ, zero, suc, ◌+◌, ◌-◌, ◌≡◌, refl, sym, String, true, Option, none, some, List, [], ◌∷◌, take,
  drop, length, min, opt_str_eq, Bool-cases, inl, inr,
}
use soriham_api.Table.{All}
use soriham_api.Files.{Signature, same_signature, same_signature_iff}
use soriham_api.Media.Stream.{
  Look, chunk_size, chunk_at, still_valid, yields, unless_empty, rounds, iter_stream,
}

-- the signature of the file that was opened, or one under which the whole file had the expected hash
pub data Trusted (looks : ℕ → Look) (opened : Signature) (expected : Option String)
    : Signature → Type 0 where
  at_open : Trusted looks opened expected opened
  at_hash :
      (k : ℕ)
      → opt_str_eq expected (looks k).digest ≡ true
      → (looks k).signature ≡ (looks k).after
      → Trusted looks opened expected (looks k).after

-- bytes of the file as one round meets it, under a trusted signature
pub record IsTrusted (looks : ℕ → Look) (opened : Signature) (expected : Option String)
    (chunk : List ℕ) : Type 0 where
  pub round : ℕ
  pub position : ℕ
  pub count : ℕ
  pub is_read : chunk ≡ take count (drop position (looks round).file)
  pub trusted : Trusted looks opened expected (looks round).signature

module _ (looks : ℕ → Look) (opened : Signature) (expected : Option String) where
  All-unless_empty :
      (chunk : List ℕ) (out : List (List ℕ))
      → All (IsTrusted looks opened expected) out
      → All (IsTrusted looks opened expected) (unless_empty chunk out)
  All-unless_empty [] out h = tt
  All-unless_empty (b ∷ bs) out h = h

  still_valid-Trusted :
      (signature s : Signature) (k : ℕ)
      → Trusted looks opened expected signature
      → still_valid signature expected (looks k) ≡ some s
      → Trusted looks opened expected (looks k).signature × Trusted looks opened expected s
  still_valid-Trusted signature s k trust h =
      elim (Bool-cases (same_signature (looks k).signature signature)) [
        | inl e ↦
            let out : some signature ≡ some s = rw e at h in
            let stays : signature ≡ s = cc in
            let read = (same_signature_iff (looks k).signature signature).0 e in
            (rw read trust, rw (← stays) trust)
        | inr e ↦ elim (Bool-cases (opt_str_eq expected (looks k).digest)) [
          | inr bad ↦ absurd (let out : none ≡ some s = rw (e, bad) at h in cc)
          | inl hashed ↦ elim (Bool-cases (same_signature (looks k).after (looks k).signature)) [
            | inr moved ↦ absurd (let out : none ≡ some s = rw (e, hashed, moved) at h in cc)
            | inl still ↦
                let out : some (looks k).after ≡ some s = rw (e, hashed, still) at h in
                let goes : (looks k).after ≡ s = cc in
                let same = (same_signature_iff (looks k).after (looks k).signature).0 still in
                let there = at_hash k hashed (sym same) in (rw (← same) there, rw (← goes) there)
          ]
        ]
      ]

  All-yields :
      (row : Option Signature) (signature : Signature) (k position count : ℕ)
      (f : Signature → List (List ℕ))
      → still_valid signature expected (looks k) ≡ row
      → Trusted looks opened expected signature
      → ((s : Signature)
          → Trusted looks opened expected s
          → All (IsTrusted looks opened expected) (f s))
      → All
          (IsTrusted looks opened expected)
          (yields row (take count (drop position (looks k).file)) f)
  All-yields none signature k position count f e trust h = tt
  All-yields (some s) signature k position count f e trust h =
      let (now, next) = still_valid-Trusted signature s k trust e in
      (
        record { round = k; position = position; count = count; is_read = refl; trusted = now },
        h s next,
      )

  rounds-IsTrusted :
      (fuel k position remaining : ℕ) (signature : Signature)
      → Trusted looks opened expected signature
      → All
          (IsTrusted looks opened expected)
          (rounds fuel looks k position remaining signature expected)
  unfolding rounds
  rounds-IsTrusted zero k position remaining signature trust = tt
  rounds-IsTrusted (suc fuel) k position zero signature trust = tt
  rounds-IsTrusted (suc fuel) k position (suc more) signature trust =
      let chunk = chunk_at (looks k) position (suc more) in
      All-unless_empty chunk _ (
        All-yields (still_valid signature expected (looks k)) signature k position
          (min chunk_size (suc more)) _ refl trust
          (λ s next.
            rounds-IsTrusted fuel (suc k) (position + length chunk) (suc more - length chunk) s
              next))

-- Whatever others do to the file, every chunk that is sent was read from a file whose signature is
-- that at the opening, or one under which the file, read as a whole meanwhile, had the expected hash.
pub iter_stream-IsTrusted :
    (looks : ℕ → Look) (start past_end : ℕ) (opened : Signature) (expected : Option String)
    → All (IsTrusted looks opened expected) (iter_stream looks start past_end opened expected)
unfolding iter_stream
iter_stream-IsTrusted looks start past_end opened expected =
    rounds-IsTrusted looks opened expected (past_end - start) 0 start (past_end - start) opened
      at_open
