-- ===== src/Media/Stream.antt =====
-- _iter_stream (media.py): the bytes of an open file, in chunks, while others may write to it.
pub mod Exact
pub mod Trusted
use soriham_api.Prelude.{
  ℕ, zero, suc, ◌+◌, ◌-◌, ◌*◌, min, String, Bool, true, false, ◌&&◌, not, Option, none, some, List,
  [], ◌∷◌, take, drop, length, ltb, opt_str_eq, if◌then◌else◌,
}
use soriham_api.Files.{Signature, same_signature}

abbrev pub chunk_size : ℕ
chunk_size = 1024 * 256

-- What one round of the loop meets: the file as it is read, its signature afterwards, and, where the
-- round asks for them, the digest of the file and the signature behind that.
pub record Look : Type 0 where
  pub file : List ℕ
  pub signature : Signature
  pub digest : String
  pub after : Signature

-- the signature to go on with, or the end of the stream
abbrev pub still_valid : Signature → Option String → Look → Option Signature
still_valid signature expected look =
    if same_signature look.signature signature
    then some signature
    else if opt_str_eq expected look.digest && same_signature look.after look.signature
    then some look.after
    else none

abbrev pub chunk_at : Look → ℕ → ℕ → List ℕ
chunk_at look position remaining = take (min chunk_size remaining) (drop position look.file)

abbrev pub yields : Option Signature → List ℕ → (Signature → List (List ℕ)) → List (List ℕ)
yields none chunk go_on = []
yields (some s) chunk go_on = chunk ∷ go_on s

abbrev pub unless_empty : List ℕ → List (List ℕ) → List (List ℕ)
unless_empty [] out = []
unless_empty (b ∷ bs) out = out

-- rounds are numbered; the first argument bounds their number
unfoldable pub rounds : ℕ → (ℕ → Look) → ℕ → ℕ → ℕ → Signature → Option String → List (List ℕ)
rounds zero looks k position remaining signature expected = []
rounds (suc fuel) looks k position zero signature expected = []
rounds (suc fuel) looks k position (suc more) signature expected =
    let chunk = chunk_at (looks k) position (suc more) in
    unless_empty chunk (
      yields (still_valid signature expected (looks k)) chunk (λ s.
        rounds fuel looks (suc k) (position + length chunk) (suc more - length chunk) s expected))

-- each round sends at least a byte, so that the number of bytes bounds that of the rounds
unfoldable pub iter_stream : (ℕ → Look) → ℕ → ℕ → Signature → Option String → List (List ℕ)
unfolding rounds
iter_stream looks start past_end signature expected =
    rounds (past_end - start) looks 0 start (past_end - start) signature expected
