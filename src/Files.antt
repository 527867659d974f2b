-- ===== src/Files.antt =====
-- files.py: the identity of a file, by which the program tells whether it is still the file whose
-- bytes were read.
use soriham_api.Prelude.{ℕ, Bool, true, false, ◌&&◌, ◌≡◌, ◌↔◌, Option, none, some, ◌==◌, arith}

-- stat_signature
pub record Signature : Type 0 where
  pub device : ℕ
  pub inode : ℕ
  pub size : ℕ
  pub mtime : ℕ
  pub ctime : ℕ

abbrev pub same_signature : Signature → Signature → Bool
same_signature s t =
    s.device == t.device
    && s.inode == t.inode
    && s.size == t.size
    && s.mtime == t.mtime
    && s.ctime == t.ctime

-- a stored signature against the one that was read
abbrev pub is_signature : Option Signature → Signature → Bool
is_signature none t = false
is_signature (some s) t = same_signature s t

pub same_signature_iff : (s t : Signature) → (same_signature s t ≡ true) ↔ (s ≡ t)
same_signature_iff s t = ground arith
