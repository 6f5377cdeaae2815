-- ===== src/Prelude/Bytes.antt =====
-- Texts as the bytes of their UTF-8, and the operations of the standard library on them.
pub use bytehub.Prelude.Literals.{bytes}
use bytehub.Prelude.{ℕ, ◌+◌, Bool, true, false, ◌&&◌, List, [], ◌∷◌, leb, ◌==◌, if◌then◌else◌}

infix 50 ◌=?◌
abbrev pub ◌=?◌ : List ℕ → List ℕ → Bool
[] =? [] = true
[] =? (y ∷ ys) = false
(x ∷ xs) =? [] = false
(x ∷ xs) =? (y ∷ ys) = let rest = xs =? ys in if x == y then rest else false

-- `to_ascii_lowercase`.
abbrev pub to_ascii_lowercase : List ℕ → List ℕ
to_ascii_lowercase [] = []
to_ascii_lowercase (c ∷ cs) =
    (if leb b'A' c && leb c b'Z' then c + 32 else c) ∷ to_ascii_lowercase cs
