-- ===== src/Prelude/Literals.antt =====
-- The bytes of a literal text, which here is ASCII.
use Prim.Native.Nat.{ℕ}
use Prim.Native.String.{String, [], ◌∷◌}
use Prim.Native.Char.{code}
use mathlib.Core.List.{List, [] as nil, ◌∷◌ as cons}

abbrev pub bytes : String → List ℕ
bytes [] = nil
bytes (c ∷ s) = cons (code c) (bytes s)
