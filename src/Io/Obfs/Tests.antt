-- ===== src/Io/Obfs/Tests.antt =====
-- A run of the obfuscation of bytehub_io/src/bidi_copy.rs at a small input.
use bytehub.Prelude.{ℕ, ◌≡◌, refl, List, [], ◌∷◌, length}
use bytehub.Io.Obfs.{qualifying, parse_digits, digit_of, compute_garbage_len}

-- Its last letters and digits are 0, 1 and 2, which say 12 bytes of garbage.
abbrev content : List ℕ
content = 0 ∷ 1 ∷ 2 ∷ 3 ∷ 4 ∷ 5 ∷ 6 ∷ b'0' ∷ b'1' ∷ b'2' ∷ []

abbrev garbage : List ℕ
garbage = 9 ∷ 9 ∷ 9 ∷ 9 ∷ 9 ∷ 9 ∷ 9 ∷ 9 ∷ 9 ∷ 9 ∷ 9 ∷ 9 ∷ []

three_qualify : length (qualifying content) ≡ 3
unfolding qualifying
three_qualify = refl

garbage_len : compute_garbage_len content ≡ 12
unfolding compute_garbage_len qualifying parse_digits digit_of
garbage_len = refl
