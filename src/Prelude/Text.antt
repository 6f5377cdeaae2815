-- ===== src/Prelude/Text.antt =====
-- Texts taken apart, as the standard library does it. White space is that of ASCII.
pub mod Pieces
use bytehub.Prelude.{
  ℕ, ◌≡◌, ◌≢◌, refl, ap, ◌∙◌, Bool, true, false, ◌&&◌, ◌||◌, Option, none, some, List, [], ◌∷◌,
  ◌++◌, map, ltb, leb, ◌==◌, if◌then◌else◌, arith, Bool-cases, ==_iff,
}

unfoldable pub is_white : ℕ → Bool
is_white c = (leb 9 c && leb c 13) || c == 32

pub is_nil : List ℕ → Bool
is_nil [] = true
is_nil (c ∷ cs) = false

-- `trim`, from the end and from the start.
pub trim_start : List ℕ → List ℕ
unfolding is_white
trim_start [] = []
trim_start (c ∷ cs) = let rest = trim_start cs in if is_white c then rest else c ∷ cs

pub trim_end : List ℕ → List ℕ
unfolding is_white is_nil
trim_end [] = []
trim_end (c ∷ cs) = let rest = trim_end cs in if is_nil rest && is_white c then [] else c ∷ rest

unfoldable pub trim : List ℕ → List ℕ
unfolding trim_start trim_end
trim s = trim_start (trim_end s)

-- `split` at a byte: the first piece, and the others.
unfoldable pub split : ℕ → List ℕ → List ℕ × List (List ℕ)
split sep [] = ([], [])
split sep (c ∷ cs) =
    let (first, others) = split sep cs in
    if c == sep then ([], first ∷ others) else (c ∷ first, others)

-- `split_once` at the first such byte, and `rsplit_once` at the last.
unfoldable pub split_once : ℕ → List ℕ → Option (List ℕ × List ℕ)
split_once sep [] = none
split_once sep (c ∷ cs) =
    let rest = split_once sep cs in
    if c == sep then some ([], cs) else elim rest [ none ↦ none | some (a, b) ↦ some (c ∷ a, b) ]

unfoldable pub rsplit_once : ℕ → List ℕ → Option (List ℕ × List ℕ)
rsplit_once sep [] = none
rsplit_once sep (c ∷ cs) = elim (rsplit_once sep cs) [
  | some (a, b) ↦ some (c ∷ a, b)
  | none ↦ if c == sep then some ([], cs) else none
]

-- `filter_map`.
unfoldable pub filter_map : {A : Type 0} → (List ℕ → Option A) → List (List ℕ) → List A
filter_map f [] = []
filter_map f (x ∷ xs) = let rest = filter_map f xs in elim (f x) [ none ↦ rest | some a ↦ a ∷ rest ]

-- Every byte of the text passes the test.
abbrev pub All : (ℕ → Bool) → List ℕ → Type 0
All p [] = Unit {0}
All p (c ∷ cs) = (p c ≡ true) × All p cs

unfoldable pub is_digit : ℕ → Bool
is_digit c = leb 48 c && leb c 57

pub digit_ne_white : (c : ℕ) → is_digit c ≡ true → is_white c ≡ false
unfolding is_digit is_white
digit_ne_white c h = ground arith

pub digit_ne : (c sep : ℕ) → is_digit c ≡ true → is_digit sep ≡ false → (c == sep) ≡ false
unfolding is_digit
digit_ne c sep h k = ground arith

pub trim_end-digits : (s : List ℕ) → All is_digit s → trim_end s ≡ s
unfolding trim_end
trim_end-digits [] h = refl
trim_end-digits (c ∷ cs) (h, hs) =
    rw (trim_end-digits cs hs, digit_ne_white c h) (and_false (is_nil cs) c cs)
  where
    and_false : (b : Bool) (c : ℕ) (cs : List ℕ) → (if b && false then [] else c ∷ cs) ≡ c ∷ cs
    and_false true c cs = refl
    and_false false c cs = refl

trim_start-digits : (s : List ℕ) → All is_digit s → trim_start s ≡ s
unfolding trim_start
trim_start-digits [] h = refl
trim_start-digits (c ∷ cs) (h, hs) = rw (digit_ne_white c h) refl

-- White space before a text is trimmed away with that of the text.
pub trim-cons : (c : ℕ) (s : List ℕ) → is_white c ≡ true → trim (c ∷ s) ≡ trim s
unfolding trim trim_end trim_start is_nil
trim-cons c s h =
    elim (trim_end s)
      as (λ r. trim_start (if is_nil r && is_white c then [] else c ∷ r) ≡ trim_start r) [
        | [] ↦ rw h refl
        | x ∷ xs ↦ rw h refl
      ]

pub trim-digits : (s : List ℕ) → All is_digit s → trim s ≡ s
unfolding trim
trim-digits s h = rw (trim_end-digits s h, trim_start-digits s h) refl
