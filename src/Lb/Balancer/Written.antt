-- ===== src/Lb/Balancer/Written.antt =====
-- A strategy with its weights as text, in the format that the documentation of `parse_from_str` gives
-- and its unit test writes, and what is read of it.
use bytehub.Prelude.{ℕ, ◌<◌, ◌≡◌, refl, ap, ◌∙◌, Option, none, some, List, [], ◌∷◌, ◌++◌, map}
use bytehub.Prelude.Text.{
  is_digit, is_white, trim, split, split_once, filter_map, trim-cons, trim-digits,
}
use bytehub.Prelude.Text.Pieces.{pieces, split-append, split-cons, map-trim-pieces, filter_map-map}
use bytehub.Lb.IpHash
use bytehub.Lb.IpHash.{decimal}
use bytehub.Lb.IpHash.Decimal.{decimal-digits}
use bytehub.Lb.Balancer.{Strategy, from_str, display, new, weights_of, parse_from_str}

-- The parser of a `u8` reads what `{}` writes of one, and refuses the empty text.
pub record IsParser (parse : List ℕ → Option ℕ) : Type 0 where
  pub parse-decimal : (n : ℕ) → n < 256 → parse (decimal n) ≡ some n
  pub parse-nil : parse [] ≡ none

-- `"{}, "` for each weight.
unfoldable pub written_weights : List ℕ → List ℕ
written_weights [] = []
written_weights (w ∷ ws) = decimal w ++ b',' ∷ b' ' ∷ written_weights ws

unfoldable pub written : Strategy → List ℕ → List ℕ
unfolding written_weights
written s ws = display s ++ b':' ∷ b' ' ∷ written_weights ws

abbrev pub AreBytes : List ℕ → Type 0
AreBytes [] = Unit {0}
AreBytes (w ∷ ws) = (w < 256) × AreBytes ws

split-written :
    (w : ℕ) (ws : List ℕ)
    → split b',' (b' ' ∷ written_weights (w ∷ ws))
      ≡ (b' ' ∷ decimal w, pieces b',' (b' ' ∷ written_weights ws))
unfolding written_weights is_digit
split-written w ws =
    split-cons b',' b' ' (written_weights (w ∷ ws)) refl
    ∙ rw (split-append b',' (decimal w) (b' ' ∷ written_weights ws) (decimal-digits w) refl) refl

trim-decimal : (w : ℕ) → trim (b' ' ∷ decimal w) ≡ decimal w
unfolding is_white
trim-decimal w = trim-cons b' ' (decimal w) refl ∙ trim-digits (decimal w) (decimal-digits w)

module _ {parse : List ℕ → Option ℕ} (p : IsParser parse) where
  filter_map-cons :
      (w : ℕ) (rest : List (List ℕ))
      → w < 256
      → filter_map parse (decimal w ∷ rest) ≡ w ∷ filter_map parse rest
  unfolding filter_map
  filter_map-cons w rest h = rw (p.parse-decimal w h, filter_map) refl

  read_nil : filter_map parse (map trim (pieces b',' (b' ' ∷ written_weights []))) ≡ []
  unfolding written_weights split trim is_white filter_map
  read_nil = rw p.parse-nil refl

  read_pieces :
      (ws : List ℕ)
      → AreBytes ws
      → filter_map parse (map trim (pieces b',' (b' ' ∷ written_weights ws))) ≡ ws
  read_pieces [] h = read_nil
  read_pieces (w ∷ ws) (h, hs) =
      ap (λ q. filter_map parse (trim q.0 ∷ map trim q.1)) (split-written w ws)
      ∙ ap (λ t. filter_map parse (t ∷ map trim (pieces b',' (b' ' ∷ written_weights ws))))
          (trim-decimal w)
      ∙ filter_map-cons w (map trim (pieces b',' (b' ' ∷ written_weights ws))) h
      ∙ ap (λ t. w ∷ t) (read_pieces ws hs)

  pub weights_of-written :
      (ws : List ℕ) → AreBytes ws → weights_of parse (b' ' ∷ written_weights ws) ≡ ws
  unfolding weights_of is_white
  weights_of-written ws h =
      filter_map-map parse trim (pieces b',' (trim (b' ' ∷ written_weights ws)))
      ∙ ap (filter_map parse) (map-trim-pieces b',' refl (b' ' ∷ written_weights ws))
      ∙ read_pieces ws h

pub split_once-written :
    (s : Strategy) (ws : List ℕ)
    → split_once b':' (written s ws) ≡ some (display s, b' ' ∷ written_weights ws)
unfolding written split_once display
split_once-written Strategy.off ws = refl
split_once-written Strategy.ip_hash ws = refl
split_once-written Strategy.round_robin ws = refl

-- A strategy is read back from what it is shown as.
pub from_str-display : (s : Strategy) → from_str (trim (display s)) ≡ some s
unfolding from_str display trim is_white
from_str-display Strategy.off = refl
from_str-display Strategy.ip_hash = refl
from_str-display Strategy.round_robin = refl

-- Read from the text that shows a strategy and its weights, each at most 255, a balancer is the one that
-- is made of them, without health checks.
pub parse_from_str-written :
    (sort : List IpHash.Node → List IpHash.Node) {parse : List ℕ → Option ℕ} (s : Strategy)
    (ws : List ℕ)
    → IsParser parse
    → AreBytes ws
    → parse_from_str sort parse (written s ws) ≡ new sort s ws none
unfolding parse_from_str
parse_from_str-written sort s ws p h =
    rw (split_once-written s ws, from_str-display s, weights_of-written p ws h) refl
