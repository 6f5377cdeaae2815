-- ===== src/Lb/Balancer/Tests.antt =====
-- Runs of the parser of a balancer.
use bytehub.Prelude.{◌≡◌, none, [], ◌∷◌, arith}
use bytehub.Lb.Balancer.{Strategy, new, parse_from_str}
use bytehub.Lb.Balancer.Written.{written, parse_from_str-written}
use bytehub.Lb.Balancer.Digits.{parse_u8, parse_u8-IsParser}

parse_from_str-written_example :
    parse_from_str (λ ring. ring) parse_u8 (written Strategy.round_robin (1 ∷ 20 ∷ 255 ∷ []))
    ≡ new (λ ring. ring) Strategy.round_robin (1 ∷ 20 ∷ 255 ∷ []) none
parse_from_str-written_example =
    parse_from_str-written (λ ring. ring) Strategy.round_robin (1 ∷ 20 ∷ 255 ∷ []) parse_u8-IsParser
      (omega arith)
