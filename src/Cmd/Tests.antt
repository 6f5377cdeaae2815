-- ===== src/Cmd/Tests.antt =====
-- Runs of the reading of the command line.
use Prim.Native.String.{String}
use text.Mathlib.TextEquality.{eq_iff}
use text.Mathlib.Text.{◌==◌}
use bytehub.Prelude.{
  ℕ, ◌≡◌, ◌≢◌, refl, ap, Bool, true, not, ◌&&◌, if◌then◌else◌, zero, suc, get_elem?, arith,
  Bool-cases, inl, inr, Option, none, some, List, [], ◌∷◌, ◌>>=◌,
}
use bytehub.Prelude.Bytes.{bytes}
use bytehub.Cmd.{Matches, Parsers, net_matches, handle_matches}
use bytehub.Cmd.Declared.{SameOptions, handle_matches-declared, from_cmd_args-no_probe}
use bytehub.Cmd.Flag.{Arg, add_all}
use bytehub.Conf.Net
use bytehub.Conf.Log
use bytehub.Conf.Dns.Build
use bytehub.Conf.Dns.Tests.{library}

abbrev parsers : Parsers ℕ
parsers = record { parse_usize = λ s. some 8; parse_bool = λ s. some true; dns = library }

-- A value of the option with the key `k`, in front of others.
abbrev given : String → List ℕ → (String → Option (List ℕ)) → String → Option (List ℕ)
given k v more key = if key == k then some v else more key

abbrev nothing_given : String → Option (List ℕ)
nothing_given key = none

abbrev from_to : String → Option (List ℕ)
from_to = given "local" (bytes "a:1") (given "remote" (bytes "b:2") nothing_given)

abbrev line : Matches
line = record { get_flag = λ key. key == "use_udp"; get_one = from_to }

from_to-config : line.get_one "config" ≡ none
from_to-config = refl

-- The same line with another number of probes.
abbrev probing : Matches
probing = record line { get_one = given "tcp_keepalive_probe" (bytes "3") from_to }

-- The same line with a value of an option that there is not.
abbrev undeclared : Matches
undeclared = record line { get_one = given "tcp_fast" (bytes "3") from_to }

abbrev absent : String → List Arg → Bool
absent k [] = true
absent k (a ∷ rest) = not (a.id == k) && absent k rest

absent-given :
    (k : String) (v : List ℕ) (f : String → Option (List ℕ)) (l : List Arg)
    → absent k l ≡ true
    → (i : ℕ) {a : Arg} → get_elem? l i ≡ some a
    → f a.id ≡ given k v f a.id
absent-given k v f [] e i h = absurd cc
absent-given k v f (b ∷ l) e zero {a} h =
    let same : b ≡ a = cc h in ground (arith, ap (λ (x : Arg). x.id == k) same)
absent-given k v f (b ∷ l) e (suc i) h = absent-given k v f l (ground (arith, e)) i h

undeclared-SameOptions : SameOptions line undeclared
unfolding add_all
undeclared-SameOptions i a h k = absent-given "tcp_fast" (bytes "3") from_to add_all refl i h

handle_matches-declared_example : handle_matches parsers line ≡ handle_matches parsers undeclared
handle_matches-declared_example =
    handle_matches-declared parsers line undeclared (λ i a h k. refl) undeclared-SameOptions

unprobed :
    (key : String)
    → key ≢ "tcp_keepalive_probe"
    → from_to key ≡ given "tcp_keepalive_probe" (bytes "3") from_to key
unprobed key other = elim (Bool-cases (key == "tcp_keepalive_probe")) [
  | inl e ↦ absurd (other ((eq_iff key "tcp_keepalive_probe").0 e))
  | inr e ↦ rw e refl
]

from_cmd_args-no_probe_example :
    Net.from_cmd_args (net_matches parsers line) ≡ Net.from_cmd_args (net_matches parsers probing)
from_cmd_args-no_probe_example =
    from_cmd_args-no_probe (net_matches parsers line) (net_matches parsers probing) (λ key. refl)
      (λ key other. ap (λ o. o >>= parsers.parse_bool) (unprobed key other))
      (λ key other. ap (λ o. o >>= parsers.parse_usize) (unprobed key other))
