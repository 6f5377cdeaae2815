-- ===== src/Cmd/Declared.antt =====
-- The command line reads only what it declares, for src/cmd/flag.rs, src/cmd/mod.rs and src/conf.
use Prim.Native.String.{String}
use text.Mathlib.Text.{◌==◌}
use text.Mathlib.TextEquality.{eq_iff}
use bytehub.Prelude.{ℕ, ◌≡◌, ◌≢◌, refl, sym, ◌∙◌, some, get_elem?, arith, false}
use bytehub.Cmd.{Matches, Parsers, net_matches, parse_global_opts, handle_matches}
use bytehub.Cmd.Asked.{handle_matches-asked}
use bytehub.Cmd.Flag.{Arg, Action, add_all}
use bytehub.Conf.Net
use bytehub.Conf.Log
use bytehub.Conf.Dns.Build
use bytehub.Conf.Endpoint
use bytehub.Conf.Endpoint.{EndpointInfo}

-- Two command lines agree on the declared flags, and on the declared options.
abbrev pub SameFlags : Matches → Matches → Type 0
SameFlags m m' =
    (i : ℕ) (a : Arg)
    → get_elem? add_all i ≡ some a
    → a.action ≡ Action.set_true
    → m.get_flag a.id ≡ m'.get_flag a.id

abbrev pub SameOptions : Matches → Matches → Type 0
SameOptions m m' =
    (i : ℕ) (a : Arg)
    → get_elem? add_all i ≡ some a
    → a.action ≡ Action.set
    → m.get_one a.id ≡ m'.get_one a.id

module _ {O : Type 0} (parsers : Parsers O) (m m' : Matches) (flags : SameFlags m m')
    (one : SameOptions m m') where
  net_same : Net.from_cmd_args (net_matches parsers m) ≡ Net.from_cmd_args (net_matches parsers m')
  unfolding Net.from_cmd_args add_all
  net_same = simp (
    flags 5 _ refl refl,
    flags 3 _ refl refl,
    flags 4 _ refl refl,
    flags 6 _ refl refl,
    one 34 _ refl refl,
    one 32 _ refl refl,
    one 33 _ refl refl,
    one 28 _ refl refl,
    one 29 _ refl refl,
    one 30 _ refl refl,
    one 31 _ refl refl,
  )

  log_same : Log.from_cmd_args m.get_one ≡ Log.from_cmd_args m'.get_one
  unfolding Log.from_cmd_args add_all
  log_same = simp (one 20 _ refl refl, one 21 _ refl refl)

  dns_same : Build.from_cmd_args parsers.dns m.get_one ≡ Build.from_cmd_args parsers.dns m'.get_one
  unfolding Build.from_cmd_args add_all
  dns_same = simp (
    one 22 _ refl refl,
    one 23 _ refl refl,
    one 24 _ refl refl,
    one 25 _ refl refl,
    one 26 _ refl refl,
    one 27 _ refl refl,
  )

  endpoint_same : Endpoint.from_cmd_args m.get_one ≡ Endpoint.from_cmd_args m'.get_one
  unfolding Endpoint.from_cmd_args add_all
  endpoint_same = simp (
    one 10 _ refl refl,
    one 11 _ refl refl,
    one 12 _ refl refl,
    one 13 _ refl refl,
    one 14 _ refl refl,
    one 15 _ refl refl,
    one 16 _ refl refl,
  )

  parse_global_opts-same : parse_global_opts parsers m ≡ parse_global_opts parsers m'
  unfolding parse_global_opts
  parse_global_opts-same = simp (net_same, log_same, dns_same)

  -- What the program asks of the command line, it asks of flags that are declared as flags and of options
  -- that are declared to take a value: two command lines that agree on these ask for the same.
  pub handle_matches-declared : handle_matches parsers m ≡ handle_matches parsers m'
  unfolding add_all
  handle_matches-declared =
      handle_matches-asked parsers m
      ∙ (rw
            (
              one 9 _ refl refl,
              one 10 _ refl refl,
              one 11 _ refl refl,
              endpoint_same,
              parse_global_opts-same,
            )
            refl
          ∙ sym (handle_matches-asked parsers m'))

differs : (k : String) → (k == "tcp_keepalive_probe") ≡ false → k ≢ "tcp_keepalive_probe"
differs k e h = ground (arith, eq_iff k "tcp_keepalive_probe")

-- The option `tcp_keepalive_probe`, which is declared, has no effect: command lines that differ only in
-- it give the same network options.
pub from_cmd_args-no_probe :
    (m m' : Net.ArgMatches)
    → ((key : String) → m.get_flag key ≡ m'.get_flag key)
    → ((key : String) → key ≢ "tcp_keepalive_probe" → m.get_bool key ≡ m'.get_bool key)
    → ((key : String) → key ≢ "tcp_keepalive_probe" → m.get_usize key ≡ m'.get_usize key)
    → Net.from_cmd_args m ≡ Net.from_cmd_args m'
unfolding Net.from_cmd_args
from_cmd_args-no_probe m m' flags bools usizes = simp (
  flags "no_tcp",
  flags "use_udp",
  flags "use_mptcp",
  flags "ipv6_only",
  bools "send_proxy" (differs "send_proxy" refl),
  bools "accept_proxy" (differs "accept_proxy" refl),
  usizes "tcp_keepalive" (differs "tcp_keepalive" refl),
  usizes "tcp_timeout" (differs "tcp_timeout" refl),
  usizes "udp_timeout" (differs "udp_timeout" refl),
  usizes "send_proxy_version" (differs "send_proxy_version" refl),
  usizes "accept_proxy_timeout" (differs "accept_proxy_timeout" refl),
)
