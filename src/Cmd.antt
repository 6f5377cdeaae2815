-- ===== src/Cmd.antt =====
-- src/cmd/mod.rs and src/bin.rs: what the command line asks for, and the configuration that the program
-- starts with. The system calls in between, and help, version and conversion, are left out.
pub mod Flag
pub mod Asked
pub mod Declared
pub mod Start
mod Tests
use Prim.Native.String.{String}
use bytehub.Prelude.{
  ℕ, Bool, true, false, not, ◌&&◌, Option, none, some, List, [], ◌∷◌, ◌++◌, if◌then◌else◌, ◌>>=◌,
}
use bytehub.Conf.{
  EndpointConf, CmdOverride, FullConf, default_conf, add_endpoint, apply_cmd_opts,
  apply_global_opts,
}
use bytehub.Conf.Net
use bytehub.Conf.Log
use bytehub.Conf.Dns.Build
use bytehub.Conf.Endpoint
use bytehub.Conf.Endpoint.{EndpointInfo}
use bytehub.Core.Options.{Endpoint}

-- clap's matches: whether a flag is set, and the value of an option.
pub record Matches : Type 0 where
  pub get_flag : String → Bool
  pub get_one : String → Option (List ℕ)

-- The parsers of the standard library.
pub record Parsers (O : Type 0) : Type 0 where
  pub parse_usize : List ℕ → Option ℕ
  pub parse_bool : List ℕ → Option Bool
  pub dns : Build.Library O

pub data CmdInput : Type 0 where
  config : List ℕ → CmdOverride → CmdInput
  endpoint : EndpointConf → CmdOverride → CmdInput
  nothing : CmdInput

abbrev pub contains_id : Matches → String → Bool
contains_id m key = elim (m.get_one key) [ none ↦ false | some v ↦ true ]

module _ {O : Type 0} (parsers : Parsers O) where
  abbrev pub net_matches : Matches → Net.ArgMatches
  net_matches m = record {
    get_flag = m.get_flag;
    get_usize = λ key. m.get_one key >>= parsers.parse_usize;
    get_bool = λ key. m.get_one key >>= parsers.parse_bool;
  }

  unfoldable pub parse_global_opts : Matches → CmdOverride
  parse_global_opts m = record {
    log = Log.from_cmd_args m.get_one;
    dns = Build.from_cmd_args parsers.dns m.get_one;
    network = Net.from_cmd_args (net_matches m);
  }

  -- `none` is the panic of an endpoint without its addresses.
  unfoldable pub handle_matches : Matches → Option CmdInput
  unfolding parse_global_opts
  handle_matches m = elim (m.get_one "config") [
    | some path ↦ some (CmdInput.config path (parse_global_opts m))
    | none ↦
        if contains_id m "local" && contains_id m "remote"
        then (do
          ep ← Endpoint.from_cmd_args m.get_one
          some (CmdInput.endpoint ep (parse_global_opts m)))
        else some CmdInput.nothing
  ]

-- The configuration of `main`: that of the environment variable if it parses, or that of the command
-- line. `none` is the exit of the program; `read` is the configuration in a file.
unfoldable pub main_conf : Option FullConf → (List ℕ → FullConf) → CmdInput → Option FullConf
main_conf (some conf) read input = some conf
main_conf none read (CmdInput.endpoint ep opts) =
    some (apply_cmd_opts (apply_global_opts (add_endpoint default_conf ep)) opts)
main_conf none read (CmdInput.config path opts) =
    some (apply_cmd_opts (apply_global_opts (read path)) opts)
main_conf none read CmdInput.nothing = none

-- The tasks of `run`, in the order in which they are spawned.
pub data Worker (T : Type 0) : Type 0 where
  run_udp : Endpoint T → Worker T
  run_tcp : Endpoint T → Worker T

unfoldable pub workers : {T : Type 0} → List (EndpointInfo T) → List (Worker T)
workers [] = []
workers (e ∷ es) =
    (if e.use_udp then Worker.run_udp e.endpoint ∷ [] else [])
    ++ ((if not e.no_tcp then Worker.run_tcp e.endpoint ∷ [] else []) ++ workers es)
