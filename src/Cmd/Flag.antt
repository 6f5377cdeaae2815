-- ===== src/Cmd/Flag.antt =====
-- src/cmd/flag.rs: the arguments that the command line takes, without their help. `action` is what clap
-- does with an argument: set a flag, or take a value.
use Prim.Native.String.{String}
use bytehub.Prelude.{ℕ, Option, none, some, List, [], ◌∷◌, ◌++◌}

pub data Action : Type 0 where
  set_true set : Action

pub record Arg : Type 0 where
  pub id : String
  pub short : Option ℕ
  pub long : String
  pub value_name : Option String
  pub action : Action
  pub display_order : ℕ

-- An argument that sets a flag, and one that takes a value.
abbrev flag : String → ℕ → String → ℕ → Arg
flag id short long display_order = record {
  id = id;
  short = some short;
  long = long;
  value_name = none;
  action = Action.set_true;
  display_order = display_order;
}

abbrev option : String → Option ℕ → String → Option String → ℕ → Arg
option id short long value_name display_order = record {
  id = id;
  short = short;
  long = long;
  value_name = value_name;
  action = Action.set;
  display_order = display_order;
}

unfoldable pub flags : List Arg
flags =
    flag "help" b'h' "help" 0
    ∷ flag "version" b'v' "version" 1
    ∷ flag "daemon" b'd' "daemon" 2
    ∷ flag "use_udp" b'u' "udp" 3
    ∷ flag "use_mptcp" b'm' "mtcp" 4
    ∷ flag "no_tcp" b't' "ntcp" 5
    ∷ flag "ipv6_only" b'6' "ipv6" 6
    ∷ flag "fast_open" b'f' "tfo" 7
    ∷ flag "zero_copy" b'z' "splice" 8
    ∷ []

unfoldable pub options : List Arg
options =
    option "config" (some b'c') "config" (some "path") 0
    ∷ option "local" (some b'l') "listen" (some "address") 1
    ∷ option "remote" (some b'r') "remote" (some "address") 2
    ∷ option "through" (some b'x') "through" (some "address") 3
    ∷ option "interface" (some b'i') "interface" (some "device") 4
    ∷ option "listen_interface" (some b'e') "listen-interface" (some "device") 5
    ∷ option "listen_transport" (some b'a') "listen-transport" (some "options") 6
    ∷ option "remote_transport" (some b'b') "remote-transport" (some "options") 7
    ∷ []

unfoldable pub sys_options : List Arg
sys_options =
    option "nofile" (some b'n') "nofile" (some "limit") 0
    ∷ option "pipe_page" (some b'p') "pipe-page" (some "number") 1
    ∷ option "pre_conn_hook" (some b'j') "pre-conn-hook" (some "path") 2
    ∷ []

unfoldable pub log_options : List Arg
log_options =
    option "log_level" none "log-level" (some "level") 0
    ∷ option "log_output" none "log-output" (some "path") 1
    ∷ []

unfoldable pub dns_options : List Arg
dns_options =
    option "dns_mode" none "dns-mode" (some "mode") 0
    ∷ option "dns_min_ttl" none "dns-min-ttl" (some "second") 1
    ∷ option "dns_max_ttl" none "dns-max-ttl" (some "second") 2
    ∷ option "dns_cache_size" none "dns-cache-size" (some "number") 3
    ∷ option "dns_protocol" none "dns-protocol" (some "protocol") 4
    ∷ option "dns_servers" none "dns-servers" (some "servers") 5
    ∷ []

unfoldable pub proxy_options : List Arg
proxy_options =
    option "send_proxy" none "send-proxy" none 0
    ∷ option "send_proxy_version" none "send-proxy-version" (some "version") 1
    ∷ option "accept_proxy" none "accept-proxy" none 2
    ∷ option "accept_proxy_timeout" none "accept-proxy-timeout" (some "second") 3
    ∷ []

unfoldable pub timeout_options : List Arg
timeout_options =
    option "tcp_timeout" none "tcp-timeout" (some "second") 0
    ∷ option "udp_timeout" none "udp-timeout" (some "second") 1
    ∷ option "tcp_keepalive" none "tcp-keepalive" (some "second") 2
    ∷ option "tcp_keepalive_probe" none "tcp-keepalive-probe" (some "count") 3
    ∷ []

-- `add_all`, by its three parts.
unfoldable pub add_all : List Arg
unfolding flags options sys_options log_options dns_options proxy_options timeout_options
add_all =
    flags
    ++ (options
        ++ (sys_options ++ (log_options ++ (dns_options ++ (proxy_options ++ timeout_options)))))
