-- ===== src/Cmd/Asked.antt =====
-- The values of the command line that decide what the program is asked for, for src/cmd/mod.rs.
use bytehub.Prelude.{
  ℕ, ◌≡◌, refl, Option, none, some, List, if◌then◌else◌, true, false, ◌&&◌, ◌>>=◌,
}
use bytehub.Cmd.{Matches, Parsers, CmdInput, parse_global_opts, handle_matches}
use bytehub.Conf.{EndpointConf, CmdOverride}
use bytehub.Conf.Endpoint

-- `handle_matches`, of the values that it reads.
unfoldable pub asked :
    (config local remote : Option (List ℕ)) → Option EndpointConf → CmdOverride → Option CmdInput
asked (some path) l r ep opts = some (CmdInput.config path opts)
asked none (some l) (some r) ep opts = ep >>= (λ e. some (CmdInput.endpoint e opts))
asked none none r ep opts = some CmdInput.nothing
asked none (some l) none ep opts = some CmdInput.nothing

asked_by :
    (config local remote : Option (List ℕ)) (ep : Option EndpointConf) (opts : CmdOverride)
    → (elim config [
      | some path ↦ some (CmdInput.config path opts)
      | none ↦
          if elim local [ none ↦ false | some v ↦ true ]
            && elim remote [ none ↦ false | some v ↦ true ]
          then ep >>= (λ e. some (CmdInput.endpoint e opts))
          else some CmdInput.nothing
    ])
      ≡ asked config local remote ep opts
unfolding asked
asked_by (some path) l r ep opts = refl
asked_by none (some l) (some r) ep opts = refl
asked_by none none r ep opts = refl
asked_by none (some l) none ep opts = refl

module _ {O : Type 0} (parsers : Parsers O) (m : Matches) where
  pub handle_matches-asked :
      handle_matches parsers m
      ≡ asked
          (m.get_one "config")
          (m.get_one "local")
          (m.get_one "remote")
          (Endpoint.from_cmd_args m.get_one)
          (parse_global_opts parsers m)
  unfolding handle_matches
  handle_matches-asked =
      asked_by (m.get_one "config") (m.get_one "local") (m.get_one "remote")
        (Endpoint.from_cmd_args m.get_one) (parse_global_opts parsers m)
