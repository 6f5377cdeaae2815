-- ===== src/Conf/Endpoint/Peers.antt =====
-- What an endpoint is built of, and which remote a token of its balancer stands for.
use mathlib.Core.Option.{some-injective}
use bytehub.Prelude.{
  ◌↔◌, ℕ, zero, suc, ◌≤◌, ◌≡◌, refl, ap, sym, ◌∙◌, Option, none, some, List, [], ◌∷◌, ◌++◌,
  get_elem?, length, arith, ◌>>=◌, get_or, get_elem?-some, dec_lt,
}
use bytehub.Prelude.Text.{is_digit, All, digit_ne, rsplit_once}
use bytehub.Lb.IpHash.{decimal}
use bytehub.Lb.IpHash.Decimal.{decimal-digits}
use bytehub.Lb.Balancer.{Strategy, new}
use bytehub.Lb.Balancer.Written.{
  IsParser, AreBytes, written, split_once-written, from_str-display, weights_of-written,
}
use bytehub.Core.Endpoint.{RemoteAddr, socket_addr, domain_name, display}
use bytehub.Core.Tcp.Connect.{Env, select_addr}
use bytehub.Lb.{HealthCheckConfig}
use bytehub.Conf.{EndpointConf}
use bytehub.Conf.Net.{NetConf}
use bytehub.Conf.Net.Build
use bytehub.Conf.Endpoint.{
  Library, EndpointInfo, build_remote_x, build_each, build_balancer, health_config, build,
}

rsplit_once-digits : (s : List ℕ) → All is_digit s → rsplit_once b':' s ≡ none
unfolding rsplit_once is_digit
rsplit_once-digits [] h = refl
rsplit_once-digits (c ∷ cs) (h, hs) = rw (rsplit_once-digits cs hs, digit_ne c b':' h refl) refl

rsplit_once-append :
    (host s : List ℕ) → All is_digit s → rsplit_once b':' (host ++ b':' ∷ s) ≡ some (host, s)
unfolding rsplit_once
rsplit_once-append [] s h = rw (rsplit_once-digits s h) refl
rsplit_once-append (c ∷ cs) s h = rw (rsplit_once-append cs s h) refl

module _ {T : Type 0} (lib : Library T) (show : List ℕ → ℕ → List ℕ) where
  -- The library reads back the address, or the port of a name that does not look like an address.
  abbrev pub IsReadable : RemoteAddr → Type 0
  IsReadable (socket_addr ip port) = lib.parse_socket_addr (show ip port) ≡ some (ip, port)
  IsReadable (domain_name host port) =
      (lib.parse_socket_addr (host ++ b':' ∷ decimal port) ≡ none)
      × (lib.parse_u16 (decimal port) ≡ some port)

  -- A remote that is shown is read back as it was, also where the name holds colons; if the library
  -- reads back an address and a port, and the name with its port is not taken for an address.
  pub build_remote_x-display :
      (a : RemoteAddr) → IsReadable a → build_remote_x lib (display show a) ≡ some a
  unfolding build_remote_x display
  build_remote_x-display (socket_addr ip port) h = rw (h, build_remote_x) refl
  build_remote_x-display (domain_name host port) (h, k) =
      rw (h, build_remote_x)
        (rw (rsplit_once-append host (decimal port) (decimal-digits port), k) refl)

-- The options of the network ask for these health checks.
abbrev pub AreChecks : NetConf → HealthCheckConfig → Type 0
AreChecks net cfg =
    (net.max_fails ≡ some cfg.max_fails)
    × (net.fail_timeout ≡ some cfg.fail_timeout_secs)
    × (net.max_latency ≡ cfg.max_latency_ms)

health_config-checks :
    (fails time latency : Option ℕ) (cfg : HealthCheckConfig)
    → (health_config fails time latency ≡ some cfg) ↔ (
        (fails ≡ some cfg.max_fails)
        × (time ≡ some cfg.fail_timeout_secs)
        × (latency ≡ cfg.max_latency_ms))
health_config-checks (some m) (some t) latency cfg = (
  λ e.
      let same = some-injective _ cfg e in
      (
        ap (λ (x : HealthCheckConfig). some x.max_fails) same,
        ap (λ (x : HealthCheckConfig). some x.fail_timeout_secs) same,
        ap (λ (x : HealthCheckConfig). x.max_latency_ms) same,
      ),
  λ h.
      let (f, t', l) = h in
      let sf = some-injective _ _ f in
      let st = some-injective _ _ t' in
      ap some (λ i. record { max_fails = sf i; fail_timeout_secs = st i; max_latency_ms = l i }),
)
health_config-checks (some m) none latency cfg =
    (λ e. absurd cc, λ h. let (f, t, l) = h in absurd (cc t))
health_config-checks none t latency cfg = (λ e. absurd cc, λ h. let (f, u, l) = h in absurd (cc f))

both_some :
    {A : Type 0} (x : Option A) (y : Option (List A)) {l : List A}
    → (x >>= λ a. y >>= λ m. some (a ∷ m)) ≡ some l
    → (a : A) × (m : List A) × (x ≡ some a) × (y ≡ some m) × (l ≡ a ∷ m)
both_some none y e = absurd cc
both_some (some a) none e = absurd cc
both_some (some a) (some m) e = (a, m, refl, refl, cc)

-- A place past the end of a list.
get_elem?_past {ℓ} : {A : Type ℓ} (xs : List A) (i : ℕ) → length xs ≤ i → get_elem? xs i ≡ none
get_elem?_past [] i h = refl
get_elem?_past (x ∷ xs) zero h = absurd (omega arith)
get_elem?_past (x ∷ xs) (suc i) h = get_elem?_past xs i (omega arith)

get_or-some {ℓ} :
    {A : Type ℓ} (xs : List A) (i : ℕ) (a d : A) → get_elem? xs i ≡ some a → get_or xs i d ≡ a
get_or-some [] i a d h = absurd cc
get_or-some (x ∷ xs) zero a d h = cc h
get_or-some (x ∷ xs) (suc i) a d h = get_or-some xs i a d h

get_or_past {ℓ} : {A : Type ℓ} (xs : List A) (i : ℕ) (d : A) → length xs ≤ i → get_or xs i d ≡ d
get_or_past [] i d h = refl
get_or_past (x ∷ xs) zero d h = absurd (omega arith)
get_or_past (x ∷ xs) (suc i) d h = get_or_past xs i d (omega arith)

select_addr-some :
    (env : Env) (i : ℕ) (a : RemoteAddr)
    → get_elem? env.extra_raddrs i ≡ some a
    → select_addr env (some (suc i)) ≡ a
unfolding select_addr
select_addr-some env i a h = rw (h, select_addr) refl

select_addr-none :
    (env : Env) (i : ℕ)
    → get_elem? env.extra_raddrs i ≡ none
    → select_addr env (some (suc i)) ≡ env.raddr
unfolding select_addr
select_addr-none env i h = rw (h, select_addr) refl

module _ {T : Type 0} (lib : Library T) where
  -- The parts of an endpoint that come of the texts of its configuration.
  pub record IsBuilt (c : EndpointConf) (info : EndpointInfo T) : Type 0 where
    pub raddr : build_remote_x lib c.remote ≡ some info.endpoint.raddr
    pub extra_raddrs : build_each lib c.extra_remotes ≡ some info.endpoint.extra_raddrs
    pub balancer :
        build_balancer lib c c.network.max_fails c.network.fail_timeout c.network.max_latency
        ≡ some info.endpoint.conn_opts.balancer
    pub probe_targets : build_each lib c.probe_targets ≡ some info.endpoint.conn_opts.probe_targets

  build-IsBuilt :
      (c : EndpointConf) (info : EndpointInfo T) → build lib c ≡ some info → IsBuilt c info
  unfolding build Build.build
  build-IsBuilt c info e = record {
    raddr = ground arith;
    extra_raddrs = ground arith;
    balancer = ground arith;
    probe_targets = ground arith;
  }

  build_each-get_elem? :
      (rs : List (List ℕ)) (more : List RemoteAddr) (i : ℕ) (r : List ℕ)
      → build_each lib rs ≡ some more
      → get_elem? rs i ≡ some r
      → (a : RemoteAddr) × (get_elem? more i ≡ some a) × (build_remote_x lib r ≡ some a)
  build_each-get_elem? [] more i r e h = absurd cc
  build_each-get_elem? (r0 ∷ rs) more zero r e h =
      let (a, m, ea, em, whole) =
        both_some (build_remote_x lib r0) (build_each lib rs) {l = more} (unfold build_each in e) in
      let same : r0 ≡ r = cc h in (a, ap (λ l. get_elem? l 0) whole, rw (← same) ea)
  build_each-get_elem? (r0 ∷ rs) more (suc i) r e h =
      let (a, m, ea, em, whole) =
        both_some (build_remote_x lib r0) (build_each lib rs) {l = more} (unfold build_each in e) in
      rw whole (build_each-get_elem? rs m i r em h)

  length-build_each :
      (rs : List (List ℕ)) (more : List RemoteAddr)
      → build_each lib rs ≡ some more
      → length more ≡ length rs
  unfolding build_each
  length-build_each [] more e = let same : more ≡ [] = cc e in rw same refl
  length-build_each (r ∷ rs) more e =
      let (a, m, ea, em, whole) =
        both_some (build_remote_x lib r) (build_each lib rs) {l = more} e in
      rw whole (ap suc (length-build_each rs m em))

  -- A token that the balancer gives out stands for the remote at its place in the configuration, the
  -- first of them being `remote`, and a token past the remotes for the first one: the connection goes
  -- to the address that this text gives.
  pub select_addr-build :
      (c : EndpointConf) (info : EndpointInfo T) (env : Env) (t : ℕ)
      → build lib c ≡ some info
      → env.raddr ≡ info.endpoint.raddr
      → env.extra_raddrs ≡ info.endpoint.extra_raddrs
      → build_remote_x lib (get_or (c.remote ∷ c.extra_remotes) t c.remote)
        ≡ some (select_addr env (some t))
  unfolding select_addr
  select_addr-build c info env zero e at others = (build-IsBuilt c info e).raddr ∙ ap some (sym at)
  select_addr-build c info env (suc i) e at others =
      let built = build-IsBuilt c info e in
      let seen = λ (o : Option RemoteAddr) (h : get_elem? info.endpoint.extra_raddrs i ≡ o).
        ap (λ l. get_elem? l i) others ∙ h in
      elim (dec_lt i (length c.extra_remotes)) [
        | yes inside ↦
            let (r, at') = get_elem?-some c.extra_remotes i inside in
            let (a, here, read) =
              build_each-get_elem? c.extra_remotes info.endpoint.extra_raddrs i r built.extra_raddrs
                at' in
            rw (get_or-some c.extra_remotes i r c.remote at')
              (read ∙ ap some (sym (select_addr-some env i a (seen (some a) here))))
        | no outside ↦
            let short =
              length-build_each c.extra_remotes info.endpoint.extra_raddrs built.extra_raddrs in
            let past = get_elem?_past info.endpoint.extra_raddrs i (omega (arith, short)) in
            rw (get_or_past c.extra_remotes i c.remote (omega arith))
              (built.raddr ∙ ap some (sym at ∙ sym (select_addr-none env i (seen none past))))
      ]

  -- Where the configuration writes a strategy and weights of at most 255, the endpoint has the balancer
  -- that is made of them and of some health checks, or none: these are given exactly if both the limit
  -- and the time of a failure are set, with these two and with the limit of the latency, if any.
  pub build-balanced :
      (c : EndpointConf) (info : EndpointInfo T) (s : Strategy) (ws : List ℕ)
      → IsParser lib.parse_u8
      → AreBytes ws
      → c.balance ≡ some (written s ws)
      → build lib c ≡ some info
      → (checks : Option HealthCheckConfig) × (new lib.sort s ws checks
          ≡ some info.endpoint.conn_opts.balancer)
        × ((cfg : HealthCheckConfig) → (checks ≡ some cfg) ↔ AreChecks c.network cfg)
  unfolding build_balancer
  build-balanced c info s ws p h b e = (
    health_config c.network.max_fails c.network.fail_timeout c.network.max_latency,
    sym (rw (b, split_once-written s ws, from_str-display s, weights_of-written p ws h) refl)
        ∙ (build-IsBuilt c info e).balancer,
    λ cfg.
        health_config-checks c.network.max_fails c.network.fail_timeout c.network.max_latency cfg,
  )
