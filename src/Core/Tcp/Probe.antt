-- ===== src/Core/Tcp/Probe.antt =====
-- bytehub_core/src/tcp/probe.rs: the active probe of one peer, as a state machine over the results of
-- the single probes (true where the connection succeeded). The report of a step goes to the balancer.
pub mod Reports
mod Tests
use bytehub.Prelude.{
  ℕ, ◌+◌, ◌*◌, ◌/◌, ◌%◌, ◌^◌, ◌≡◌, refl, Bool, true, false, not, ◌&&◌, Option, none, some, List, [],
  ◌∷◌, leb, ltb, if◌then◌else◌, add32, ◌==◌,
}

pub record ProbeConfig : Type 0 where
  pub probe_interval_secs : ℕ
  pub probe_unhealthy_interval_secs : ℕ
  pub probe_timeout_ms : ℕ
  pub probe_max_fails : ℕ

abbrev pub default_config : ProbeConfig
default_config = record {
  probe_interval_secs = 10;
  probe_unhealthy_interval_secs = 5;
  probe_timeout_ms = 3000;
  probe_max_fails = 2;
}

-- `timeout_secs` of a single probe; the sum of `u64` wraps.
pub timeout_secs : ℕ → ℕ
timeout_secs timeout_ms =
    let secs = (timeout_ms + 999) % 2 ^ 64 / 1000 in if secs == 0 then 1 else secs

-- A single probe: the first address that the resolver gives, and whether a connection to it succeeds
-- within the seconds. Both are parameters.
pub probe_once : {A : Type 0} → (ℕ → A → Bool) → Option (List A) → ℕ → Bool
unfolding timeout_secs
probe_once connects none timeout_ms = false
probe_once connects (some []) timeout_ms = false
probe_once connects (some (addr ∷ addrs)) timeout_ms = connects (timeout_secs timeout_ms) addr

pub record Probe : Type 0 where
  pub consecutive_fails : ℕ
  pub probe_marked_unhealthy : Bool

abbrev pub start : Probe
start = record { consecutive_fails = 0; probe_marked_unhealthy = false }

pub interval : ProbeConfig → Probe → ℕ
interval cfg p =
    if p.probe_marked_unhealthy then cfg.probe_unhealthy_interval_secs else cfg.probe_interval_secs

-- A call of `on_success` or of `on_failure`.
pub data Report : Type 0 where
  success failure : Report

pub step : ProbeConfig → Probe → Bool → Option Report × Probe
step cfg p true =
    if p.probe_marked_unhealthy
    then (some Report.success, record { consecutive_fails = 0; probe_marked_unhealthy = false })
    else (none, record p { consecutive_fails = 0 })
step cfg p false =
    let fails = add32 p.consecutive_fails 1 in
    if leb cfg.probe_max_fails fails && not p.probe_marked_unhealthy
    then (some Report.failure, record { consecutive_fails = fails; probe_marked_unhealthy = true })
    else (none, record p { consecutive_fails = fails })

-- The reports of a run of probes, and the state after it.
pub run : ProbeConfig → Probe → List Bool → List Report × Probe
unfolding step
run cfg p [] = ([], p)
run cfg p (r ∷ rs) =
    let (report, p') = step cfg p r in
    let (reports, p'') = run cfg p' rs in
    elim report [ none ↦ (reports, p'') | some x ↦ (x ∷ reports, p'') ]
