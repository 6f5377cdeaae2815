-- ===== src/Lb.antt =====
-- bytehub_lb/src/lib.rs: the peer token and the configuration of health checks.
pub mod Health
pub mod RoundRobin
pub mod IpHash
pub mod Balancer
use bytehub.Prelude.{ℕ, Option, none}

-- `Token(pub u8)`.
abbrev pub Token : Type 0
Token = ℕ

pub record HealthCheckConfig : Type 0 where
  pub max_fails : ℕ
  pub fail_timeout_secs : ℕ
  pub max_latency_ms : Option ℕ

abbrev pub default_config : HealthCheckConfig
default_config = record { max_fails = 2; fail_timeout_secs = 120; max_latency_ms = none }
