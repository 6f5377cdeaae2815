-- ===== src/Lb/Health.antt =====
-- bytehub_lb/src/health.rs: the tracker of failures for each downstream node. The clock is an
-- argument of each call.
pub mod Exclusion
mod Tests
use bytehub.Prelude.{
  ℕ, zero, ◌+◌, ◌≤◌, ◌<◌, ◌≡◌, refl, Bool, true, false, ◌||◌, Option, none, some, List, arith, ltb,
  leb, ◌==◌, if◌then◌else◌, add32, length, get_elem?, set, replicate,
}
use bytehub.Prelude.{[], ◌∷◌}
use bytehub.Lb.{HealthCheckConfig}

pub record DownstreamNode : Type 0 where
  pub fails : ℕ
  pub checked : ℕ

abbrev pub healthy_node : DownstreamNode
healthy_node = record { fails = 0; checked = 0 }

pub record DownstreamHealth : Type 0 where
  pub nodes : List DownstreamNode
  pub config : HealthCheckConfig
  pub open config use {max_fails, fail_timeout_secs}

pub new : ℕ → HealthCheckConfig → DownstreamHealth
new count config = record { nodes = replicate count healthy_node; config = config }

-- The store of both counters of the node at `idx`.
abbrev store : DownstreamHealth → ℕ → DownstreamNode → DownstreamHealth
store h idx node = record h { nodes = set h.nodes idx node }

pub is_healthy : ℕ → DownstreamHealth → ℕ → Bool × DownstreamHealth
is_healthy now h idx = elim (get_elem? h.nodes idx) [
  | none ↦ (false, h)
  | some node ↦
      if ltb node.fails h.max_fails
      then (true, h)
      else if node.checked == 0 || leb node.checked now
      then (true, store h idx healthy_node)
      else (false, h)
]

pub report_success : DownstreamHealth → ℕ → DownstreamHealth
report_success h idx = elim (get_elem? h.nodes idx) [
  | none ↦ h
  | some node ↦ store h idx healthy_node
]

-- `fetch_add` and the sums wrap at 2 ^ 32.
pub report_failure : ℕ → DownstreamHealth → ℕ → Bool × DownstreamHealth
report_failure now h idx = elim (get_elem? h.nodes idx) [
  | none ↦ (false, h)
  | some node ↦
      let fails = add32 node.fails 1 in
      if leb h.max_fails fails
      then (true, store h idx (record { fails = fails; checked = add32 now h.fail_timeout_secs }))
      else (false, store h idx (record node { fails = fails }))
]

pub len : DownstreamHealth → ℕ
len h = length h.nodes

pub is_empty : DownstreamHealth → Bool
is_empty h = length h.nodes == 0

-- Failures of one node at the given times, the oldest first.
pub report_failures : List ℕ → DownstreamHealth → ℕ → DownstreamHealth
report_failures [] h idx = h
report_failures (t ∷ ts) h idx = report_failures ts (report_failure t h idx).1 idx
