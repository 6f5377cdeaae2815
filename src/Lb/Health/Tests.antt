-- ===== src/Lb/Health/Tests.antt =====
-- Runs of bytehub_lb/src/health.rs at small inputs.
use bytehub.Prelude.{◌≤◌, ◌<◌, ◌≡◌, ◌↔◌, refl, false, none, [], ◌∷◌, arith, add32}
use bytehub.Lb.{HealthCheckConfig}
use bytehub.Lb.Health.{DownstreamNode, DownstreamHealth, healthy_node, is_healthy, report_failures}
use bytehub.Lb.Health.Exclusion.{report_failures-exclude}

abbrev limits : HealthCheckConfig
limits = record { max_fails = 2; fail_timeout_secs = 120; max_latency_ms = none }

abbrev bad_node : DownstreamNode
bad_node = record { fails = 2; checked = 100 }

-- The first node is excluded until 100, the second is healthy.
abbrev two : DownstreamHealth
two = record { nodes = bad_node ∷ healthy_node ∷ []; config = limits }

report_failures-exclude_example :
    ((is_healthy 90 (report_failures (10 ∷ 20 ∷ 30 ∷ []) two 1) 1).0 ≡ false)
    ↔ ((2 ≤ 3) × (90 < add32 30 120))
report_failures-exclude_example =
    report_failures-exclude (10 ∷ 20 ∷ 30 ∷ []) two 1 90 0 refl (omega arith) (omega arith)
