-- ===== src/Core/Tcp/Probe/Tests.antt =====
-- Runs of bytehub_core/src/tcp/probe.rs at small inputs.
use bytehub.Prelude.{◌≡◌, true, false, [], ◌∷◌, leb, arith}
use bytehub.Core.Tcp.Probe.{default_config, start, run}
use bytehub.Core.Tcp.Probe.Reports.{streak, IsAlternating, run-streak, run-IsAlternating}

run-streak_example :
    ((run default_config start (true ∷ false ∷ false ∷ [])).1.consecutive_fails
      ≡ streak 0 (true ∷ false ∷ false ∷ []))
    × ((run default_config start (true ∷ false ∷ false ∷ [])).1.probe_marked_unhealthy
        ≡ leb 2 (streak 0 (true ∷ false ∷ false ∷ [])))
run-streak_example =
    run-streak default_config (true ∷ false ∷ false ∷ []) (omega arith) (omega arith)

run-IsAlternating_example :
    IsAlternating false (run default_config start (false ∷ false ∷ false ∷ true ∷ [])).0
run-IsAlternating_example =
    run-IsAlternating default_config start (false ∷ false ∷ false ∷ true ∷ [])
