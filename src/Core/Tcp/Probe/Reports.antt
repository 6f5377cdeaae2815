-- ===== src/Core/Tcp/Probe/Reports.antt =====
-- What the active probe tells the balancer, for bytehub_core/src/tcp/probe.rs.
use bytehub.Prelude.{
  ℕ, suc, ◌+◌, ◌^◌, ◌<◌, ◌≡◌, ◌∙◌, refl, ap, sym, subst, Bool, true, false, Option, none, some,
  List, [], ◌∷◌, leb, add32, length, arith, Bool-cases, Option-cases, inl, inr,
}
use bytehub.Core.Tcp.Probe.{ProbeConfig, Probe, Report, start, step, run}

-- The failures at the end of a list of results, after `n` before it.
pub streak : ℕ → List Bool → ℕ
streak n [] = n
streak n (true ∷ rs) = streak 0 rs
streak n (false ∷ rs) = streak (suc n) rs

-- Failures and successes take turns, a failure first unless the peer is marked.
pub IsAlternating : Bool → List Report → Type 0
IsAlternating marked [] = Unit {0}
IsAlternating false (Report.failure ∷ rs) = IsAlternating true rs
IsAlternating false (Report.success ∷ rs) = ⊥
IsAlternating true (Report.success ∷ rs) = IsAlternating false rs
IsAlternating true (Report.failure ∷ rs) = ⊥

abbrev at : ProbeConfig → ℕ → Probe
at cfg n = record { consecutive_fails = n; probe_marked_unhealthy = leb cfg.probe_max_fails n }

run-state :
    (cfg : ProbeConfig) (p : Probe) (r : Bool) (rs : List Bool)
    → (run cfg p (r ∷ rs)).1 ≡ (run cfg (step cfg p r).1 rs).1
unfolding run
run-state cfg p r rs = elim (Option-cases (step cfg p r).0) [
  | inl e ↦ rw (e, run) refl
  | inr (x, e) ↦ rw (e, run) refl
]

step-at :
    (cfg : ProbeConfig) (n : ℕ)
    → 0 < cfg.probe_max_fails
    → suc n < 2 ^ 32
    → ((step cfg (at cfg n) true).1 ≡ at cfg 0) × ((step cfg (at cfg n) false).1 ≡ at cfg (suc n))
unfolding step
step-at cfg n pos small = (ground arith, ground arith)

streak-run :
    (cfg : ProbeConfig) (n : ℕ) (rs : List Bool)
    → 0 < cfg.probe_max_fails
    → n + length rs < 2 ^ 32
    → (run cfg (at cfg n) rs).1 ≡ at cfg (streak n rs)
unfolding run streak
streak-run cfg n [] pos small = refl
streak-run cfg n (true ∷ rs) pos small =
    run-state cfg (at cfg n) true rs
    ∙ ap (λ (p : Probe). (run cfg p rs).1) (step-at cfg n pos (omega arith)).0
    ∙ streak-run cfg 0 rs pos (omega arith)
streak-run cfg n (false ∷ rs) pos small =
    run-state cfg (at cfg n) false rs
    ∙ ap (λ (p : Probe). (run cfg p rs).1) (step-at cfg n pos (omega arith)).1
    ∙ streak-run cfg (suc n) rs pos (omega arith)

-- With a positive limit, after fewer than 2 ^ 32 probes from the start the peer is marked exactly if
-- the probes that have failed since the last success are as many as the limit or more.
pub run-streak :
    (cfg : ProbeConfig) (rs : List Bool)
    → 0 < cfg.probe_max_fails
    → length rs < 2 ^ 32
    → ((run cfg start rs).1.consecutive_fails ≡ streak 0 rs)
      × ((run cfg start rs).1.probe_marked_unhealthy ≡ leb cfg.probe_max_fails (streak 0 rs))
run-streak cfg rs pos small =
    let e : start ≡ at cfg 0 = ground arith in
    let r = ap (λ (p : Probe). (run cfg p rs).1) e ∙ streak-run cfg 0 rs pos (omega arith) in
    (ap (λ (p : Probe). p.consecutive_fails) r, ap (λ (p : Probe). p.probe_marked_unhealthy) r)

abbrev reported : Option Report → List Report → List Report
reported none rs = rs
reported (some x) rs = x ∷ rs

run-step :
    (cfg : ProbeConfig) (p p' : Probe) (r : Bool) (o : Option Report) (rs : List Bool)
    → step cfg p r ≡ (o, p')
    → (run cfg p (r ∷ rs)).0 ≡ reported o (run cfg p' rs).0
unfolding run
run-step cfg p p' r none rs e =
    let o = ap (λ (x : Option Report × Probe). x.0) e in
    let q = ap (λ (x : Option Report × Probe). (run cfg x.1 rs).0) e in rw (o, run) q
run-step cfg p p' r (some x) rs e =
    let o = ap (λ (x : Option Report × Probe). x.0) e in
    let q = ap (λ (y : Option Report × Probe). x ∷ (run cfg y.1 rs).0) e in rw (o, run) q

abbrev marked_at : ℕ → Bool → Probe
marked_at n marked = record { consecutive_fails = n; probe_marked_unhealthy = marked }

reports-IsAlternating :
    (cfg : ProbeConfig) (n : ℕ) (marked : Bool) (rs : List Bool)
    → IsAlternating marked (run cfg (marked_at n marked) rs).0
unfolding run IsAlternating step
reports-IsAlternating cfg n marked [] = tt
reports-IsAlternating cfg n true (true ∷ rs) = reports-IsAlternating cfg 0 false rs
reports-IsAlternating cfg n false (true ∷ rs) = reports-IsAlternating cfg 0 false rs
reports-IsAlternating cfg n true (false ∷ rs) =
    let e : step cfg (marked_at n true) false ≡ (none, marked_at (add32 n 1) true) = ground arith in
    subst (IsAlternating true)
      (sym (run-step cfg (marked_at n true) (marked_at (add32 n 1) true) false none rs e))
      (reports-IsAlternating cfg (add32 n 1) true rs)
reports-IsAlternating cfg n false (false ∷ rs) =
    elim (Bool-cases (leb cfg.probe_max_fails (add32 n 1))) [
      | inl over ↦
          let e : step cfg (marked_at n false) false
              ≡ (some Report.failure, marked_at (add32 n 1) true) =
            ground arith in
          subst (IsAlternating false)
            (sym (
              run-step cfg (marked_at n false) (marked_at (add32 n 1) true) false
                (some Report.failure) rs e))
            (reports-IsAlternating cfg (add32 n 1) true rs)
      | inr under ↦
          let e : step cfg (marked_at n false) false ≡ (none, marked_at (add32 n 1) false) =
            ground arith in
          subst (IsAlternating false)
            (sym (run-step cfg (marked_at n false) (marked_at (add32 n 1) false) false none rs e))
            (reports-IsAlternating cfg (add32 n 1) false rs)
    ]

-- The reports of a run take turns: a failure is reported to the balancer only when the peer is not
-- marked, a success only when it is, so never two of a kind in a row, whatever the probes give.
pub run-IsAlternating :
    (cfg : ProbeConfig) (p : Probe) (rs : List Bool)
    → IsAlternating p.probe_marked_unhealthy (run cfg p rs).0
run-IsAlternating cfg p rs =
    reports-IsAlternating cfg p.consecutive_fails p.probe_marked_unhealthy rs
