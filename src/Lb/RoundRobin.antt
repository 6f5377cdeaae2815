-- ===== src/Lb/RoundRobin.antt =====
-- bytehub_lb/src/round_robin.rs: smooth weighted round robin with exclusion of failing nodes. The
-- nodes stand under one lock, so a call is one step; the clock is an argument of each call.
mod Tests
pub mod Loop
pub mod Nearest
pub mod Selection
pub mod Failures
pub mod Sums
pub mod Steady
pub mod Chosen
pub mod Fairness
use bytehub.Prelude.{
  ℕ, zero, suc, ◌+◌, ◌≡◌, refl, Bool, true, false, Option, none, some, List, [], ◌∷◌, ltb, leb,
  ◌==◌, if◌then◌else◌, add32, length, set,
}
use bytehub.Prelude.Int.{ℤ, pos, ◌+ℤ◌, ◌-ℤ◌, ltb_ℤ, wrap16}
use bytehub.Lb.{HealthCheckConfig, Token}

-- `cw` is an `i16`; `ew` and `weight` are `u8`; the counters are `u32`.
pub record Node : Type 0 where
  pub cw : ℤ
  pub ew : ℕ
  pub weight : ℕ
  pub token : Token
  pub fails : ℕ
  pub checked : ℕ

pub record RoundRobin : Type 0 where
  pub nodes : List Node
  pub total : ℕ
  pub config : Option HealthCheckConfig

abbrev new_node : ℕ → ℕ → Node
new_node i w = record { cw = pos 0; ew = w; weight = w; token = i; fails = 0; checked = 0 }

-- `weights.iter().enumerate().map(…)`, from index `i`.
pub new_nodes : ℕ → List ℕ → List Node
new_nodes i [] = []
new_nodes i (w ∷ ws) = new_node i w ∷ new_nodes (suc i) ws

-- The assertion on the number of weights is `none`.
unfoldable pub new : List ℕ → Option HealthCheckConfig → Option RoundRobin
unfolding new_nodes
new weights config =
    if leb (length weights) 255
    then some (record {
      nodes = if leb (length weights) 1 then [] else new_nodes 0 weights;
      total = length weights;
      config = config;
    })
    else none

-- What the loop of `next` carries: the total weight, the best node so far with its position, and
-- the token of the first node.
pub record Scan : Type 0 where
  pub tw : ℤ
  pub best : Option (ℕ × Node)
  pub first_token : Option Token

abbrev pub empty_scan : Scan
empty_scan = record { tw = pos 0; best = none; first_token = none }

abbrev pub recovered : Node → Node
recovered p = record p { fails = 0; checked = 0 }

-- The test for exclusion: `none` is `continue`, and a node whose window has run out recovers.
pub admit : Option HealthCheckConfig → ℕ → Node → Option Node
admit none now p = some p
admit (some cfg) now p =
    if leb cfg.max_fails p.fails
    then if ltb now p.checked then none else some (recovered p)
    else some p

pub note_first : Option HealthCheckConfig → Scan → Node → Scan
note_first none s p = s
note_first (some cfg) s p = elim s.first_token [
  | none ↦ record s { first_token = some p.token }
  | some t ↦ s
]

pub better : Option (ℕ × Node) → ℕ → Node → Option (ℕ × Node)
better none i p = some (i, p)
better (some (j, x)) i p = if ltb_ℤ x.cw p.cw then some (i, p) else some (j, x)

abbrev pub bump : Node → Node
bump p = record p { cw = wrap16 (p.cw +ℤ pos p.ew) }

abbrev pub weigh : ℕ → Scan → Node → Scan
weigh i s p = record s { tw = wrap16 (s.tw +ℤ pos p.ew); best = better s.best i (bump p) }

-- One round of the loop, for the node `p` at position `i`.
pub visit : Option HealthCheckConfig → ℕ → ℕ → Scan → Node → Scan × Node
unfolding admit note_first better
visit config now i s p = elim (admit config now p) [
  | none ↦ (note_first config s p, p)
  | some q ↦ (weigh i (note_first config s p) q, bump q)
]

pub scan : Option HealthCheckConfig → ℕ → ℕ → Scan → List Node → Scan × List Node
scan config now i s [] = (s, [])
scan config now i s (p ∷ ps) =
    let (s', p') = visit config now i s p in
    let (s'', ps') = scan config now (suc i) s' ps in (s'', p' ∷ ps')

-- The node whose window closes first: the first one with the least `checked`.
pub nearest : Option (ℕ × Token) → List Node → Option (ℕ × Token)
nearest acc [] = acc
nearest none (p ∷ ps) = nearest (some (p.checked, p.token)) ps
nearest (some (c, t)) (p ∷ ps) =
    nearest (if ltb p.checked c then some (p.checked, p.token) else some (c, t)) ps

pub fallback : Option HealthCheckConfig → Option Token → List Node → Option Token
unfolding nearest
fallback none first nodes = none
fallback (some cfg) first nodes = elim (nearest none nodes) [ none ↦ first | some (c, t) ↦ some t ]

abbrev pub select : ℤ → Node → Node
select tw x = record x {
  cw = wrap16 (x.cw -ℤ tw);
  ew = if ltb x.ew x.weight then suc x.ew else x.ew;
}

abbrev pub finish : RoundRobin → Scan × List Node → Option Token × RoundRobin
finish rr (s, nodes) = elim s.best [
  | none ↦ (fallback rr.config s.first_token nodes, record rr { nodes = nodes })
  | some (i, x) ↦ (some x.token, record rr { nodes = set nodes i (select s.tw x) })
]

pub next : ℕ → RoundRobin → Option Token × RoundRobin
next now rr =
    if leb rr.total 1 then (some 0, rr) else finish rr (scan rr.config now 0 empty_scan rr.nodes)

-- The update of the first node with the token, as `find` and a write through the reference.
pub update_token : Token → (Node → Node) → List Node → List Node
update_token t f [] = []
update_token t f (p ∷ ps) = if p.token == t then f p ∷ ps else p ∷ update_token t f ps

pub on_success : RoundRobin → Token → RoundRobin
unfolding update_token
on_success rr t = elim rr.config [
  | none ↦ rr
  | some cfg ↦ record rr { nodes = update_token t recovered rr.nodes }
]

-- A failure counts. From the limit on the effective weight drops to 1, and the failure that reaches
-- the limit opens the window of exclusion.
pub fail_node : HealthCheckConfig → ℕ → Node → Node
fail_node cfg now p =
    let fails = add32 p.fails 1 in
    if leb cfg.max_fails fails
    then record p {
      fails = fails;
      checked = if ltb p.fails cfg.max_fails then add32 now cfg.fail_timeout_secs else p.checked;
      ew = 1;
    }
    else record p { fails = fails }

pub on_failure : ℕ → RoundRobin → Token → RoundRobin
unfolding update_token fail_node
on_failure now rr t = elim rr.config [
  | none ↦ rr
  | some cfg ↦ record rr { nodes = update_token t (fail_node cfg now) rr.nodes }
]
