-- ===== src/Core/Tcp/Relay.antt =====
-- bytehub_core/src/tcp/middle.rs: the relay of a connection, and the report to the balancer after it.
-- What the copy and the sockets do is a course of events with times, which is a parameter, as is the
-- header of the proxy protocol. Hooks are left out.
pub mod Served
mod Tests
use bytehub.Prelude.{
  ℕ, ◌+◌, ◌*◌, Bool, true, false, ◌&&◌, ◌||◌, Option, none, some, List, [], ◌∷◌, ltb, leb, ◌==◌,
  if◌then◌else◌,
}
use bytehub.Lb.{Token}
use bytehub.Core.Tcp.Pool.{Stream, RemotePool}
use bytehub.Core.Tcp.Connect
use bytehub.Core.Tcp.Connect.{Balance, Env, try_connect_with_fallback}

-- Of a relay that is left alone: the times, in microseconds, of the reads of the remote that gave bytes,
-- when the relay ends, and whether without an error. `wins` is the choice of tokio's select where the
-- relay ends at the deadline.
pub record Course : Type 0 where
  pub reads : List ℕ
  pub end : ℕ
  pub ok : Bool
  pub wins : Bool

-- `compare_exchange` from 0: what is stored stays.
pub compare_exchange : ℕ → ℕ → ℕ
compare_exchange stored t = if stored == 0 then t else stored

-- `first_byte_us` after the reads up to a time.
pub byte_before : ℕ → List ℕ → ℕ → ℕ
unfolding compare_exchange
byte_before stored [] now = stored
byte_before stored (t ∷ ts) now =
    byte_before (if leb t now then compare_exchange stored t else stored) ts now

pub first_byte_us : Course → ℕ → ℕ
unfolding byte_before
first_byte_us c now = byte_before 0 c.reads now

-- Whether the relay returned without an error, and `latency_exceeded`.
pub record Relayed : Type 0 where
  pub ok : Bool
  pub latency_exceeded : Bool

pub ends_first : Course → ℕ → Bool
ends_first c deadline = ltb c.end deadline || (c.end == deadline && c.wins)

pub relay_plain_timed : Course → ℕ → Relayed
unfolding first_byte_us ends_first
relay_plain_timed c max_latency_ms =
    let deadline = max_latency_ms * 1000 in
    if ends_first c deadline
    then record { ok = c.ok; latency_exceeded = first_byte_us c c.end == 0 }
    else if ltb 0 (first_byte_us c deadline)
    then record { ok = c.ok; latency_exceeded = false }
    else record { ok = false; latency_exceeded = true }

-- With a transport, or without a limit, the relay is not timed.
pub run_relay : Bool → Option ℕ → Course → Relayed
unfolding relay_plain_timed
run_relay transport none c = record { ok = c.ok; latency_exceeded = false }
run_relay true (some ms) c = record { ok = c.ok; latency_exceeded = false }
run_relay false (some ms) c = relay_plain_timed c ms

-- A call of `on_success` or of `on_failure`.
pub data Report : Type 0 where
  success failure : Report

pub report_of : Relayed → Report
report_of r = if r.ok then (if r.latency_exceeded then failure else success) else failure

-- `clock` is the time of the report.
module _ {S : Type 0} (b : Balance S) (env : Env) (on_success : ℕ → S → Token → S) (clock : ℕ)
    (transport : Bool) (proxied : Stream → Bool) (course : Stream → Course) where
  pub tell : Option Token → Report → S → S
  tell none r s = s
  tell (some t) success s = on_success clock s t
  tell (some t) failure s = b.on_failure clock s t

  -- The result, and the state of the balancer; the relay of a connection always gives success.
  pub relay_connected : Stream → Option Token → S → Bool × S
  unfolding run_relay report_of tell
  relay_connected remote token s =
      if proxied remote
      then (true, tell token (report_of (run_relay transport b.max_latency (course remote))) s)
      else (false, s)

  pub after_connect : Connect.Result × Connect.State S → Bool × S
  unfolding relay_connected
  after_connect (Connect.ok remote token, st) = relay_connected remote token st.balancer
  after_connect (Connect.error, st) = (false, st.balancer)

  pub relayed : Option (Connect.Result × Connect.State S) → Option (Bool × S)
  unfolding after_connect
  relayed none = none
  relayed (some r) = some (after_connect r)

  pub connect_and_relay : ℕ → S → Option RemotePool → Option (Bool × S)
  unfolding relayed
  connect_and_relay fuel s pool = relayed (try_connect_with_fallback b env fuel s pool)
