-- ===== src/Core/Tcp/Relay/Served.antt =====
-- What the balancer hears of a relay, for bytehub_core/src/tcp/middle.rs.
use mathlib.Core.List.Memᴰ
use mathlib.Core.List.{Memᴰ}
use bytehub.Prelude.{
  ℕ, ◌*◌, ◌≤◌, ◌<◌, ◌≡◌, ◌↔◌, ◌⊎◌, inl, inr, refl, ap, ◌∙◌, Bool, true, false, Option, some, List,
  [], ◌∷◌, if◌then◌else◌, leb, ltb, ◌==◌, dec_lt, Bool-cases, arith,
}
use bytehub.Lb.{Token}
use bytehub.Core.Tcp.Pool.{Stream, RemotePool}
use bytehub.Core.Tcp.Connect
use bytehub.Core.Tcp.Connect.{Balance, Env, try_connect_with_fallback}
use bytehub.Core.Tcp.Relay.{
  Course, compare_exchange, Relayed, byte_before, first_byte_us, ends_first, relay_plain_timed,
  Report, report_of, connect_and_relay, relayed, after_connect, relay_connected, run_relay, tell,
}

-- A relay under a limit is served where it ends without an error, and a read of the remote gave bytes
-- before the end and within the limit, and not in the first microsecond.
pub IsServed : Course → ℕ → Type 0
IsServed c ms = (c.ok ≡ true) × ((f : ℕ) × Memᴰ f c.reads × (0 < f) × (f ≤ c.end) × (f ≤ ms * 1000))

exchanged : ℕ → ℕ → ℕ → ℕ
unfolding compare_exchange
exchanged stored t now = if leb t now then compare_exchange stored t else stored

exchanged_pos :
    (stored t now : ℕ) → 0 < exchanged stored t now → (0 < stored) ⊎ ((0 < t) × (t ≤ now))
unfolding exchanged compare_exchange
exchanged_pos stored t now h = elim (dec_lt 0 stored) [
  | yes p ↦ inl p
  | no n ↦ inr (ground (arith, h), ground (arith, h))
]

exchanged_keeps : (stored t now : ℕ) → 0 < stored → 0 < exchanged stored t now
unfolding exchanged compare_exchange
exchanged_keeps stored t now h = ground (arith, h)

exchanged_takes : (stored t now : ℕ) → 0 < t → t ≤ now → 0 < exchanged stored t now
unfolding exchanged compare_exchange
exchanged_takes stored t now h le = ground (arith, h, le)

-- A time is stored exactly if a read that was not at 0 gave bytes by then.
byte_before-Memᴰ :
    (stored : ℕ) (ts : List ℕ) (now : ℕ)
    → 0 < byte_before stored ts now
    → (0 < stored) ⊎ ((f : ℕ) × Memᴰ f ts × (0 < f) × (f ≤ now))
unfolding byte_before exchanged
byte_before-Memᴰ stored [] now h = inl h
byte_before-Memᴰ stored (t ∷ ts) now h = elim (byte_before-Memᴰ (exchanged stored t now) ts now h) [
  | inl first ↦ elim (exchanged_pos stored t now first) [
    | inl old ↦ inl old
    | inr (p, le) ↦ inr (t, Memᴰ.head refl, p, le)
  ]
  | inr (f, at, p, le) ↦ inr (f, Memᴰ.tail at, p, le)
]

byte_before-keeps :
    (stored : ℕ) (ts : List ℕ) (now : ℕ) → 0 < stored → 0 < byte_before stored ts now
unfolding byte_before exchanged
byte_before-keeps stored [] now h = h
byte_before-keeps stored (t ∷ ts) now h =
    byte_before-keeps (exchanged stored t now) ts now (exchanged_keeps stored t now h)

Memᴰ-byte_before :
    (stored : ℕ) (ts : List ℕ) (now f : ℕ)
    → Memᴰ f ts
    → 0 < f
    → f ≤ now
    → 0 < byte_before stored ts now
unfolding byte_before exchanged
Memᴰ-byte_before stored [] now f at p le = absurd (Memᴰ.not-nil at)
Memᴰ-byte_before stored (t ∷ ts) now f (Memᴰ.head same) p le =
    byte_before-keeps (exchanged stored t now) ts now
      (exchanged_takes stored t now (omega (arith, same, p)) (omega (arith, same, le)))
Memᴰ-byte_before stored (t ∷ ts) now f (Memᴰ.tail at) p le =
    Memᴰ-byte_before (exchanged stored t now) ts now f at p le

-- The report, of the values that decide it.
abbrev timed : Bool → Bool → ℕ → ℕ → Relayed
timed ok first at_end at_deadline =
    if first
    then record { ok = ok; latency_exceeded = at_end == 0 }
    else if ltb 0 at_deadline
    then record { ok = ok; latency_exceeded = false }
    else record { ok = false; latency_exceeded = true }

report_of-first :
    (ok : Bool) (x y : ℕ)
    → (report_of (timed ok true x y) ≡ Report.success) ↔ ((ok ≡ true) × (0 < x))
unfolding report_of
report_of-first true x y = (λ h. (refl, ground (arith, h)), λ h. ground arith)
report_of-first false x y = (λ h. absurd (ground (arith, h)), λ h. absurd (cc (h.0)))

report_of-later :
    (ok : Bool) (x y : ℕ)
    → (report_of (timed ok false x y) ≡ Report.success) ↔ ((ok ≡ true) × (0 < y))
unfolding report_of
report_of-later true x y = (λ h. (refl, ground (arith, h)), λ h. ground arith)
report_of-later false x y = (λ h. absurd (ground (arith, h)), λ h. absurd (cc (h.0)))

-- By a time that is not after another, a read is stored.
stored_iff :
    (ts : List ℕ) (now later : ℕ)
    → now ≤ later
    → (0 < byte_before 0 ts now) ↔ ((f : ℕ) × Memᴰ f ts × (0 < f) × (f ≤ now) × (f ≤ later))
stored_iff ts now later le = (
  λ h. elim (byte_before-Memᴰ 0 ts now h) [
    | inl z ↦ absurd (omega (arith, z))
    | inr (f, at, p, by) ↦ (f, at, p, by, omega arith)
  ],
  λ h. let (f, at, p, by, u) = h in Memᴰ-byte_before 0 ts now f at p by,
)

first_le : (c : Course) (d : ℕ) → ends_first c d ≡ true → c.end ≤ d
unfolding ends_first
first_le c d h = ground (arith, h)

later_le : (c : Course) (d : ℕ) → ends_first c d ≡ false → d ≤ c.end
unfolding ends_first
later_le c d h = ground (arith, h)

heard_iff :
    (c : Course) (ms : ℕ) → (report_of (relay_plain_timed c ms) ≡ Report.success) ↔ IsServed c ms
unfolding IsServed relay_plain_timed first_byte_us
heard_iff c ms = elim (Bool-cases (ends_first c (ms * 1000))) [
  | inl first ↦
      let le : c.end ≤ ms * 1000 = first_le c (ms * 1000) first in
      let r =
        report_of-first c.ok (byte_before 0 c.reads c.end) (byte_before 0 c.reads (ms * 1000)) in
      let t = stored_iff c.reads c.end (ms * 1000) le in
      rw first (
        λ h. let (fine, p) = r.0 h in (fine, t.0 p),
        λ h. let (fine, served) = h in r.1 (fine, t.1 served),
      )
  | inr later ↦
      let le : ms * 1000 ≤ c.end = later_le c (ms * 1000) later in
      let r =
        report_of-later c.ok (byte_before 0 c.reads c.end) (byte_before 0 c.reads (ms * 1000)) in
      let t = stored_iff c.reads (ms * 1000) c.end le in
      rw later (
        λ h. let (fine, p) = r.0 h in let (f, at, q, u, v) = t.0 p in (fine, (f, at, q, v, u)),
        λ h. let (fine, (f, at, q, u, v)) = h in r.1 (fine, t.1 (f, at, q, v, u)),
      )
]

module _ {S : Type 0} (b : Balance S) (env : Env) (on_success : ℕ → S → Token → S) (clock : ℕ)
    (proxied : Stream → Bool) (course : Stream → Course) where
  told-report :
      (remote : Stream) (t : Token) (s : S) (ms : ℕ) (r : Report)
      → b.max_latency ≡ some ms
      → proxied remote ≡ true
      → report_of (relay_plain_timed (course remote) ms) ≡ r
      → relay_connected b env on_success clock false proxied course remote (some t) s
        ≡ (true, tell b env on_success clock false proxied course (some t) r s)
  unfolding relay_connected run_relay
  told-report remote t s ms r limit header e = rw (header, limit, e) refl

  -- Without a transport, a relay under a limit that was connected through a token and whose header was
  -- sent tells the balancer of that token once, and the caller of no error: of a success where the
  -- relay ends without an error and a read of the remote gave bytes before the end, within the limit
  -- and not in the first microsecond; of a failure otherwise.
  pub connect_and_relay-report :
      (fuel : ℕ) (s : S) (pool : Option RemotePool) (remote : Stream) (t : Token)
      (st : Connect.State S) (ms : ℕ)
      → try_connect_with_fallback b env fuel s pool ≡ some (Connect.Result.ok remote (some t), st)
      → b.max_latency ≡ some ms
      → proxied remote ≡ true
      → (report : Report) × (connect_and_relay b env on_success clock false proxied course fuel s
            pool
          ≡ some
              (true, tell b env on_success clock false proxied course (some t) report st.balancer))
        × ((report ≡ Report.success) ↔ IsServed (course remote) ms)
  unfolding connect_and_relay relayed after_connect
  connect_and_relay-report fuel s pool remote t st ms connected limit header =
      let c = course remote in
      (
        report_of (relay_plain_timed c ms),
        ap (relayed b env on_success clock false proxied course) connected
            ∙ ap some (told-report remote t st.balancer ms _ limit header refl),
        heard_iff c ms,
      )
