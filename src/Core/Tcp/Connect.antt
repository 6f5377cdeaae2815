-- ===== src/Core/Tcp/Connect.antt =====
-- bytehub_core/src/tcp/middle.rs: the connection to a peer with retries. A balancer is given by its
-- operations, each of which takes the number of the round for the clock; `dial` and `elapsed_ms` are
-- the outcome of the dial of a round and how long its attempt took. The lookups of the client's
-- address, and of both addresses for the line of the log on success, can fail.
pub mod Rounds
pub mod Ends
pub mod Stuck
pub mod Tried
pub mod Turn
pub mod Turns
pub mod Weightless
mod Tests
use bytehub.Prelude.{
  ℕ, zero, suc, ◌+◌, ◌-◌, ◌≡◌, refl, Bool, true, false, ◌||◌, Option, none, some, List, [], ◌∷◌,
  ltb, leb, ◌==◌, if◌then◌else◌, length, get_elem?,
}
use bytehub.Lb.{Token}
use bytehub.Core.Endpoint.{RemoteAddr}
use bytehub.Core.Tcp.Pool.{Stream, TryRead, RemotePool, pop_idle}

-- What the loop uses of a balancer, whose state is `S`.
pub record Balance (S : Type 0) : Type 0 where
  pub next : ℕ → S → Option Token × S
  pub on_failure : ℕ → S → Token → S
  pub total : ℕ
  pub max_latency : Option ℕ

-- What stays the same in the rounds of one call.
pub record Env : Type 0 where
  pub raddr : RemoteAddr
  pub extra_raddrs : List RemoteAddr
  pub try_read : Stream → TryRead
  pub now : ℕ → ℕ
  pub dial : ℕ → RemoteAddr → Option Stream
  pub elapsed_ms : ℕ → ℕ
  -- Whether the client's address is found at the start, and whether in a round the addresses that the
  -- line of the log shows are found, or the line is not logged.
  pub client_known : Bool
  pub logged : ℕ → Stream → Bool

-- The fastest connection so far that was too slow; the three variables of the code are set together.
pub record Fallback : Type 0 where
  pub stream : Stream
  pub token : Option Token
  pub ms : ℕ

pub record State (S : Type 0) : Type 0 where
  pub token : Option Token
  pub tried : List ℕ
  pub fallback : Option Fallback
  pub balancer : S
  pub pool : Option RemotePool

-- The stream with its token, or the error.
pub data Result : Type 0 where
  ok : Stream → Option Token → Result
  error : Result

pub data Outcome (S : Type 0) : Type 0 where
  again : State S → Outcome S
  stop : Result → State S → Outcome S

unfoldable pub select_addr : Env → Option Token → RemoteAddr
select_addr env none = env.raddr
select_addr env (some zero) = env.raddr
select_addr env (some (suc i)) = elim (get_elem? env.extra_raddrs i) [
  | none ↦ env.raddr
  | some a ↦ a
]

pub has : ℕ → List ℕ → Bool
has t [] = false
has t (u ∷ us) = let rest = has t us in if t == u then true else rest

-- An insertion into the set of tried tokens.
pub insert : ℕ → List ℕ → List ℕ
unfolding has
insert t us = if has t us then us else t ∷ us

module _ {S : Type 0} (b : Balance S) (env : Env) where
  -- The connection of a round, from the pool or else dialled, and the pool after it.
  unfoldable pub attempt : ℕ → State S → Option Stream × Option RemotePool
  unfolding select_addr
  attempt k st = elim st.pool [
    | none ↦ (env.dial k (select_addr env st.token), none)
    | some p ↦ elim st.token [
      | none ↦ (env.dial k (select_addr env none), some p)
      | some t ↦
          let (idle, p') = pop_idle env.try_read (env.now k) t p in
          elim idle [
            | none ↦ (env.dial k (select_addr env (some t)), some p')
            | some s ↦ (some s, some p')
          ]
    ]
  ]

  pub report : ℕ → State S → S
  report k st = elim st.token [ none ↦ st.balancer | some t ↦ b.on_failure k st.balancer t ]

  pub note : State S → List ℕ
  unfolding insert
  note st = elim st.token [ none ↦ st.tried | some t ↦ insert t st.tried ]

  -- The report of a failure, on a token that is given.
  abbrev pub give_up : ℕ → State S → State S
  give_up k st = record st { balancer = report k st; tried = note st }

  pub remember : Stream → ℕ → State S → Option Fallback
  remember s ms st = elim st.fallback [
    | none ↦ some (record { stream = s; token = st.token; ms = ms })
    | some f ↦
        if ltb ms f.ms then some (record { stream = s; token = st.token; ms = ms }) else some f
  ]

  pub is_exhausted : State S → Bool
  is_exhausted st = b.total == 0 || leb b.total (length st.tried)

  pub fall_back : State S → Result
  fall_back st = elim st.fallback [ none ↦ error | some f ↦ ok f.stream f.token ]

  -- After a failure or a slow connection: the end, or the next token.
  pub go_on : ℕ → State S → Outcome S
  unfolding is_exhausted fall_back
  go_on k st =
      if is_exhausted st
      then stop (fall_back st) st
      else let (t, bal) = b.next k st.balancer in again (record st { token = t; balancer = bal })

  unfoldable pub is_slow : ℕ → Bool
  is_slow ms = elim b.max_latency [ none ↦ false | some max ↦ ltb max ms ]

  -- The connection, once its line of the log is written.
  unfoldable pub announce : ℕ → Stream → Option Token → Result
  announce k s t = if env.logged k s then ok s t else error

  unfoldable pub round : ℕ → State S → Outcome S
  unfolding attempt report note remember go_on is_slow announce
  round k st =
      let (found, p') = attempt k st in
      let failed = give_up k (record st { pool = p' }) in
      elim found [
        | none ↦ go_on k failed
        | some s ↦
            if is_slow (env.elapsed_ms k)
            then go_on k (record failed { fallback = remember s (env.elapsed_ms k) failed })
            else stop (announce k s st.token) (record st { pool = p' })
      ]

  -- The loop from round `k`; `none` where the fuel runs out before it ends.
  unfoldable pub rounds : ℕ → ℕ → State S → Option (Result × State S)
  unfolding round
  rounds zero k st = none
  rounds (suc fuel) k st = elim (round k st) [
    | again st' ↦ rounds fuel (suc k) st'
    | stop r st' ↦ some (r, st')
  ]

  -- The state before the first round.
  unfoldable pub start : S → Option RemotePool → State S
  start bal pool = record {
    token = (b.next 0 bal).0;
    tried = [];
    fallback = none;
    balancer = (b.next 0 bal).1;
    pool = pool;
  }

  unfoldable pub try_connect_with_fallback : ℕ → S → Option RemotePool → Option (Result × State S)
  unfolding rounds start
  try_connect_with_fallback fuel bal pool =
      if env.client_known
      then rounds fuel 0 (start bal pool)
      else some
          (error, record { token = none; tried = []; fallback = none; balancer = bal; pool = pool })
