-- ===== src/Io/Obfs/Session/Exchange.antt =====
-- What the two ends send and take before an obfuscated relay, for bytehub_io/src/bidi_copy.rs.
use bytehub.Prelude.{
  ℕ, ◌≡◌, refl, ap, ◌∙◌, subst, Bool, true, false, Option, none, some, List, ◌++◌, if◌then◌else◌,
  length, take, drop, ltb,
}
use bytehub.Prelude.Bytes.{◌=?◌}
use bytehub.Io.Stream.{Error}
use bytehub.Io.Obfs.{
  Consumed, rest, unexpected_eof, invalid, keyed_hash_tag, qualifying, compute_garbage_len, mask,
  consume_dynamic_obfs_v2,
}
use bytehub.Io.Obfs.Session.{
  Result, ok, err, Whole, WholeLaws, obfs_key, first_of, combined, read_first_chunk, skip_garbage,
  check_header, after_header, consume, Opened, opened, failed, client_consumed, client_written,
  open_client, server_written, server_answer, server_consumed, open_server, open_relay,
}
use bytehub.Io.Obfs.Session.Opening.{IsConsumed, consume-IsConsumed}

module _ {S : Type 0} (io : Whole S) (laws : WholeLaws io) where
  -- Nothing is sent while a prefix is taken.
  keeps-if :
      (s : S) (b : Bool) (u v : S × Option Error)
      → laws.sent u.0 ≡ laws.sent s
      → laws.sent v.0 ≡ laws.sent s
      → laws.sent (if b then u else v).0 ≡ laws.sent s
  keeps-if s true u v h k = h
  keeps-if s false u v h k = k

  check_header-sent :
      (s : S) (content tag : List ℕ) → laws.sent (check_header io s content tag).0 ≡ laws.sent s
  unfolding check_header skip_garbage
  check_header-sent s content tag =
      keeps-if s (tag =? keyed_hash_tag content obfs_key) _ _
        (keeps-if s (ltb (length (qualifying content)) 3) _ _ refl
          (laws.read_exact-sent (compute_garbage_len content) s))
        refl

  after_header-sent :
      (s : S) (r : Result (List ℕ)) → laws.sent (after_header io s r).0 ≡ laws.sent s
  unfolding after_header
  after_header-sent s (err e) = refl
  after_header-sent s (ok header) =
      let plain = mask obfs_key 0 header in check_header-sent s (take 10 plain) (drop 10 plain)

  same-IsConsumed :
      (c : Consumed) (s s' : S)
      → laws.unread s' ≡ laws.unread s
      → IsConsumed io laws c (s, none)
      → IsConsumed io laws c (s', none)
  unfolding IsConsumed
  same-IsConsumed (rest more) s s' e (n, u) = (n, e ∙ u)
  same-IsConsumed unexpected_eof s s' e h = h
  same-IsConsumed invalid s s' e h = h

  pub consume-sent : (s : S) → laws.sent (consume io s).0 ≡ laws.sent s
  unfolding consume
  consume-sent s =
      after_header-sent (io.read_exact 14 s).0 (io.read_exact 14 s).1 ∙ laws.read_exact-sent 14 s

module _ {A B : Type 0} (wa : Whole A) (wb : Whole B) (la : WholeLaws wa) (lb : WholeLaws wb)
    (content garbage : List ℕ) (a : A) (b : B) where
  -- What the first read gives, of 8192 bytes and 200 ms at most.
  abbrev pub first_a : List ℕ
  first_a = first_of (wa.read_within 8192 a).1

  abbrev pub first_b : List ℕ
  first_b = first_of (wb.read_within 8192 b).1

  -- An opened relay has sent to `b` the prefix with the first bytes that `a` had, if any, and nothing to
  -- `a`; it has taken a valid prefix from `b`. Nothing is said of a relay that was refused.
  pub IsClient : Opened A B → Type 0
  IsClient (opened a' b') =
      (la.unread a ≡ first_a ++ la.unread a')
      × (la.sent a' ≡ la.sent a)
      × (lb.sent b' ≡ lb.sent b ++ combined content garbage first_a)
      × IsConsumed wb lb (consume_dynamic_obfs_v2 obfs_key (lb.unread b)) (b', none)
  IsClient (failed e a' b') = Unit

  client_consumed-IsClient :
      (a' : A) (o : B × Option Error)
      → la.unread a ≡ first_a ++ la.unread a'
      → la.sent a' ≡ la.sent a
      → lb.sent o.0 ≡ lb.sent b ++ combined content garbage first_a
      → IsConsumed wb lb (consume_dynamic_obfs_v2 obfs_key (lb.unread b)) o
      → IsClient (client_consumed wa wb content garbage a' o)
  unfolding client_consumed IsClient
  client_consumed-IsClient a' (b', none) u s t c = (u, s, t, c)
  client_consumed-IsClient a' (b', some x) u s t c = tt

  client_written-IsClient :
      (a' : A) (b' : B) (e : Option Error)
      → la.unread a ≡ first_a ++ la.unread a'
      → la.sent a' ≡ la.sent a
      → lb.unread b' ≡ lb.unread b
      → (e ≡ none → lb.sent b' ≡ lb.sent b ++ combined content garbage first_a)
      → IsClient (client_written wa wb content garbage a' b' e)
  unfolding client_written IsClient
  client_written-IsClient a' b' (some x) u s v t = tt
  client_written-IsClient a' b' none u s v t =
      client_consumed-IsClient a' (consume wb b') u s (consume-sent wb lb b' ∙ t refl) (
        subst
          (λ (bs : List ℕ). IsConsumed wb lb (consume_dynamic_obfs_v2 obfs_key bs) (consume wb b'))
          v (consume-IsConsumed wb lb b'))

  open_client-IsClient : IsClient (open_client wa wb content garbage a b)
  unfolding open_client read_first_chunk
  open_client-IsClient =
      let packet = combined content garbage first_a in
      client_written-IsClient (wa.read_within 8192 a).0 (wb.write_all packet b).0
        (wb.write_all packet b).1 (la.within-unread 8192 a) (la.within-sent 8192 a)
        (lb.write-unread packet b) (lb.write-sent packet b)

  -- The same for the other end: it takes a valid prefix from `a`, and sends to `a` its prefix with the
  -- first bytes that `b` had.
  pub IsServer : Opened A B → Type 0
  IsServer (opened a' b') =
      (lb.unread b ≡ first_b ++ lb.unread b')
      × (lb.sent b' ≡ lb.sent b)
      × (la.sent a' ≡ la.sent a ++ combined content garbage first_b)
      × IsConsumed wa la (consume_dynamic_obfs_v2 obfs_key (la.unread a)) (a', none)
  IsServer (failed e a' b') = Unit

  server_written-IsServer :
      (a1 : A) (b' : B) (o : A × Option Error)
      → lb.unread b ≡ first_b ++ lb.unread b'
      → lb.sent b' ≡ lb.sent b
      → la.unread o.0 ≡ la.unread a1
      → (o.1 ≡ none → la.sent o.0 ≡ la.sent a ++ combined content garbage first_b)
      → IsConsumed wa la (consume_dynamic_obfs_v2 obfs_key (la.unread a)) (a1, none)
      → IsServer (server_written wa wb content garbage b' o)
  unfolding server_written IsServer
  server_written-IsServer a1 b' (a', some x) u s v t c = tt
  server_written-IsServer a1 b' (a', none) u s v t c = (
    u,
    s,
    t refl,
    same-IsConsumed wa la (consume_dynamic_obfs_v2 obfs_key (la.unread a)) a1 a' v c,
  )

  server_consumed-IsServer :
      (o : A × Option Error)
      → la.sent o.0 ≡ la.sent a
      → IsConsumed wa la (consume_dynamic_obfs_v2 obfs_key (la.unread a)) o
      → IsServer (server_consumed wa wb content garbage b o)
  unfolding server_consumed server_answer read_first_chunk IsServer
  server_consumed-IsServer (a1, some x) same c = tt
  server_consumed-IsServer (a1, none) same c =
      let packet = combined content garbage first_b in
      server_written-IsServer a1 (wb.read_within 8192 b).0 (wa.write_all packet a1)
        (lb.within-unread 8192 b) (lb.within-sent 8192 b) (la.write-unread packet a1)
        (λ e. la.write-sent packet a1 e ∙ ap (λ (t : List ℕ). t ++ packet) same) c

  -- In mode 1 an opened relay has taken a valid prefix from `b`, and has sent to `b` its own prefix
  -- and then, obfuscated, what one read of `a` of at most 8192 bytes and 200 ms gave, nothing if it
  -- failed or was late, and nothing else; these bytes are gone from `a`. In mode 2 the same holds with
  -- `a` and `b` exchanged.
  pub open_relay-modes :
      IsClient (open_relay wa wb content garbage 1 a b)
      × IsServer (open_relay wa wb content garbage 2 a b)
  unfolding open_relay open_server
  open_relay-modes = (
    open_client-IsClient,
    server_consumed-IsServer (consume wa a) (consume-sent wa la a) (consume-IsConsumed wa la a),
  )
