-- ===== src/TcpServer/Run/Keyed/Steps.antt =====
-- The functions of the TCP server and of its connections, and what their map of connections holds.
use endpoint.Base.{
  ℕ, ◌+◌, ◌≤◌, ◌≡◌, refl, true, false, [], ◌∷◌, ◌++◌, get_elem?, length, length-modify,
  length-append, arith, Option-cases, Bool-cases, inl, inr, Bool, if◌then◌else◌,
}
use endpoint.Asio.{Asio, endpoint_discrete}
use endpoint.Buffer.{Memory, make_room}
use endpoint.Buffer.Bounds.{Room-cases}
use endpoint.Connection
use endpoint.Connection.{Connection, drop_buffer, sizes}
use endpoint.TcpServer.{
  TcpServer, Op, accept_op, receive_op, start, stop, stop_all, receive, receive_on,
  handle_recv_buffer_exception, remove_connection, on_connection,
}
use endpoint.TcpServer.Stop.{entries-remove_first}
use endpoint.TcpServer.Run.Wired.{All-weaken, All-remove_first, stop_all-length}
use endpoint.TcpServer.Run.Keyed.{
  IsKeyed, RemoteAt, awaited, awaited-append, RemoteAt-append, RemoteAt-modify, keyed-remove_first,
}

module _ {asio : Asio} where
  -- A change of a connection that leaves it its remote endpoint.
  pub changed-IsKeyed :
      (f : Connection asio → Connection asio)
      → ((c : Connection asio) → (f c).remote ≡ c.remote)
      → (id : ℕ) (s : TcpServer asio) → IsKeyed asio s
      → IsKeyed asio (on_connection f id s)
  changed-IsKeyed f keeps id s h = record {
    remotes =
        All-weaken s.connections (λ entry r. RemoteAt-modify f keeps id s.heap entry.0 entry.1 r)
          h.remotes;
    alone = h.alone;
    once = h.once;
    fresh = λ j beyond. h.fresh j (omega (arith, length-modify f id s.heap, beyond));
  }

  -- One more operation that is no accept.
  pub enqueued-IsKeyed :
      (op : Op)
      → ((id : ℕ) → awaited id (op ∷ []) ≡ 0)
      → (s : TcpServer asio) → IsKeyed asio s
      → IsKeyed asio (record s { pending = s.pending ++ op ∷ [] })
  enqueued-IsKeyed op none s h = record {
    remotes = h.remotes;
    alone = h.alone;
    once = λ id. omega (arith, h.once id, awaited-append id s.pending (op ∷ []), none id);
    fresh = λ id beyond.
        omega (arith, h.fresh id beyond, awaited-append id s.pending (op ∷ []), none id);
  }

  pub start-IsKeyed : (s : TcpServer asio) → IsKeyed asio s → IsKeyed asio (start s)
  unfolding start
  start-IsKeyed s h = elim (Bool-cases (asio.is_open s.acceptor)) [
    | inr shut ↦ rw (start, shut) h
    | inl opened ↦
        let c = Connection.create s.acceptor 0xffffffff 1000 in
        let op = accept_op (length s.heap) in
        rw (start, opened)
          (record {
            remotes =
                All-weaken s.connections
                  (λ entry r. RemoteAt-append s.heap (c ∷ []) entry.0 entry.1 r) h.remotes;
            alone = h.alone;
            once =
                λ id. ground (arith, h.once id, h.fresh id, awaited-append id s.pending (op ∷ []));
            fresh = λ id beyond. ground (
              arith,
              h.fresh id,
              awaited-append id s.pending (op ∷ []),
              length-append s.heap (c ∷ []),
            );
          })
  ]

  pub stop-IsKeyed : (s : TcpServer asio) → IsKeyed asio s → IsKeyed asio (stop s)
  unfolding stop
  stop-IsKeyed s h = record {
    remotes = tt;
    alone = λ remote. omega arith;
    once = λ id. let few : 0 + awaited id s.pending ≤ 1 = omega (arith, h.once id) in few;
    fresh = λ id beyond.
        let past : length (stop_all s.connections s.heap) ≤ id = beyond in
        let none : 0 + awaited id s.pending ≡ 0 =
          omega (arith, h.fresh id (omega (arith, past, stop_all-length s.connections s.heap))) in
        none;
  }

  pub if-IsKeyed :
      (test : Bool) {s t : TcpServer asio}
      → IsKeyed asio s
      → IsKeyed asio t
      → IsKeyed asio (if test then s else t)
  if-IsKeyed true hs ht = hs
  if-IsKeyed false hs ht = ht

  pub remove_connection-IsKeyed :
      (id : ℕ) (s : TcpServer asio) → IsKeyed asio s → IsKeyed asio (remove_connection id s)
  unfolding remove_connection
  remove_connection-IsKeyed id s h = record {
    remotes =
        All-remove_first (λ entry. RemoteAt s.heap entry.0 entry.1) id s.connections h.remotes;
    alone = λ remote. omega (
      arith,
      h.alone remote,
      keyed-remove_first (endpoint_discrete asio) remote id s.connections,
    );
    once = λ j. ground (arith, h.once j, entries-remove_first id j s.connections);
    fresh = λ j beyond. ground (arith, h.fresh j beyond, entries-remove_first id j s.connections);
  }

  handle_recv_buffer_exception-IsKeyed :
      (id : ℕ) (s : TcpServer asio)
      → IsKeyed asio s
      → IsKeyed asio (handle_recv_buffer_exception id s)
  unfolding handle_recv_buffer_exception drop_buffer
  handle_recv_buffer_exception-IsKeyed id s h =
      let dropped = changed-IsKeyed drop_buffer (λ c. refl) id s h in
      if-IsKeyed s.alive (remove_connection-IsKeyed id (on_connection drop_buffer id s) dropped)
        dropped

  receive_on-IsKeyed :
      (memory : Memory) (id : ℕ) (c : Connection asio) (s : TcpServer asio)
      → IsKeyed asio s
      → IsKeyed asio (receive_on memory id c s)
  unfolding receive_on
  receive_on-IsKeyed memory id c s h = elim (Bool-cases (asio.is_open c.socket)) [
    | inr shut ↦ rw (receive_on, shut) h
    | inl opened ↦
        let room =
          make_room memory (sizes c) c.recv_buffer c.recv_buffer_size c.missing_capacity
            c.shrink_count in
        elim (Room-cases room) [
          | inl (v, amount, shrinks, r) ↦
              let prepared : Connection asio → Connection asio =
                λ d. record d { recv_buffer = v; shrink_count = shrinks; missing_capacity = 0 } in
              rw (receive_on, opened, r)
                (enqueued-IsKeyed (receive_op id c.recv_buffer_size amount) (λ j. refl)
                  (on_connection prepared id s) (changed-IsKeyed prepared (λ d. refl) id s h))
          | inr (inl r) ↦ rw (receive_on, opened, r) h
          | inr (inr (v, r)) ↦
              rw (receive_on, opened, r)
                (handle_recv_buffer_exception-IsKeyed id _
                  (changed-IsKeyed (λ d. record d { recv_buffer = v }) (λ d. refl) id s h))
        ]
  ]

  pub receive-IsKeyed :
      (memory : Memory) (id : ℕ) (s : TcpServer asio)
      → IsKeyed asio s
      → IsKeyed asio (receive memory id s)
  unfolding receive
  receive-IsKeyed memory id s h = elim (Option-cases (get_elem? s.heap id)) [
    | inl e ↦ rw (receive, e) h
    | inr (c, e) ↦ rw (receive, e) (receive_on-IsKeyed memory id c s h)
  ]
