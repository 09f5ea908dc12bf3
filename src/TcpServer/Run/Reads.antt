-- ===== src/TcpServer/Run/Reads.antt =====
-- What the connections read.
use endpoint.Base.{
  ℕ, ◌≡◌, refl, ◌∙◌, not, List, [], ◌∷◌, get_elem?, All, All-append, All-get_elem?, All-modify,
  take, length-write_at, Bool-cases, Option-cases, inl, inr, arith,
}
use endpoint.Asio.{
  success, bad_descriptor, operation_aborted, no_descriptors, Asio, Endpoint, ErrorCode, is_error,
  no_delay, keep_alive,
}
use endpoint.Buffer.{Memory, ready, make_room, size, put}
use endpoint.Connection
use endpoint.Connection.{Connection, create, connection, sizes, set_remote_info}
use endpoint.TcpServer.{
  TcpServer, Op, receive_op, on_connection, start, stop_all, receive, receive_on,
  stop_and_remove_connection, remove_connection,
}
use endpoint.TcpServer.Callbacks.{accept_cbk, accepted, accepted_at, put_accepted, put_received}

-- A connection that has grown nothing and holds nothing: its buffer is as long as it was made.
abbrev pub HasFour : {asio : Asio} → Connection asio → Type 0
HasFour c =
    (size c.recv_buffer ≡ 4)
    × (c.recv_buffer.capacity ≡ 4)
    × (c.recv_buffer_size ≡ 0)
    × (c.missing_capacity ≡ 0)
    × (c.shrink_count ≡ 0)

-- Every read that is under way is one of four bytes, to the start of the buffer.
abbrev pub ReadsFour : Op → Type 0
ReadsFour (receive_op id filled amount) = (filled ≡ 0) × (amount ≡ 4)
ReadsFour op = Unit {0}

pub record ReadsStart (asio : Asio) (s : TcpServer asio) : Type 0 where
  pub buffers : All HasFour s.heap
  pub reads : All ReadsFour s.pending

module _ {asio : Asio} where
  changed-ReadsStart :
      (f : Connection asio → Connection asio) (id : ℕ) (s : TcpServer asio)
      → ((c : Connection asio) → HasFour c → HasFour (f c))
      → ReadsStart asio s
      → ReadsStart asio (on_connection f id s)
  changed-ReadsStart f id s keeps h = record {
    buffers = All-modify HasFour f id s.heap keeps h.buffers;
    reads = h.reads;
  }

  pub start-ReadsStart : (s : TcpServer asio) → ReadsStart asio s → ReadsStart asio (start s)
  unfolding start create connection
  start-ReadsStart s h = elim (Bool-cases (asio.is_open s.acceptor)) [
    | inr shut ↦ rw (start, shut) h
    | inl opened ↦
        rw (start, opened)
          (record {
            buffers = All-append HasFour s.heap _ h.buffers ((refl, refl, refl, refl, refl), tt);
            reads = All-append ReadsFour s.pending _ h.reads (tt, tt);
          })
  ]

  pub stop_all-HasFour :
      (m : List (Endpoint asio.Address × ℕ)) (heap : List (Connection asio))
      → All HasFour heap
      → All HasFour (stop_all m heap)
  unfolding stop_all Connection.stop
  stop_all-HasFour [] heap h = h
  stop_all-HasFour ((remote, id) ∷ m) heap h =
      stop_all-HasFour m _ (All-modify HasFour Connection.stop id heap (λ c k. k) h)

  pub stop_and_remove-ReadsStart :
      (id : ℕ) (s : TcpServer asio)
      → ReadsStart asio s
      → ReadsStart asio (stop_and_remove_connection id s)
  unfolding stop_and_remove_connection remove_connection Connection.stop
  stop_and_remove-ReadsStart id s h = elim (Bool-cases s.alive) [
    | inr gone ↦
        rw (stop_and_remove_connection, gone) (record { buffers = h.buffers; reads = h.reads })
    | inl here ↦
        let changed = changed-ReadsStart Connection.stop id s (λ c k. k) h in
        rw (stop_and_remove_connection, here)
          (record { buffers = changed.buffers; reads = changed.reads })
  ]

  pub room-ready :
      (memory : Memory) (c : Connection asio)
      → HasFour c
      → make_room memory
          (sizes c)
          c.recv_buffer
          c.recv_buffer_size
          c.missing_capacity
          c.shrink_count
        ≡ ready c.recv_buffer 4 0
  unfolding make_room
  room-ready memory c h = ground arith

  receive_on-ReadsStart :
      (memory : Memory) (id : ℕ) (c : Connection asio) (s : TcpServer asio)
      → HasFour c
      → ReadsStart asio s
      → ReadsStart asio (receive_on memory id c s)
  unfolding receive_on
  receive_on-ReadsStart memory id c s four h = elim (Bool-cases (asio.is_open c.socket)) [
    | inr shut ↦ rw (receive_on, shut) h
    | inl opened ↦
        let prepared : Connection asio → Connection asio =
          λ d. record d { recv_buffer = c.recv_buffer; shrink_count = 0; missing_capacity = 0 } in
        let changed =
          changed-ReadsStart prepared id s (λ d k. (four.0, four.1, k.2, refl, refl)) h in
        rw (receive_on, opened, room-ready memory c four)
          (record {
            buffers = changed.buffers;
            reads = All-append ReadsFour s.pending _ h.reads ((four.2, refl), tt);
          })
  ]

  receive-ReadsStart :
      (memory : Memory) (id : ℕ) (s : TcpServer asio)
      → ReadsStart asio s
      → ReadsStart asio (receive memory id s)
  unfolding receive
  receive-ReadsStart memory id s h = elim (Option-cases (get_elem? s.heap id)) [
    | inl e ↦ rw (receive, e) h
    | inr (c, e) ↦
        rw (receive, e)
          (receive_on-ReadsStart memory id c s (All-get_elem? HasFour s.heap id h.buffers e) h)
  ]

  accepted-ReadsStart :
      (memory : Memory) (id : ℕ) (c : Connection asio) (s : TcpServer asio)
      → ReadsStart asio s
      → ReadsStart asio (accepted memory id c s)
  unfolding accepted set_remote_info
  accepted-ReadsStart memory id c s h =
      let k1 = (asio.set_option no_delay c.socket).1 in
      let (error, k2) = asio.set_option keep_alive k1 in
      let remote = (asio.remote_endpoint c.socket).1 in
      let informed : Connection asio → Connection asio =
        λ d. record (set_remote_info remote d) { socket = k2 } in
      let changed = changed-ReadsStart informed id s (λ d k. k) h in
      elim (Bool-cases (not (is_error error))) [
        | inl fine ↦
            rw (accepted, fine)
              (receive-ReadsStart memory id _
                (record { buffers = changed.buffers; reads = changed.reads }))
        | inr failed ↦ rw (accepted, failed) changed
      ]

  accepted_at-ReadsStart :
      (memory : Memory) (id : ℕ) (s : TcpServer asio)
      → ReadsStart asio s
      → ReadsStart asio (accepted_at memory id s)
  accepted_at-ReadsStart memory id s h = elim (Option-cases (get_elem? s.heap id)) [
    | inl e ↦ rw (accepted_at, e) h
    | inr (c, e) ↦ rw (accepted_at, e) (accepted-ReadsStart memory id c s h)
  ]

  pub accept_cbk-ReadsStart :
      (memory : Memory) (id : ℕ) (error : ErrorCode) (s : TcpServer asio)
      → ReadsStart asio s
      → ReadsStart asio (accept_cbk memory id error s)
  unfolding accept_cbk
  accept_cbk-ReadsStart memory id success s h =
      start-ReadsStart _ (accepted_at-ReadsStart memory id s h)
  accept_cbk-ReadsStart memory id bad_descriptor s h = h
  accept_cbk-ReadsStart memory id operation_aborted s h = h
  accept_cbk-ReadsStart memory id no_descriptors s h = record {
    buffers = h.buffers;
    reads = All-append ReadsFour s.pending _ h.reads (tt, tt);
  }
  accept_cbk-ReadsStart memory id _ s h = start-ReadsStart s h

  pub put_received-ReadsStart :
      (id filled amount : ℕ) (received : List ℕ) (s : TcpServer asio)
      → ReadsStart asio s
      → ReadsStart asio (put_received id filled amount received s)
  put_received-ReadsStart id filled amount received s h =
      changed-ReadsStart (λ c. record c { recv_buffer = put filled amount received c.recv_buffer })
        id s
        (λ c k. (
          length-write_at filled (take amount received) c.recv_buffer.bytes ∙ k.0,
          k.1,
          k.2,
          k.3,
          k.4,
        ))
        h

  pub put_accepted-ReadsStart :
      (id : ℕ) (error : ErrorCode) (s : TcpServer asio)
      → ReadsStart asio s
      → ReadsStart asio (put_accepted id error s)
  put_accepted-ReadsStart id error s h = elim (Bool-cases (is_error error)) [
    | inl failed ↦ rw (put_accepted, failed) h
    | inr fine ↦
        rw (put_accepted, fine)
          (changed-ReadsStart (λ c. record c { socket = asio.accept s.acceptor }) id s (λ c k. k) h)
  ]
