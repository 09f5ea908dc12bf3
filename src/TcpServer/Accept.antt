-- ===== src/TcpServer/Accept.antt =====
-- How the TCP server comes to listen, and goes on accepting.
use endpoint.Base.{
  ℕ, suc, ◌+◌, ◌≡◌, refl, true, not, ◌||◌, List, [], ◌∷◌, ◌++◌, if◌then◌else◌, get_elem?, arith,
  Option-cases, Bool-cases, inl, inr,
}
use endpoint.Asio.{
  Asio, Endpoint, ErrorCode, is_error, is_operation_aborted, is_bad_descriptor, Outcome, made,
  threw, keep_alive, no_delay, reuse_address,
}
use endpoint.EndpointImpl.{EndpointImpl}
use endpoint.Buffer.{Memory}
use endpoint.Connection.{Connection}
use endpoint.TcpServer.{
  TcpServer, Op, accept_op, retry_op, tcp_server, start, receive, receive_on,
  handle_recv_buffer_exception, remove_connection,
}
use endpoint.TcpServer.Callbacks.{accepted, accepted_at, accept_cbk}

-- A constructor that returns has an open acceptor, with nothing under way.
abbrev pub IsListening : {asio : Asio} → Outcome (TcpServer asio) → Type 0
IsListening {asio} (made s) =
    (asio.is_open s.acceptor ≡ true) × (s.connections ≡ []) × (s.pending ≡ []) × (s.heap ≡ [])
IsListening (threw e) = is_error e ≡ true

-- The accepts among the operations that are under way, the waits for another try included.
abbrev pub accepts : List Op → ℕ
accepts [] = 0
accepts (accept_op id ∷ ops) = suc (accepts ops)
accepts (retry_op ms ∷ ops) = suc (accepts ops)
accepts (op ∷ ops) = accepts ops

pub accepts-append : (ops more : List Op) → accepts (ops ++ more) ≡ accepts ops + accepts more
accepts-append [] more = omega arith
accepts-append (accept_op id ∷ ops) more = omega (arith, accepts-append ops more)
accepts-append (retry_op ms ∷ ops) more = omega (arith, accepts-append ops more)
accepts-append (_ ∷ ops) more = accepts-append ops more

module _ {asio : Asio} where
  -- The constructor throws the first error of open, set_option, bind and listen; where it returns, the
  -- acceptor is open, no connection is there, none was made, and nothing is under way.
  pub tcp_server-IsListening :
      (impl : EndpointImpl asio) (socket : asio.Socket) (local : Endpoint asio.Address)
      → IsListening (tcp_server impl socket local)
  unfolding tcp_server
  tcp_server-IsListening impl socket local =
      let k0 = asio.new_socket socket in
      let k1 = (asio.open_socket k0).1 in
      let k2 = (asio.set_option reuse_address k1).1 in
      let k3 = (asio.bind local k2).1 in
      ground (
        arith,
        asio.open_success k0,
        asio.set_option_keeps reuse_address k1,
        asio.bind_keeps local k2,
        asio.listen_keeps k3,
      )

  receive_on-keeps :
      (memory : Memory) (id : ℕ) (c : Connection asio) (s : TcpServer asio)
      → ((receive_on memory id c s).acceptor ≡ s.acceptor)
        × (accepts (receive_on memory id c s).pending ≡ accepts s.pending)
  unfolding receive_on handle_recv_buffer_exception remove_connection
  receive_on-keeps memory id c s = grind (arith, accepts-append)

  receive-keeps :
      (memory : Memory) (id : ℕ) (s : TcpServer asio)
      → ((receive memory id s).acceptor ≡ s.acceptor)
        × (accepts (receive memory id s).pending ≡ accepts s.pending)
  unfolding receive
  receive-keeps memory id s = elim (Option-cases (get_elem? s.heap id)) [
    | inl e ↦ ground arith
    | inr (c, e) ↦ ground (arith, receive_on-keeps memory id c s)
  ]

  accepted_on-keeps :
      (memory : Memory) (id : ℕ) (c : Connection asio) (s : TcpServer asio)
      → ((accepted memory id c s).acceptor ≡ s.acceptor)
        × (accepts (accepted memory id c s).pending ≡ accepts s.pending)
  unfolding accepted
  accepted_on-keeps memory id c s =
      let k = (asio.set_option no_delay c.socket).1 in
      elim (Bool-cases (not (is_error (asio.set_option keep_alive k).0))) [
        | inl fine ↦ rw (accepted, fine) (receive-keeps memory id _)
        | inr failed ↦ rw (accepted, failed) (refl, refl)
      ]

  accepted-keeps :
      (memory : Memory) (id : ℕ) (s : TcpServer asio)
      → ((accepted_at memory id s).acceptor ≡ s.acceptor)
        × (accepts (accepted_at memory id s).pending ≡ accepts s.pending)
  accepted-keeps memory id s = elim (Option-cases (get_elem? s.heap id)) [
    | inl e ↦ ground arith
    | inr (c, e) ↦ ground (arith, accepted_on-keeps memory id c s)
  ]

  -- While the acceptor is open, the end of an accept leads to the next one, at once or after the wait
  -- that no_descriptors asks for, whatever became of the connection; only bad_descriptor and
  -- operation_aborted end the accepting.
  pub accept_cbk-accepts :
      (memory : Memory) (id : ℕ) (error : ErrorCode) (s : TcpServer asio)
      → asio.is_open s.acceptor ≡ true
      → accepts (accept_cbk memory id error s).pending ≡ (
          if is_bad_descriptor error || is_operation_aborted error
          then accepts s.pending
          else suc (accepts s.pending))
  unfolding accept_cbk start
  accept_cbk-accepts memory id error s opened =
      grind (arith, accepted-keeps memory id s, accepts-append)

  pub accept_cbk-acceptor :
      (memory : Memory) (id : ℕ) (error : ErrorCode) (s : TcpServer asio)
      → (accept_cbk memory id error s).acceptor ≡ s.acceptor
  unfolding accept_cbk start
  accept_cbk-acceptor memory id error s = ground (arith, accepted-keeps memory id s)
