-- ===== src/UdpServer/Laws.antt =====
-- How the UDP server comes to receive, and goes on.
use endpoint.Base.{
  ℕ, zero, suc, ◌+◌, ◌≡◌, true, some, List, [], ◌∷◌, ◌++◌, if◌then◌else◌, get_elem?, erase_idx,
  arith,
}
use endpoint.Asio.{
  Asio, Endpoint, ErrorCode, is_error, is_operation_aborted, Outcome, made, threw, reuse_address,
  broadcast, outbound_interface, receive_buffer_size,
}
use endpoint.EndpointImpl.{EndpointImpl}
use endpoint.UdpServer.{
  set_interface, UdpServer, Op, receive_op, send_op, udp_server, receive_unicast,
  on_unicast_received, handle, complete, udp_recv_buffer_size,
}

-- A constructor that returns has an open socket and nothing under way.
abbrev pub IsReady : {asio : Asio} → Outcome (UdpServer asio) → Type 0
IsReady {asio} (made s) = (asio.is_open s.unicast_socket ≡ true) × (s.pending ≡ [])
IsReady (threw e) = is_error e ≡ true

abbrev pub unicast_receives : {Address : Type 0} → List (Op Address) → ℕ
unicast_receives [] = 0
unicast_receives (receive_op amount ∷ ops) = suc (unicast_receives ops)
unicast_receives (send_op message remote ∷ ops) = unicast_receives ops

pub unicast_receives-append :
    {Address : Type 0} (ops more : List (Op Address))
    → unicast_receives (ops ++ more) ≡ unicast_receives ops + unicast_receives more
unicast_receives-append [] more = omega arith
unicast_receives-append (receive_op amount ∷ ops) more =
    omega (arith, unicast_receives-append ops more)
unicast_receives-append (send_op message remote ∷ ops) more = unicast_receives-append ops more

pub unicast_receives-erase_idx :
    {Address : Type 0} (ops : List (Op Address)) (i amount : ℕ)
    → get_elem? ops i ≡ some (receive_op amount)
    → suc (unicast_receives (erase_idx ops i)) ≡ unicast_receives ops
unicast_receives-erase_idx [] i amount e = absurd (ground arith)
unicast_receives-erase_idx (op ∷ ops) zero amount e = ground arith
unicast_receives-erase_idx (receive_op a ∷ ops) (suc i) amount e =
    omega (arith, unicast_receives-erase_idx ops i amount e)
unicast_receives-erase_idx (send_op message remote ∷ ops) (suc i) amount e =
    unicast_receives-erase_idx ops i amount e

module _ {asio : Asio} where
  -- The constructor throws the first error of the socket's opening, of its options but the last, and of
  -- bind; where it returns, the socket is open and nothing is under way.
  pub udp_server-IsReady :
      (impl : EndpointImpl asio) (socket : asio.Socket) (local : Endpoint asio.Address)
      → IsReady (udp_server impl socket local)
  unfolding udp_server set_interface
  udp_server-IsReady impl socket local =
      let k0 = asio.new_socket socket in
      let k1 = (asio.open_socket k0).1 in
      let k2 = (asio.set_option reuse_address k1).1 in
      let k3 = (asio.bind local k2).1 in
      let k4 = (asio.set_option outbound_interface k3).1 in
      let k5 = (asio.set_option broadcast k3).1 in
      let k6 = (asio.set_option broadcast k4).1 in
      ground (
        arith,
        asio.open_success k0,
        asio.set_option_keeps reuse_address k1,
        asio.bind_keeps local k2,
        asio.set_option_keeps outbound_interface k3,
        asio.set_option_keeps broadcast k3,
        asio.set_option_keeps broadcast k4,
        asio.set_option_keeps (receive_buffer_size udp_recv_buffer_size) k5,
        asio.set_option_keeps (receive_buffer_size udp_recv_buffer_size) k6,
      )

  -- While the socket is open, the end of a receive with any outcome but operation_aborted starts the
  -- next one, so that as many unicast_receives are under way as before; with operation_aborted one fewer is.
  pub complete-unicast_receives :
      (i amount : ℕ) (error : ErrorCode) (sender : Endpoint asio.Address) (s : UdpServer asio)
      → get_elem? s.pending i ≡ some (receive_op amount)
      → asio.is_open s.unicast_socket ≡ true
      → let s' = complete i error sender s in
        (if is_operation_aborted error
          then suc (unicast_receives s'.pending)
          else unicast_receives s'.pending)
        ≡ unicast_receives s.pending
  unfolding complete handle on_unicast_received receive_unicast
  complete-unicast_receives i amount error sender s e opened = ground (
    arith,
    unicast_receives-erase_idx s.pending i amount e,
    unicast_receives-append (erase_idx s.pending i) (receive_op 0xffffffff ∷ []),
  )
