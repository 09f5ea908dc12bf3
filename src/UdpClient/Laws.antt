-- ===== src/UdpClient/Laws.antt =====
-- What the UDP client keeps up: the states of the base class, and its chain of receives.
use endpoint.Base.{
  ℕ, zero, suc, ◌+◌, ◌≡◌, true, not, ◌||◌, some, List, [], ◌∷◌, ◌++◌, if◌then◌else◌, get_elem?,
  erase_idx, arith,
}
use endpoint.Asio.{Asio, Endpoint, ErrorCode, is_operation_aborted, is_connection_refused}
use endpoint.Client.{
  Op, connect_op, post_connect, receive_op, send_op, wait_connect_op, wait_sent_op,
  is_established_or_connected, shutdown_and_close_socket,
}
use endpoint.Client.States.{
  IsDown, KeepsDown, connect_cbk-IsDown, wait_connect_cbk-IsDown, send_cbk-IsDown,
}
use endpoint.UdpClient.{
  UdpClient, connect, receive, set_local_port, receive_cbk, udp_class, handle, complete, put_sender,
}

-- The receives among the operations that are under way.
abbrev receives : List Op → ℕ
receives [] = 0
receives (receive_op filled amount ∷ ops) = suc (receives ops)
receives (op ∷ ops) = receives ops

receives-append : (ops more : List Op) → receives (ops ++ more) ≡ receives ops + receives more
receives-append [] more = omega arith
receives-append (receive_op filled amount ∷ ops) more = omega (arith, receives-append ops more)
receives-append (_ ∷ ops) more = receives-append ops more

receives-erase_idx :
    (ops : List Op) (i filled amount : ℕ)
    → get_elem? ops i ≡ some (receive_op filled amount)
    → suc (receives (erase_idx ops i)) ≡ receives ops
receives-erase_idx [] i filled amount e = absurd (ground arith)
receives-erase_idx (op ∷ ops) zero filled amount e = ground arith
receives-erase_idx (receive_op f a ∷ ops) (suc i) filled amount e =
    omega (arith, receives-erase_idx ops i filled amount e)
receives-erase_idx (_ ∷ ops) (suc i) filled amount e = receives-erase_idx ops i filled amount e

module _ {asio : Asio} where
  udp_class-KeepsDown : KeepsDown (udp_class {asio = asio})
  unfolding is_established_or_connected udp_class set_local_port connect receive
  udp_class-KeepsDown = record {
    connect-IsDown = λ s h. ground arith;
    receive-IsDown = λ s h. ground arith;
    set_local_port-IsDown = λ s h. ground arith;
  }

  receive_cbk-IsDown :
      (error : ErrorCode) (s : UdpClient asio)
      → IsDown s.client
      → IsDown (receive_cbk error s).client
  unfolding receive_cbk receive is_established_or_connected shutdown_and_close_socket
  receive_cbk-IsDown error s h = ground arith

  -- No end of an operation makes a UDP client established or connected that was neither.
  pub handle-IsDown :
      (op : Op) (error : ErrorCode) (sender : Endpoint asio.Address) (s : UdpClient asio)
      → IsDown s.client
      → IsDown (handle op error sender s).client
  unfolding handle udp_class is_established_or_connected
  handle-IsDown connect_op error sender s h =
      connect_cbk-IsDown udp_class udp_class-KeepsDown error s h
  handle-IsDown (post_connect e) error sender s h =
      connect_cbk-IsDown udp_class udp_class-KeepsDown e s h
  handle-IsDown (receive_op filled amount) error sender s h =
      receive_cbk-IsDown error (put_sender error sender s) (ground arith)
  handle-IsDown (send_op message) error sender s h =
      send_cbk-IsDown udp_class udp_class-KeepsDown error s h
  handle-IsDown (wait_connect_op ms) error sender s h =
      wait_connect_cbk-IsDown udp_class udp_class-KeepsDown error s h
  handle-IsDown (wait_sent_op ms) error sender s h = h

  -- Where the socket is open, the end of a receive starts the next one, so that as many receives are
  -- under way as before; but operation_aborted ends the chain, and connection_refused closes the
  -- socket as well. In those two cases one receive fewer is under way.
  complete-receives :
      (i filled amount : ℕ) (error : ErrorCode) (sender : Endpoint asio.Address)
      (s : UdpClient asio)
      → get_elem? s.pending i ≡ some (receive_op filled amount)
      → asio.is_open s.socket ≡ true
      → let over = is_operation_aborted error || is_connection_refused error in
        let s' = complete i error sender s in
        ((if over then suc (receives s'.pending) else receives s'.pending) ≡ receives s.pending)
        × (asio.is_open s'.socket ≡ not (is_connection_refused error))
  unfolding complete handle receive_cbk receive shutdown_and_close_socket
  complete-receives i filled amount error sender s e opened = ground (
    arith,
    receives-erase_idx s.pending i filled amount e,
    receives-append (erase_idx s.pending i) (receive_op 0 1000 ∷ []),
    asio.close_closes (asio.shutdown s.socket).1,
  )
