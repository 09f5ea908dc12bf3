-- ===== src/TcpClient/Run/Down.antt =====
-- No callback of the TCP client reports a connection.
use endpoint.Base.{ℕ, ◌≡◌, false, List, [], ◌∷◌, get_elem?, arith, Option-cases, inl, inr}
use endpoint.Asio.{Asio, ErrorCode}
use endpoint.Buffer.{Memory}
use endpoint.Client.{
  Op, connect_op, post_connect, receive_op, send_op, wait_connect_op, wait_sent_op, stop,
  is_established_or_connected, shutdown_and_close_socket,
}
use endpoint.Client.States.{
  IsDown, KeepsDown, connect_cbk-IsDown, wait_connect_cbk-IsDown, send_cbk-IsDown,
}
use endpoint.TcpClient.{
  TcpClient, connect, receive, receive_from, handle_recv_buffer_exception, set_local_port, start,
  send, send_data,
}
use endpoint.TcpClient.Callbacks.{tcp_class, handle, complete, receive_cbk, wait_until_sent}
use endpoint.TcpClient.Run.{
  Event, start_call, stop_call, send_call, set_established_call, set_connected_call, completion,
  step, run,
}

-- Only set_established and set_connected can report one.
abbrev pub SetsNoState : List Event → Type 0
SetsNoState [] = Unit {0}
SetsNoState (set_established_call on ∷ es) = ⊥
SetsNoState (set_connected_call on ∷ es) = ⊥
SetsNoState (e ∷ es) = SetsNoState es

pub connect-IsDown :
    {asio : Asio} (s : TcpClient asio) → IsDown s.client → IsDown (connect s).client
unfolding is_established_or_connected connect
connect-IsDown s h = ground arith

module _ {asio : Asio} (memory : Memory) where
  receive-state : (s : TcpClient asio) → (receive memory s).client.state ≡ s.client.state
  unfolding receive receive_from handle_recv_buffer_exception
  receive-state s = ground arith

  tcp_class-KeepsDown : KeepsDown (tcp_class {asio = asio} memory)
  unfolding is_established_or_connected tcp_class set_local_port
  tcp_class-KeepsDown = record {
    connect-IsDown = connect-IsDown;
    receive-IsDown = λ s h. ground (arith, receive-state s);
    set_local_port-IsDown = λ s h. ground arith;
  }

  handle-IsDown :
      (op : Op) (error : ErrorCode) (received : List ℕ) (s : TcpClient asio)
      → IsDown s.client
      → IsDown (handle memory op error received s).client
  unfolding handle tcp_class receive_cbk wait_until_sent is_established_or_connected
  handle-IsDown connect_op error received s h =
      connect_cbk-IsDown (tcp_class memory) tcp_class-KeepsDown error s h
  handle-IsDown (post_connect e) error received s h =
      connect_cbk-IsDown (tcp_class memory) tcp_class-KeepsDown e s h
  handle-IsDown (receive_op filled amount) error received s h = ground arith
  handle-IsDown (send_op message) error received s h =
      send_cbk-IsDown (tcp_class memory) tcp_class-KeepsDown error s h
  handle-IsDown (wait_connect_op ms) error received s h =
      wait_connect_cbk-IsDown (tcp_class memory) tcp_class-KeepsDown error s h
  handle-IsDown (wait_sent_op ms) error received s h = ground arith

  complete-IsDown :
      (i : ℕ) (error : ErrorCode) (received : List ℕ) (s : TcpClient asio)
      → IsDown s.client
      → IsDown (complete memory i error received s).client
  unfolding complete is_established_or_connected
  complete-IsDown i error received s h = elim (Option-cases (get_elem? s.pending i)) [
    | inl e ↦ ground arith
    | inr (op, e) ↦ rw (e, complete) (handle-IsDown op error received _ h)
  ]

  step-IsDown :
      (e : Event) (es : List Event) (s : TcpClient asio)
      → SetsNoState (e ∷ es)
      → IsDown s.client
      → IsDown (step memory e s).client × SetsNoState es
  unfolding step start send send_data stop shutdown_and_close_socket is_established_or_connected
  step-IsDown start_call es s n h = (connect-IsDown s h, n)
  step-IsDown stop_call es s n h = (ground arith, n)
  step-IsDown (send_call message) es s n h = (ground arith, n)
  step-IsDown (set_established_call on) es s n h = absurd n
  step-IsDown (set_connected_call on) es s n h = absurd n
  step-IsDown (completion i error received) es s n h = (complete-IsDown i error received s h, n)

  -- Whatever is called but set_established and set_connected, and however the operations end, a TCP
  -- client that is neither established nor connected stays so: no successful connect changes that.
  pub run-IsDown :
      (es : List Event) (s : TcpClient asio)
      → SetsNoState es
      → IsDown s.client
      → is_established_or_connected (run memory es s).client ≡ false
  unfolding run
  run-IsDown [] s n h = h
  run-IsDown (e ∷ es) s n h =
      let (down, rest) = step-IsDown e es s n h in run-IsDown es (step memory e s) rest down
