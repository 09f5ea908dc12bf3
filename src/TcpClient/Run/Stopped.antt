-- ===== src/TcpClient/Run/Stopped.antt =====
-- What stop, a completed read and a message that was sent leave behind in the TCP client.
use endpoint.Base.{
  ℕ, ◌≡◌, false, ◌||◌, List, [], ◌∷◌, get_elem?, arith, Option-cases, Bool-cases, inl, inr,
}
use endpoint.Asio.{Asio, ErrorCode, operation_aborted, is_operation_aborted}
use endpoint.Buffer.{Memory}
use endpoint.Client.{
  Client, Op, connect_op, post_connect, receive_op, send_op, wait_connect_op, wait_sent_op,
  shutdown_and_close_socket,
}
use endpoint.Client.States.{stop-is_open}
use endpoint.Client.Callbacks as Base
use endpoint.TcpClient.{TcpClient, receive, receive_from, set_local_port}
use endpoint.TcpClient.Callbacks.{tcp_class, handle, complete, receive_cbk, wait_until_sent}
use endpoint.TcpClient.Run.{Event, stop_call, completion, step, run}

-- All that happens is that operations end with operation_aborted.
abbrev pub AllAborted : List Event → Type 0
AllAborted [] = Unit {0}
AllAborted (completion i operation_aborted received ∷ es) = AllAborted es
AllAborted (e ∷ es) = ⊥

module _ {asio : Asio} (memory : Memory) where
  abbrev IsShut : TcpClient asio → Type 0
  IsShut s = asio.is_open s.socket ≡ false

  receive-IsShut : (s : TcpClient asio) → IsShut s → IsShut (receive memory s)
  unfolding receive receive_from
  receive-IsShut s h = ground arith

  shutdown_and_close-IsShut :
      (c : Client asio)
      → asio.is_open c.socket ≡ false
      → asio.is_open (shutdown_and_close_socket false c).socket ≡ false
  unfolding shutdown_and_close_socket
  shutdown_and_close-IsShut c h = ground arith

  connect_cbk-IsShut :
      (error : ErrorCode) (s : TcpClient asio)
      → IsShut s
      → IsShut (Base.connect_cbk (tcp_class memory) error s)
  unfolding Base.connect_cbk tcp_class set_local_port
  connect_cbk-IsShut error s h =
      elim (Bool-cases (is_operation_aborted error || s.sending_blocked)) [
        | inl stopped ↦ rw (Base.connect_cbk, stopped) (shutdown_and_close-IsShut s.client h)
        | inr goes_on ↦ rw (Base.connect_cbk, goes_on) (receive-IsShut _ (ground arith))
      ]

  handle-IsShut :
      (op : Op) (received : List ℕ) (s : TcpClient asio)
      → IsShut s
      → IsShut (handle memory op operation_aborted received s)
  unfolding handle receive_cbk wait_until_sent Base.wait_connect_cbk Base.send_cbk tcp_class
  handle-IsShut connect_op received s h = connect_cbk-IsShut operation_aborted s h
  handle-IsShut (post_connect e) received s h = connect_cbk-IsShut e s h
  handle-IsShut (receive_op filled amount) received s h = ground arith
  handle-IsShut (send_op message) received s h = shutdown_and_close-IsShut _ h
  handle-IsShut (wait_connect_op ms) received s h = h
  handle-IsShut (wait_sent_op ms) received s h = ground arith

  complete-IsShut :
      (i : ℕ) (received : List ℕ) (s : TcpClient asio)
      → IsShut s
      → IsShut (complete memory i operation_aborted received s)
  unfolding complete
  complete-IsShut i received s h = elim (Option-cases (get_elem? s.pending i)) [
    | inl e ↦ rw (e, complete) h
    | inr (op, e) ↦ rw (e, complete) (handle-IsShut op received _ h)
  ]

  run-IsShut :
      (es : List Event) (s : TcpClient asio) → AllAborted es → IsShut s → IsShut (run memory es s)
  unfolding run step
  run-IsShut [] s a h = h
  run-IsShut (completion i operation_aborted received ∷ es) s a h =
      run-IsShut es _ a (complete-IsShut i received s h)
  run-IsShut (_ ∷ es) s a h = absurd a

  -- After stop the socket is closed, and it stays so while the operations that were under way end
  -- with operation_aborted, in whatever order and number.
  pub run-stop :
      (es : List Event) (s : TcpClient asio)
      → AllAborted es
      → asio.is_open (run memory (stop_call ∷ es) s).socket ≡ false
  unfolding run step
  run-stop es s a = run-IsShut es _ a (stop-is_open s.client)
