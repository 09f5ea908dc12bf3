-- ===== src/TcpClient/Run/Sending.antt =====
-- The flag is_sending_ of the TCP client, and what its send callback was meant to do.
use endpoint.Base.{
  ℕ, ◌≡◌, refl, true, false, ◌||◌, List, [], ◌∷◌, get_elem?, arith, Option-cases, Bool-cases, inl,
  inr, ◌∙◌,
}
use endpoint.Asio.{
  Asio, ErrorCode, success, broken_pipe, not_connected, bad_descriptor, no_permission,
  operation_aborted, destination_address_required, is_operation_aborted,
}
use endpoint.Buffer.{Memory}
use endpoint.Client.{
  connecting, Op, connect_op, post_connect, receive_op, send_op, wait_connect_op, wait_sent_op,
  shutdown_and_close_socket, is_connecting_state,
}
use endpoint.Client.Callbacks as Base
use endpoint.TcpClient.{
  TcpClient, on_client, receive, receive_from, handle_recv_buffer_exception, set_local_port, start,
  send, send_data,
}
use endpoint.TcpClient.Connect.{connect-keeps}
use endpoint.TcpClient.Callbacks.{
  put_received, tcp_class, handle, complete, receive_cbk, wait_until_sent, send_cbk,
}
use endpoint.TcpClient.Run.{
  Event, start_call, stop_call, send_call, set_established_call, set_connected_call, completion,
  step, run,
}

-- Nothing is called; operations end.
abbrev pub AllCompletions : List Event → Type 0
AllCompletions [] = Unit {0}
AllCompletions (completion i error received ∷ es) = AllCompletions es
AllCompletions (e ∷ es) = ⊥

module _ {asio : Asio} (memory : Memory) where
  abbrev IsSending : TcpClient asio → Type 0
  IsSending s = s.is_sending ≡ true

  receive-IsSending : (s : TcpClient asio) → (receive memory s).is_sending ≡ s.is_sending
  unfolding receive receive_from handle_recv_buffer_exception
  receive-IsSending s = ground arith

  connect_cbk-IsSending :
      (error : ErrorCode) (s : TcpClient asio)
      → IsSending s
      → IsSending (Base.connect_cbk (tcp_class memory) error s)
  unfolding Base.connect_cbk tcp_class set_local_port
  connect_cbk-IsSending error s h =
      elim (Bool-cases (is_operation_aborted error || s.sending_blocked)) [
        | inl stopped ↦ rw (Base.connect_cbk, stopped) h
        | inr goes_on ↦ rw (Base.connect_cbk, goes_on) (rw (receive-IsSending) (ground arith))
      ]

  send_cbk-IsSending :
      (error : ErrorCode) (s : TcpClient asio)
      → IsSending s
      → IsSending (Base.send_cbk (tcp_class memory) error s)
  unfolding Base.send_cbk tcp_class
  send_cbk-IsSending broken_pipe s h = (connect-keeps _).2 ∙ h
  send_cbk-IsSending not_connected s h = (connect-keeps _).2 ∙ h
  send_cbk-IsSending bad_descriptor s h = (connect-keeps _).2 ∙ h
  send_cbk-IsSending no_permission s h = (connect-keeps _).2 ∙ h
  send_cbk-IsSending operation_aborted s h = h
  send_cbk-IsSending destination_address_required s h = h
  send_cbk-IsSending _ s h = h

  handle-IsSending :
      (op : Op) (error : ErrorCode) (received : List ℕ) (s : TcpClient asio)
      → IsSending s
      → IsSending (handle memory op error received s)
  unfolding handle receive_cbk wait_until_sent Base.wait_connect_cbk tcp_class
  handle-IsSending connect_op error received s h = connect_cbk-IsSending error s h
  handle-IsSending (post_connect e) error received s h = connect_cbk-IsSending e s h
  handle-IsSending (receive_op filled amount) error received s h = ground arith
  handle-IsSending (send_op message) error received s h = send_cbk-IsSending error s h
  handle-IsSending (wait_connect_op ms) error received s h = ground (arith, connect-keeps s)
  handle-IsSending (wait_sent_op ms) error received s h = ground arith

  step-IsSending : (e : Event) (s : TcpClient asio) → IsSending s → IsSending (step memory e s)
  unfolding step start send send_data complete
  step-IsSending start_call s h = (connect-keeps s).2 ∙ h
  step-IsSending stop_call s h = h
  step-IsSending (send_call message) s h = ground arith
  step-IsSending (set_established_call on) s h = h
  step-IsSending (set_connected_call on) s h = h
  step-IsSending (completion i error received) s h = elim (Option-cases (get_elem? s.pending i)) [
    | inl e ↦ rw (e, complete) h
    | inr (op, e) ↦ rw (e, complete) (handle-IsSending op error received _ h)
  ]

  run-IsSending : (es : List Event) (s : TcpClient asio) → IsSending s → IsSending (run memory es s)
  unfolding run
  run-IsSending [] s h = h
  run-IsSending (e ∷ es) s h = run-IsSending es (step memory e s) (step-IsSending e s h)

  -- Once a message has been handed to an open socket, is_sending_ stays set for good, also when every
  -- write has ended: send_data binds the base class's send_cbk, which does not clear it.
  pub run-send :
      (es : List Event) (message : List ℕ) (s : TcpClient asio)
      → asio.is_open s.socket ≡ true
      → (run memory (send_call message ∷ es) s).is_sending ≡ true
  unfolding run step send send_data
  run-send es message s h = run-IsSending es _ (ground arith)

  complete-receive_op :
      (filled amount : ℕ) (received : List ℕ) (error : ErrorCode) (s : TcpClient asio)
      → s.pending ≡ receive_op filled amount ∷ []
      → complete memory 0 error received s
        ≡ put_received filled amount received (on_client (λ c. record c { pending = [] }) s)
  unfolding complete handle receive_cbk
  complete-receive_op filled amount received error s e = ground arith

  run-idle :
      (es : List Event) (s : TcpClient asio)
      → AllCompletions es
      → s.pending ≡ []
      → run memory es s ≡ s
  unfolding run step complete
  run-idle [] s a e = refl
  run-idle (completion i error received ∷ es) s a e =
      let same : complete memory i error received s ≡ s = ground arith in
      rw same (run-idle es s a e)
  run-idle (_ ∷ es) s a e = absurd a

  -- A read that ends, with whatever outcome, changes the buffer and starts no other: where it was the
  -- only operation under way, no later completion changes the client, so nothing more is received on
  -- the connection.
  pub run-receive_op :
      (es : List Event) (filled amount : ℕ) (received : List ℕ) (error : ErrorCode)
      (s : TcpClient asio)
      → AllCompletions es
      → s.pending ≡ receive_op filled amount ∷ []
      → run memory (completion 0 error received ∷ es) s
        ≡ put_received filled amount received (on_client (λ c. record c { pending = [] }) s)
  unfolding run step
  run-receive_op es filled amount received error s a e =
      rw (complete-receive_op filled amount received error s e) (run-idle es _ a refl)

  -- The client's own send_cbk, which nothing binds: where the message was sent and the client is not
  -- connecting, it closes the socket and calls the client CONNECTING.
  send_cbk-success :
      (s : TcpClient asio)
      → is_connecting_state s.state ≡ false
      → ((send_cbk success s).state ≡ connecting)
        × (asio.is_open (send_cbk success s).socket ≡ false)
  unfolding send_cbk shutdown_and_close_socket
  send_cbk-success s h = ground (arith, asio.close_closes (asio.shutdown s.socket).1)
