-- ===== src/TcpClient/Sent.antt =====
-- What the end of a message leads to in the TCP client.
use endpoint.Base.{List, ℕ, ◌≡◌, refl, true, false, ◌++◌, [], ◌∷◌, arith}
use endpoint.Asio.{
  Asio, ErrorCode, broken_pipe, not_connected, bad_descriptor, no_permission, operation_aborted,
  destination_address_required,
}
use endpoint.Buffer.{Memory}
use endpoint.Client.{send_op, is_established_or_connected, shutdown_and_close_socket}
use endpoint.Client.Callbacks as Base
use endpoint.Client.Callbacks.{lose_connection, mark_not_connected}
use endpoint.TcpClient.{TcpClient, on_client, connect}
use endpoint.TcpClient.Callbacks.{tcp_class, handle}
use endpoint.TcpClient.Run.Down.{connect-IsDown}
use endpoint.TcpClient.Connect.{
  IsConnect, connect_outcome, connect-asks, connect-keeps, connect-was_not_connected,
}

-- A connect has been asked for anew, after the connection was given up.
abbrev Reconnects : {asio : Asio} → TcpClient asio → TcpClient asio → Type 0
Reconnects s s' =
    let outcome = connect_outcome (on_client lose_connection s) in
    (s'.pending ≡ s.pending ++ outcome ∷ [])
    × IsConnect outcome
    × (s'.was_not_connected ≡ true)
    × (is_established_or_connected s'.client ≡ false)
    × (s'.recv_buffer ≡ s.recv_buffer)

-- What is expected of the end of a message, by its error.
abbrev pub Sent : {asio : Asio} → ErrorCode → TcpClient asio → TcpClient asio → Type 0
Sent broken_pipe s s' = Reconnects s s'
Sent not_connected s s' = Reconnects s s'
Sent bad_descriptor s s' = Reconnects s s'
Sent no_permission s s' = Reconnects s s'
Sent {asio} operation_aborted s s' =
    (asio.is_open s'.socket ≡ false) × (s'.sending_blocked ≡ true) × (s'.pending ≡ s.pending)
Sent destination_address_required s s' = s' ≡ on_client mark_not_connected s
Sent _ s s' = s' ≡ s

module _ {asio : Asio} (memory : Memory) where
  lost-Reconnects : (s : TcpClient asio) → Reconnects s (connect (on_client lose_connection s))
  unfolding is_established_or_connected shutdown_and_close_socket
  lost-Reconnects s =
      let lost = on_client lose_connection s in
      let (asked, one) = connect-asks lost in
      (asked, one, connect-was_not_connected lost, connect-IsDown lost refl, (connect-keeps lost).0)

  -- The end of a message of a TCP client, by its error. broken_pipe, not_connected, bad_descriptor and
  -- no_permission leave one more handler of connect_cbk to come, and nothing else is asked for; the
  -- client is neither established nor connected and remembers that it was not connected, and its
  -- receive buffer stays. After operation_aborted the socket is closed, sending is blocked, and nothing
  -- is asked for. Any other end changes nothing but, for destination_address_required, that memory.
  pub send_op-Sent :
      (error : ErrorCode) (message received : List ℕ) (s : TcpClient asio)
      → Sent error s (handle memory (send_op message) error received s)
  unfolding handle tcp_class Base.send_cbk shutdown_and_close_socket
  send_op-Sent broken_pipe message received s = lost-Reconnects s
  send_op-Sent not_connected message received s = lost-Reconnects s
  send_op-Sent bad_descriptor message received s = lost-Reconnects s
  send_op-Sent no_permission message received s = lost-Reconnects s
  send_op-Sent operation_aborted message received s =
      (ground (arith, asio.close_closes (asio.shutdown s.socket).1), refl, refl)
  send_op-Sent destination_address_required message received s = refl
  send_op-Sent _ message received s = refl
