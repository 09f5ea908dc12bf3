-- ===== src/TcpClient/Callbacks.antt =====
-- The TCP client's callbacks, and the dispatch of a completion to the handler that was bound to it.
use endpoint.Base.{
  List, length, ℕ, ◌+◌, refl, true, false, not, ◌||◌, Option, none, some, Text, [], if◌then◌else◌,
  get_elem?, erase_idx,
}
use endpoint.Asio.{
  Asio, ErrorCode, operation_aborted, destination_address_required, is_error, is_operation_aborted,
}
use endpoint.Buffer.{Memory, sub64, put}
use endpoint.Dump.{dump_up}
use endpoint.Client.{
  Client, Op, connect_op, post_connect, receive_op, send_op, wait_connect_op, wait_sent_op,
  connecting, shutdown_and_close_socket, enqueue, is_connecting_state,
}
use endpoint.Client.Callbacks as Base
use endpoint.Client.Callbacks.{ClientClass}
use endpoint.TcpClient.{TcpClient, on_client, connect, receive, set_local_port}

-- How many bytes async_write may write next.
unfoldable pub write_completion_condition : ErrorCode → ℕ → ℕ → ℕ
write_completion_condition error transferred to_send =
    if is_error error then 0 else sub64 to_send transferred

module _ {asio : Asio} where
  -- The next object, and the dump that is written; a read outside the buffer makes the latter `none`.
  unfoldable pub receive_cbk : ErrorCode → ℕ → ℕ → TcpClient asio → TcpClient asio × Option Text
  receive_cbk error bytes filled s =
      if is_operation_aborted error
      then (s, some [])
      else (s, dump_up s.recv_buffer 0 (bytes + filled))

  finish_sending : TcpClient asio → TcpClient asio
  finish_sending s = record s { is_sending = false; sent_timer = false }

  restart : Client asio → Client asio
  restart c =
      if is_connecting_state c.state
      then c
      else shutdown_and_close_socket false (record c { state = connecting })

  -- The overload with the message that was sent; send_data binds the base class's.
  unfoldable pub send_cbk : ErrorCode → TcpClient asio → TcpClient asio
  unfolding finish_sending restart
  send_cbk destination_address_required s =
      on_client (λ c. record c { was_not_connected = true }) (finish_sending s)
  send_cbk operation_aborted s = on_client (shutdown_and_close_socket false) (finish_sending s)
  send_cbk _ s = on_client restart (finish_sending s)

  unfoldable pub wait_until_sent : ErrorCode → TcpClient asio → TcpClient asio
  wait_until_sent error s =
      if not s.is_sending || not (is_error error)
      then s
      else record s { client = enqueue (wait_sent_op 1000) s.client; sent_timer = true }

-- The bytes that a receive has brought are in the buffer when its handler runs.
abbrev pub put_received : {asio : Asio} → ℕ → ℕ → List ℕ → TcpClient asio → TcpClient asio
put_received filled amount received s = record s {
  recv_buffer = put filled amount received s.recv_buffer;
}

module _ {asio : Asio} (memory : Memory) where
  unfoldable pub tcp_class : ClientClass asio (TcpClient asio)
  tcp_class = record {
    base = λ s. s.client;
    set_base = λ c s. record s { client = c };
    connect = connect;
    receive = receive memory;
    set_local_port = set_local_port;
    base-set_base = λ c s. refl;
  }

  -- The handler that an operation is bound to. A posted connect_cbk has its error with it; `received` is
  -- what a receive has brought.
  unfoldable pub handle : Op → ErrorCode → List ℕ → TcpClient asio → TcpClient asio
  handle connect_op error received s = Base.connect_cbk tcp_class error s
  handle (post_connect e) error received s = Base.connect_cbk tcp_class e s
  handle (receive_op filled amount) error received s =
      (receive_cbk error (length received) filled (put_received filled amount received s)).0
  handle (send_op message) error received s = Base.send_cbk tcp_class error s
  handle (wait_connect_op ms) error received s = Base.wait_connect_cbk tcp_class error s
  handle (wait_sent_op ms) error received s = wait_until_sent error s

  -- The operation at a place of `pending` ends.
  unfoldable pub complete : ℕ → ErrorCode → List ℕ → TcpClient asio → TcpClient asio
  complete i error received s = elim (get_elem? s.pending i) [
    | none ↦ s
    | some op ↦
        handle op error received (on_client (λ c. record c { pending = erase_idx c.pending i }) s)
  ]
