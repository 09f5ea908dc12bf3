-- ===== src/TcpServer/Callbacks.antt =====
-- The callbacks of the TCP server and of its connections, and the dispatch of a completion.
use endpoint.Base.{
  List, length, ℕ, ◌+◌, Bool, true, false, not, ◌&&◌, ◌||◌, [], Option, none, some, Text,
  if◌then◌else◌, get_elem?, erase_idx,
}
use endpoint.Base.Maps.{assign}
use endpoint.Asio.{
  Asio, ErrorCode, operation_aborted, no_delay, keep_alive, is_error, is_operation_aborted,
  is_no_descriptors, is_bad_descriptor, endpoint_discrete, eof, connection_reset, timed_out,
}
use endpoint.Buffer.{put, Memory, sub64}
use endpoint.Dump.{dump_up}
use endpoint.Connection.{Connection, set_remote_info}
use endpoint.ServerEndpoint as Base
use endpoint.TcpServer.{
  TcpServer, Op, accept_op, retry_op, receive_op, write_op, enqueue, on_connection, start, receive,
  stop_and_remove_connection,
}

-- The errors after which receive_cbk waits for the end of a send.
abbrev pub ends_connection : ErrorCode → Bool
ends_connection eof = true
ends_connection connection_reset = true
ends_connection timed_out = true
ends_connection _ = false

module _ {asio : Asio} where
  open asio use {remote_endpoint, set_option}

  -- The branch of accept_cbk without an error, for the connection `c` that stands at `id`. The error
  -- variable is that of the last option when it is tested.
  unfoldable pub accepted : Memory → ℕ → Connection asio → TcpServer asio → TcpServer asio
  accepted memory id c s =
      let remote = (remote_endpoint c.socket).1 in
      let k1 = (set_option no_delay c.socket).1 in
      let (error, k2) = set_option keep_alive k1 in
      let s' = on_connection (λ d. record (set_remote_info remote d) { socket = k2 }) id s in
      if not (is_error error)
      then receive memory id
          (record s' { connections = assign (endpoint_discrete asio) remote id s'.connections })
      else s'

  abbrev pub accepted_at : Memory → ℕ → TcpServer asio → TcpServer asio
  accepted_at memory id s = elim (get_elem? s.heap id) [
    | none ↦ s
    | some c ↦ accepted memory id c s
  ]

  unfoldable pub accept_cbk : Memory → ℕ → ErrorCode → TcpServer asio → TcpServer asio
  accept_cbk memory id error s =
      let s' = if not (is_error error) then accepted_at memory id s else s in
      if not (is_bad_descriptor error)
        && not (is_operation_aborted error)
        && not (is_no_descriptors error)
      then start s'
      else (if is_no_descriptors error then enqueue (retry_op 1000) s' else s')

  -- The wait of 1000 ms after no_descriptors.
  unfoldable pub retry_cbk : ErrorCode → TcpServer asio → TcpServer asio
  retry_cbk error s = if not (is_error error) then start s else s

  -- connection::write_completion_condition: how many bytes to write next, and what an error does.
  unfoldable pub write_completion_condition :
      ℕ → ErrorCode → ℕ → ℕ → TcpServer asio → ℕ × TcpServer asio
  write_completion_condition id error transferred to_send s =
      if is_error error
      then (0, stop_and_remove_connection id s)
      else (sub64 to_send transferred, s)

  -- async_accept has put the new connection into the socket that it was given when its handler runs, and
  -- async_receive the bytes that have come into the buffer.
  abbrev pub put_accepted : ℕ → ErrorCode → TcpServer asio → TcpServer asio
  put_accepted id error s =
      if is_error error
      then s
      else on_connection (λ c. record c { socket = asio.accept s.acceptor }) id s

  abbrev pub put_received : ℕ → ℕ → ℕ → List ℕ → TcpServer asio → TcpServer asio
  put_received id filled amount received s =
      on_connection (λ c. record c { recv_buffer = put filled amount received c.recv_buffer }) id s

  -- connection::wait_until_sent is declared and nowhere defined: the parameter `wait`.
  module _ (wait : ErrorCode → ℕ → TcpServer asio → TcpServer asio) where
    -- connection::receive_cbk, of the connection `c` that stands at `id`, and the dump that it writes:
    -- `none` where that reads outside the buffer.
    unfoldable pub receive_cbk :
        ErrorCode → ℕ → ℕ → Connection asio → TcpServer asio → TcpServer asio × Option Text
    receive_cbk error bytes id c s =
        if is_operation_aborted error || not s.alive then (s, some []) else (
          if ends_connection error then wait operation_aborted id s else s,
          dump_up c.recv_buffer 0 (bytes + c.recv_buffer_size),
        )

    -- The handler that an operation is bound to. `received` is what a receive has brought.
    unfoldable pub handle : Memory → Op → ErrorCode → List ℕ → TcpServer asio → TcpServer asio
    handle memory (accept_op id) error received s =
        accept_cbk memory id error (put_accepted id error s)
    handle memory (retry_op ms) error received s = retry_cbk error s
    handle memory (receive_op id filled amount) error received s =
        let s' = put_received id filled amount received s in
        elim (get_elem? s'.heap id) [
          | none ↦ s'
          | some c ↦ (receive_cbk error (length received) id c s').0
        ]
    handle memory (write_op id message) error received s = record s {
      server = Base.send_cbk error s.server;
    }

    unfoldable pub complete : Memory → ℕ → ErrorCode → List ℕ → TcpServer asio → TcpServer asio
    complete memory i error received s = elim (get_elem? s.pending i) [
      | none ↦ s
      | some op ↦ handle memory op error received (record s { pending = erase_idx s.pending i })
    ]
