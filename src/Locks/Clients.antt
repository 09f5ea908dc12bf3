-- ===== src/Locks/Clients.antt =====
-- The locking of the client endpoints' functions (client_endpoint_impl.cpp, tcp_client_endpoint_impl.cpp
-- and udp_client_endpoint_impl.cpp), for the client with the number `n`. What a branch depends on is an
-- argument: `opened` is socket_->is_open(), `throws` that an allocation of receive has thrown.
pub mod Covered
use endpoint.Base.{◌≤◌, ℕ, Bool, not, ◌||◌, ◌&&◌, List, [], ◌∷◌, ◌++◌, if◌then◌else◌, arith}
use endpoint.Asio.{
  is_connection_refused, ErrorCode, broken_pipe, not_connected, bad_descriptor, no_permission,
  operation_aborted, destination_address_required, is_error, is_operation_aborted,
}
use endpoint.Locks.{
  Action, touch, socket, connect_timer, sending, mutex, socket_mutex, connect_timer_mutex,
  sent_mutex, guarded,
}
use endpoint.Locks.Threads.Order.{IsNested, nesting, nil-IsNested}

module _ (n : ℕ) where
  set_established : Bool → Bool → List Action
  set_established on connecting =
      if on
      then (if not connecting then guarded (socket_mutex n) (touch (socket n) ∷ []) else [])
      else []

  set_connected : Bool → List Action
  set_connected on = if on then guarded (socket_mutex n) (touch (socket n) ∷ []) else []

  unfoldable pub shutdown_and_close_socket : List Action
  shutdown_and_close_socket = guarded (socket_mutex n) (touch (socket n) ∷ [])

  stop : List Action
  unfolding shutdown_and_close_socket
  stop = guarded (connect_timer_mutex n) (touch (connect_timer n) ∷ []) ++ shutdown_and_close_socket

  start_connect_timer : List Action
  start_connect_timer = guarded (connect_timer_mutex n) (touch (connect_timer n) ∷ [])

  -- Of both clients, as set_local_port.
  unfoldable pub connect : List Action
  connect = guarded (socket_mutex n) (touch (socket n) ∷ [])

  set_local_port : List Action
  set_local_port = guarded (socket_mutex n) (touch (socket n) ∷ [])

  handle_recv_buffer_exception : List Action
  handle_recv_buffer_exception =
      touch (socket n) ∷ guarded (connect_timer_mutex n) (touch (connect_timer n) ∷ [])
      ++ touch (socket n) ∷ []

  receive_from : Bool → List Action
  unfolding handle_recv_buffer_exception
  receive_from throws =
      guarded (socket_mutex n) (
        touch (socket n) ∷ (if throws then handle_recv_buffer_exception else touch (socket n) ∷ []))

  tcp_receive : Bool → List Action
  unfolding receive_from
  tcp_receive throws = guarded (socket_mutex n) [] ++ receive_from throws

  udp_receive : List Action
  udp_receive = guarded (socket_mutex n) (touch (socket n) ∷ [])

  receive : Bool → Bool → List Action
  unfolding tcp_receive udp_receive
  receive reliable throws = if reliable then tcp_receive throws else udp_receive

  -- receive_cbk of the UDP client; the TCP client's takes no mutex.
  udp_receive_cbk : ErrorCode → List Action
  unfolding shutdown_and_close_socket udp_receive
  udp_receive_cbk error =
      if is_operation_aborted error
      then []
      else (if is_connection_refused error then shutdown_and_close_socket else udp_receive)

  tcp_send_data : Bool → List Action
  tcp_send_data opened = guarded (socket_mutex n) (
      touch (socket n)
      ∷ (if opened
          then guarded (sent_mutex n) (touch (sending n) ∷ []) ++ touch (socket n) ∷ []
          else []))

  udp_send_data : List Action
  udp_send_data = guarded (socket_mutex n) (touch (socket n) ∷ [])

  send : Bool → Bool → List Action
  unfolding tcp_send_data udp_send_data
  send reliable opened =
      guarded (mutex n) (if reliable then tcp_send_data opened else udp_send_data)

  -- `blocked` is sending_blocked_.
  connect_cbk : Bool → ErrorCode → Bool → Bool → List Action
  unfolding shutdown_and_close_socket set_local_port receive
  connect_cbk reliable error blocked throws =
      if is_operation_aborted error || blocked
      then shutdown_and_close_socket
      else guarded (connect_timer_mutex n) (touch (connect_timer n) ∷ [])
        ++ set_local_port
        ++ receive reliable throws

  wait_connect_cbk : ErrorCode → Bool → List Action
  unfolding connect
  wait_connect_cbk error blocked = if is_error error || blocked then [] else connect

  unfoldable pub reconnect : List Action
  unfolding shutdown_and_close_socket connect
  reconnect = shutdown_and_close_socket ++ connect

  unfoldable pub send_cbk : ErrorCode → List Action
  unfolding reconnect
  send_cbk broken_pipe = guarded (mutex n) [] ++ reconnect
  send_cbk not_connected = reconnect
  send_cbk bad_descriptor = reconnect
  send_cbk no_permission = guarded (mutex n) [] ++ reconnect
  send_cbk operation_aborted = shutdown_and_close_socket
  send_cbk _ = []

  -- The overload of the TCP client.
  tcp_send_cbk : ErrorCode → Bool → List Action
  unfolding shutdown_and_close_socket
  tcp_send_cbk destination_address_required connecting =
      guarded (sent_mutex n) (touch (sending n) ∷ [])
  tcp_send_cbk operation_aborted connecting =
      guarded (sent_mutex n) (touch (sending n) ∷ []) ++ shutdown_and_close_socket
  tcp_send_cbk _ connecting =
      guarded (sent_mutex n) (touch (sending n) ∷ [])
      ++ (if connecting then [] else shutdown_and_close_socket)

  wait_until_sent : List Action
  wait_until_sent = guarded (sent_mutex n) (touch (sending n) ∷ [])

  -- A round of async_write of the TCP client: the condition takes no mutex, and asio goes on with the
  -- socket where there was no error and bytes remain.
  unfoldable pub tcp_write_round : ErrorCode → Bool → List Action
  tcp_write_round error remaining =
      if not (is_error error) && remaining then touch (socket n) ∷ [] else []

-- The functions that are called from outside or by the io_service.
pub data ClientCall : Type 0 where
  set_established_call : Bool → Bool → ClientCall
  set_connected_call : Bool → ClientCall
  stop_call start_connect_timer_call start_call wait_until_sent_call : ClientCall
  send_call : Bool → Bool → ClientCall
  receive_call : Bool → Bool → ClientCall
  connect_cbk_call : Bool → ErrorCode → Bool → Bool → ClientCall
  wait_connect_cbk_call : ErrorCode → Bool → ClientCall
  send_cbk_call udp_receive_cbk_call : ErrorCode → ClientCall
  tcp_send_cbk_call tcp_write_round_call : ErrorCode → Bool → ClientCall

unfoldable pub client_locks : ℕ → ClientCall → List Action
unfolding set_established set_connected stop start_connect_timer connect wait_until_sent send
    receive connect_cbk wait_connect_cbk send_cbk tcp_send_cbk tcp_write_round udp_receive_cbk
client_locks n (set_established_call on connecting) = set_established n on connecting
client_locks n (set_connected_call on) = set_connected n on
client_locks n stop_call = stop n
client_locks n start_connect_timer_call = start_connect_timer n
client_locks n start_call = connect n
client_locks n wait_until_sent_call = wait_until_sent n
client_locks n (send_call reliable opened) = send n reliable opened
client_locks n (receive_call reliable throws) = receive n reliable throws
client_locks n (connect_cbk_call reliable error blocked throws) =
    connect_cbk n reliable error blocked throws
client_locks n (wait_connect_cbk_call error blocked) = wait_connect_cbk n error blocked
client_locks n (send_cbk_call error) = send_cbk n error
client_locks n (tcp_send_cbk_call error connecting) = tcp_send_cbk n error connecting
client_locks n (tcp_write_round_call error remaining) = tcp_write_round n error remaining
client_locks n (udp_receive_cbk_call error) = udp_receive_cbk n error

module _ (n : ℕ) where
  send_cbk-IsNested : (error : ErrorCode) → IsNested 0 (send_cbk n error)
  unfolding send_cbk
  send_cbk-IsNested broken_pipe = search (nesting, arith)
  send_cbk-IsNested not_connected = search (nesting, arith)
  send_cbk-IsNested bad_descriptor = search (nesting, arith)
  send_cbk-IsNested no_permission = search (nesting, arith)
  send_cbk-IsNested operation_aborted = search (nesting, arith)
  send_cbk-IsNested _ = nil-IsNested 0

  tcp_send_cbk-IsNested :
      (error : ErrorCode) (connecting : Bool) → IsNested 0 (tcp_send_cbk n error connecting)
  unfolding tcp_send_cbk
  tcp_send_cbk-IsNested destination_address_required connecting = search (nesting, arith)
  tcp_send_cbk-IsNested operation_aborted connecting = search (nesting, arith)
  tcp_send_cbk-IsNested _ connecting = search (nesting, arith)

  pub connect-IsNested : (m : ℕ) → m ≤ 3 → IsNested m (connect n)
  unfolding connect
  connect-IsNested m le = search (nesting, arith)

  pub client_locks-IsNested : (call : ClientCall) → IsNested 0 (client_locks n call)
  unfolding client_locks set_established set_connected stop start_connect_timer wait_until_sent send
      receive connect_cbk wait_connect_cbk udp_receive_cbk tcp_write_round
  client_locks-IsNested (set_established_call on connecting) = search (nesting, arith)
  client_locks-IsNested (set_connected_call on) = search (nesting, arith)
  client_locks-IsNested stop_call = search (nesting, arith)
  client_locks-IsNested start_connect_timer_call = search (nesting, arith)
  client_locks-IsNested start_call = connect-IsNested 0 (omega arith)
  client_locks-IsNested wait_until_sent_call = search (nesting, arith)
  client_locks-IsNested (send_call reliable opened) = search (nesting, arith)
  client_locks-IsNested (receive_call reliable throws) = search (nesting, arith)
  client_locks-IsNested (connect_cbk_call reliable error blocked throws) = search (nesting, arith)
  client_locks-IsNested (wait_connect_cbk_call error blocked) =
      search (nesting, arith, connect-IsNested)
  client_locks-IsNested (send_cbk_call error) = send_cbk-IsNested error
  client_locks-IsNested (tcp_send_cbk_call error connecting) =
      tcp_send_cbk-IsNested error connecting
  client_locks-IsNested (tcp_write_round_call error remaining) = search (nesting, arith)
  client_locks-IsNested (udp_receive_cbk_call error) = search (nesting, arith)
