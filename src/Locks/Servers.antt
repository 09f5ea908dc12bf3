-- ===== src/Locks/Servers.antt =====
-- The locking of the servers' functions (server_endpoint_impl.cpp, tcp_server_endpoint_impl.cpp and
-- udp_server_endpoint_impl.cpp), for the server with the number `n`, and of the manager's
-- (endpoint_manager_impl.cpp). A connection is known by its number; `throws` says that an allocation of
-- connection::receive has thrown while the server exists.
pub mod Nested
pub mod Covered
use endpoint.Base.{ℕ, ◌≡◌, Bool, false, not, ◌||◌, ◌&&◌, List, [], ◌∷◌, ◌++◌, if◌then◌else◌}
use endpoint.Asio.{
  ErrorCode, timed_out, eof, connection_reset, is_error, is_operation_aborted, is_bad_descriptor,
  is_no_descriptors,
}
use endpoint.Locks.{
  Action, touch, endpoints, acceptor, connections, connection_socket, sending, unicast_socket,
  multicast_socket, endpoint_mutex, mutex, acceptor_mutex, connections_mutex, connection_mutex,
  sent_mutex, unicast_mutex, multicast_mutex, guarded,
}
use endpoint.Locks.Clients.{connect}

module _ (n : ℕ) where
  -- `id` is the connection that is made for the next accept.
  start : Bool → ℕ → List Action
  start opened id = guarded (acceptor_mutex n) (
      touch (acceptor n)
      ∷ (if opened
          then guarded (connection_mutex n id)
              (touch (acceptor n) ∷ touch (connection_socket n id) ∷ [])
          else []))

  unfoldable pub connection_stop : ℕ → List Action
  connection_stop id = guarded (connection_mutex n id) (touch (connection_socket n id) ∷ [])

  unfoldable pub stop_all : List ℕ → List Action
  unfolding connection_stop
  stop_all [] = []
  stop_all (id ∷ ids) = connection_stop id ++ stop_all ids

  -- `ids` are the connections in the map.
  unfoldable pub stop : List ℕ → List Action
  unfolding stop_all
  stop ids =
      guarded (acceptor_mutex n) (touch (acceptor n) ∷ [])
      ++ guarded (connections_mutex n)
          (touch (connections n) ∷ stop_all ids ++ touch (connections n) ∷ [])

  remove_connection : List Action
  remove_connection = guarded (connections_mutex n) (touch (connections n) ∷ [])

  -- connection::handle_recv_buffer_exception; connection::receive calls it with its mutex held.
  handle_recv_buffer_exception : ℕ → List Action
  unfolding remove_connection
  handle_recv_buffer_exception id = touch (connection_socket n id) ∷ remove_connection

  unfoldable pub connection_receive : ℕ → Bool → List Action
  unfolding handle_recv_buffer_exception
  connection_receive id throws = guarded (connection_mutex n id) (
      touch (connection_socket n id)
      ∷ (if throws then handle_recv_buffer_exception id else touch (connection_socket n id) ∷ []))

  -- `kept` is that the last option of the new socket was set.
  accepted : ℕ → Bool → Bool → List Action
  unfolding connection_receive
  accepted id kept throws =
      guarded (connection_mutex n id) (touch (connection_socket n id) ∷ [])
      ++ (if kept
          then guarded (connections_mutex n) (touch (connections n) ∷ [])
            ++ connection_receive id throws
          else [])

  accept_cbk : ℕ → ErrorCode → Bool → Bool → Bool → ℕ → List Action
  unfolding accepted start
  accept_cbk id error kept throws opened next =
      (if is_error error then [] else accepted id kept throws)
      ++ (if is_bad_descriptor error || is_operation_aborted error || is_no_descriptors error
          then []
          else start opened next)

  -- The wait after no_descriptors.
  retry_cbk : ErrorCode → Bool → ℕ → List Action
  unfolding start
  retry_cbk error opened next = if is_error error then [] else start opened next

  connection_send_data : ℕ → Bool → List Action
  connection_send_data id alive =
      if alive
      then guarded (connection_mutex n id)
          (guarded (sent_mutex n) (touch (sending n) ∷ []) ++ touch (connection_socket n id) ∷ [])
      else []

  -- connection::receive_cbk after its first two guards; `wait` is connection::wait_until_sent, which is
  -- nowhere defined, for the server and the connection.
  received : (ℕ → ℕ → List Action) → ℕ → ErrorCode → List Action
  received wait id timed_out =
      guarded (connection_mutex n id) (touch (connection_socket n id) ∷ []) ++ wait n id
  received wait id eof = wait n id
  received wait id connection_reset = wait n id
  received wait id error = []

  connection_receive_cbk : (ℕ → ℕ → List Action) → ℕ → ErrorCode → Bool → List Action
  unfolding received
  connection_receive_cbk wait id error alive =
      if is_operation_aborted error then [] else (if alive then received wait id error else [])

  stop_and_remove_connection : ℕ → Bool → List Action
  unfolding connection_stop remove_connection
  stop_and_remove_connection id alive =
      if alive then guarded (connections_mutex n) (connection_stop id) ++ remove_connection else []

  unfoldable pub write_completion_condition : ℕ → ErrorCode → Bool → List Action
  unfolding stop_and_remove_connection
  write_completion_condition id error alive =
      if is_error error then stop_and_remove_connection id alive else []

  -- A round of async_write: after the condition asio goes on with the socket, where there was no error
  -- and bytes remain.
  unfoldable pub write_round : ℕ → ErrorCode → Bool → Bool → List Action
  unfolding write_completion_condition
  write_round id error alive remaining =
      write_completion_condition id error alive
      ++ (if not (is_error error) && remaining then touch (connection_socket n id) ∷ [] else [])

  send_cbk : List Action
  send_cbk = guarded (sent_mutex n) (touch (sending n) ∷ []) ++ guarded (mutex n) []

  udp_receive : List Action
  udp_receive = guarded (unicast_mutex n) (touch (unicast_socket n) ∷ [])

  udp_stop : List Action
  udp_stop =
      guarded (unicast_mutex n) (touch (unicast_socket n) ∷ [])
      ++ guarded (multicast_mutex n) (touch (multicast_socket n) ∷ [])

  on_unicast_received : ErrorCode → List Action
  unfolding udp_receive
  on_unicast_received error =
      if is_operation_aborted error then [] else guarded (multicast_mutex n) [] ++ udp_receive

  udp_send_data : List Action
  udp_send_data = guarded (unicast_mutex n) (touch (unicast_socket n) ∷ [])

-- What a create function does with its mutex held: nothing, or the start of the endpoint that it has
-- made.
pub data Created : Type 0 where
  nothing udp_server tcp_client : Created
  tcp_server : Bool → ℕ → Created

start_created : ℕ → Created → List Action
unfolding start udp_receive
start_created n nothing = []
start_created n (tcp_server opened next) = start n opened next
start_created n udp_server = udp_receive n
start_created n tcp_client = connect n

-- The recursive mutex is never taken twice, so that it is one like the others here.
create_endpoint : ℕ → Created → List Action
unfolding start_created
create_endpoint n created = guarded endpoint_mutex (touch endpoints ∷ start_created n created)

-- find_server_endpoint, find_client_endpoint, remove_server_endpoint and remove_client_endpoint.
look_up_endpoint : List Action
look_up_endpoint = guarded endpoint_mutex (touch endpoints ∷ [])

-- The functions that are called from outside or by the io_service.
pub data ServerCall : Type 0 where
  start_call : Bool → ℕ → ServerCall
  stop_call : List ℕ → ServerCall
  accept_cbk_call : ℕ → ErrorCode → Bool → Bool → Bool → ℕ → ServerCall
  retry_cbk_call : ErrorCode → Bool → ℕ → ServerCall
  connection_receive_call connection_send_call : ℕ → Bool → ServerCall
  connection_stop_call : ℕ → ServerCall
  connection_receive_cbk_call : ℕ → ErrorCode → Bool → ServerCall
  write_round_call : ℕ → ErrorCode → Bool → Bool → ServerCall
  send_cbk_call udp_start_call udp_stop_call udp_send_call : ServerCall
  udp_received_call : ErrorCode → ServerCall
  create_call : Created → ServerCall
  look_up_call : ServerCall

unfoldable pub server_locks : (ℕ → ℕ → List Action) → ℕ → ServerCall → List Action
unfolding start accept_cbk retry_cbk connection_send_data connection_receive_cbk connection_stop
    write_round send_cbk udp_receive udp_stop udp_send_data on_unicast_received create_endpoint
    look_up_endpoint
server_locks wait n (start_call opened next) = start n opened next
server_locks wait n (stop_call ids) = stop n ids
server_locks wait n (accept_cbk_call id error kept throws opened next) =
    accept_cbk n id error kept throws opened next
server_locks wait n (retry_cbk_call error opened next) = retry_cbk n error opened next
server_locks wait n (connection_receive_call id throws) = connection_receive n id throws
server_locks wait n (connection_send_call id alive) = connection_send_data n id alive
server_locks wait n (connection_stop_call id) = connection_stop n id
server_locks wait n (connection_receive_cbk_call id error alive) =
    connection_receive_cbk n wait id error alive
server_locks wait n (write_round_call id error alive remaining) =
    write_round n id error alive remaining
server_locks wait n send_cbk_call = send_cbk n
server_locks wait n udp_start_call = udp_receive n
server_locks wait n udp_stop_call = udp_stop n
server_locks wait n udp_send_call = udp_send_data n
server_locks wait n (udp_received_call error) = on_unicast_received n error
server_locks wait n (create_call created) = create_endpoint n created
server_locks wait n look_up_call = look_up_endpoint

-- No allocation of a connection's receive throws in this call.
abbrev pub ThrowsNothing : ServerCall → Type 0
ThrowsNothing (accept_cbk_call id error kept throws opened next) = throws ≡ false
ThrowsNothing (connection_receive_call id throws) = throws ≡ false
ThrowsNothing call = Unit {0}
