-- ===== src/Locks/Servers/Nested.antt =====
-- The servers' functions keep to the order of the mutexes, as long as no allocation of a connection's
-- receive throws.
use endpoint.Base.{ℕ, ◌≤◌, Bool, false, List, [], ◌∷◌, arith}
use endpoint.Asio.{ErrorCode, timed_out, eof, connection_reset}
use endpoint.Locks.Clients.{connect-IsNested}
use endpoint.Locks.Servers.{
  start, stop_all, stop, connection_receive, accept_cbk, retry_cbk, connection_send_data,
  connection_stop, connection_receive_cbk, received, write_round, connection_receive_cbk_call,
  send_cbk, udp_receive, udp_stop, on_unicast_received, udp_send_data, Created, nothing, udp_server,
  tcp_client, tcp_server, start_created, create_endpoint, look_up_endpoint, ServerCall, start_call,
  stop_call, accept_cbk_call, retry_cbk_call, connection_receive_call, connection_send_call,
  connection_stop_call, write_round_call, send_cbk_call, udp_start_call, udp_stop_call,
  udp_send_call, udp_received_call, create_call, look_up_call, server_locks, ThrowsNothing, Action,
}
use endpoint.Locks.{Action}
use endpoint.Locks.Threads.Order.{IsNested, nesting, nil-IsNested}

module _ (wait : ℕ → ℕ → List Action) (waits : (n id : ℕ) → IsNested 0 (wait n id)) (n : ℕ) where
  start-IsNested : (m : ℕ) (opened : Bool) (id : ℕ) → m ≤ 1 → IsNested m (start n opened id)
  unfolding start
  start-IsNested m opened id le = search (nesting, arith)

  stop_all-IsNested : (ids : List ℕ) → IsNested 3 (stop_all n ids)
  unfolding stop_all
  stop_all-IsNested [] = nil-IsNested 3
  stop_all-IsNested (id ∷ ids) = search (nesting, stop_all-IsNested ids, arith)

  stop-IsNested : (ids : List ℕ) → IsNested 0 (stop n ids)
  unfolding stop
  stop-IsNested ids = search (nesting, stop_all-IsNested ids, arith)

  receive-IsNested : (id : ℕ) → IsNested 0 (connection_receive n id false)
  unfolding connection_receive
  receive-IsNested id = search (nesting, arith)

  received-IsNested : (id : ℕ) (error : ErrorCode) → IsNested 0 (received n wait id error)
  unfolding received
  received-IsNested id timed_out = search (nesting, waits n id, arith)
  received-IsNested id eof = waits n id
  received-IsNested id connection_reset = waits n id
  received-IsNested id _ = nil-IsNested 0

  receive_cbk-IsNested :
      (id : ℕ) (error : ErrorCode) (alive : Bool)
      → IsNested 0 (connection_receive_cbk n wait id error alive)
  unfolding connection_receive_cbk
  receive_cbk-IsNested id error alive = search (nesting, received-IsNested id error, arith)

  accept_cbk-IsNested :
      (id : ℕ) (error : ErrorCode) (kept opened : Bool) (next : ℕ)
      → IsNested 0 (accept_cbk n id error kept false opened next)
  unfolding accept_cbk
  accept_cbk-IsNested id error kept opened next = search (nesting, arith)

  start_created-IsNested : (created : Created) → IsNested 1 (start_created n created)
  unfolding start_created
  start_created-IsNested nothing = nil-IsNested 1
  start_created-IsNested (tcp_server opened next) = start-IsNested 1 opened next (omega arith)
  start_created-IsNested udp_server = search (nesting, arith)
  start_created-IsNested tcp_client = connect-IsNested n 1 (omega arith)

  pub server_locks-IsNested :
      (call : ServerCall) → ThrowsNothing call → IsNested 0 (server_locks wait n call)
  unfolding server_locks retry_cbk connection_send_data connection_stop write_round send_cbk
      udp_receive udp_stop on_unicast_received udp_send_data create_endpoint look_up_endpoint
  server_locks-IsNested (start_call opened next) h = start-IsNested 0 opened next (omega arith)
  server_locks-IsNested (stop_call ids) h = stop-IsNested ids
  server_locks-IsNested (accept_cbk_call id error kept throws opened next) h =
      rw h (accept_cbk-IsNested id error kept opened next)
  server_locks-IsNested (retry_cbk_call error opened next) h = search (nesting, arith)
  server_locks-IsNested (connection_receive_call id throws) h = rw h (receive-IsNested id)
  server_locks-IsNested (connection_send_call id alive) h = search (nesting, arith)
  server_locks-IsNested (connection_stop_call id) h = search (nesting, arith)
  server_locks-IsNested (connection_receive_cbk_call id error alive) h =
      receive_cbk-IsNested id error alive
  server_locks-IsNested (write_round_call id error alive remaining) h = search (nesting, arith)
  server_locks-IsNested send_cbk_call h = search (nesting, arith)
  server_locks-IsNested udp_start_call h = search (nesting, arith)
  server_locks-IsNested udp_stop_call h = search (nesting, arith)
  server_locks-IsNested udp_send_call h = search (nesting, arith)
  server_locks-IsNested (udp_received_call error) h = search (nesting, arith)
  server_locks-IsNested (create_call created) h =
      search (nesting, start_created-IsNested created, arith)
  server_locks-IsNested look_up_call h = search (nesting, arith)
