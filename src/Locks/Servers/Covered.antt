-- ===== src/Locks/Servers/Covered.antt =====
-- Whether the servers' and the manager's functions use their members with the guardians held, an
-- allocation that throws or not.
use endpoint.Base.{ℕ, Bool, List, [], ◌∷◌, not, ◌≡◌, false, ◌&&◌, ◌⊎◌, ◌≢◌, if◌then◌else◌, inl, inr}
use endpoint.Asio.{ErrorCode, timed_out, eof, connection_reset, is_error, is_operation_aborted}
use endpoint.Locks.{Mutex, Member, Action, connection_socket, touch}
use endpoint.Locks.Clients.Covered.{connect-Covers}
use endpoint.Locks.Servers.{
  start, stop_all, stop, connection_receive, accept_cbk, retry_cbk, connection_send_data,
  connection_stop, connection_receive_cbk, received, write_round, write_completion_condition,
  send_cbk, udp_receive, udp_stop, on_unicast_received, udp_send_data, Created, nothing, udp_server,
  tcp_client, tcp_server, start_created, create_endpoint, look_up_endpoint, ServerCall, start_call,
  stop_call, accept_cbk_call, retry_cbk_call, connection_receive_call, connection_send_call,
  connection_stop_call, connection_receive_cbk_call, write_round_call, send_cbk_call,
  udp_start_call, udp_stop_call, udp_send_call, udp_received_call, create_call, look_up_call,
  server_locks,
}
use endpoint.Locks.Threads.Covering.{
  Covers, covering, nil-Covers, append-Covers, if-Covers, touch_other-Covers,
}

-- No round of an async_write goes on with the member `d`.
abbrev pub IsGuardedServer : Member → ℕ → ServerCall → Type 0
IsGuardedServer d n (write_round_call id error alive remaining) =
    (not (is_error error) && remaining ≡ false) ⊎ (connection_socket n id ≢ d)
IsGuardedServer d n _ = Unit {0}

module _ (d : Member) (wait : ℕ → ℕ → List Action) (waits : (n id : ℕ) → Covers d [] (wait n id))
    (n : ℕ) where
  start-Covers : (held : List Mutex) (opened : Bool) (id : ℕ) → Covers d held (start n opened id)
  unfolding start
  start-Covers held opened id = search (covering) depth 12

  connection_stop-Covers : (held : List Mutex) (id : ℕ) → Covers d held (connection_stop n id)
  unfolding connection_stop
  connection_stop-Covers held id = search (covering)

  stop_all-Covers : (held : List Mutex) (ids : List ℕ) → Covers d held (stop_all n ids)
  unfolding stop_all connection_stop
  stop_all-Covers held [] = nil-Covers d held
  stop_all-Covers held (id ∷ ids) =
      append-Covers (connection_stop-Covers held id) (stop_all-Covers held ids)

  stop-Covers : (ids : List ℕ) → Covers d [] (stop n ids)
  unfolding stop
  stop-Covers ids = search (covering, stop_all-Covers) depth 12

  receive-Covers : (id : ℕ) (throws : Bool) → Covers d [] (connection_receive n id throws)
  unfolding connection_receive
  receive-Covers id throws = search (covering) depth 12

  received-Covers : (id : ℕ) (error : ErrorCode) → Covers d [] (received n wait id error)
  unfolding received connection_stop
  received-Covers id timed_out = append-Covers (connection_stop-Covers [] id) (waits n id)
  received-Covers id eof = waits n id
  received-Covers id connection_reset = waits n id
  received-Covers id _ = nil-Covers d []

  receive_cbk-Covers :
      (id : ℕ) (error : ErrorCode) (alive : Bool)
      → Covers d [] (connection_receive_cbk n wait id error alive)
  unfolding connection_receive_cbk
  receive_cbk-Covers id error alive =
      if-Covers (is_operation_aborted error) (nil-Covers d [])
        (if-Covers alive (received-Covers id error) (nil-Covers d []))

  condition-Covers :
      (id : ℕ) (error : ErrorCode) (alive : Bool)
      → Covers d [] (write_completion_condition n id error alive)
  unfolding write_completion_condition
  condition-Covers id error alive = search (covering) depth 12

  goes_on-Covers :
      (id : ℕ) (b : Bool)
      → (b ≡ false) ⊎ (connection_socket n id ≢ d)
      → Covers d [] (if b then touch (connection_socket n id) ∷ [] else [])
  goes_on-Covers id b (inl ends) = rw ends (nil-Covers d [])
  goes_on-Covers id b (inr other) =
      if-Covers b (touch_other-Covers (connection_socket n id) other (nil-Covers d []))
        (nil-Covers d [])

  accept_cbk-Covers :
      (id : ℕ) (error : ErrorCode) (kept throws opened : Bool) (next : ℕ)
      → Covers d [] (accept_cbk n id error kept throws opened next)
  unfolding accept_cbk
  accept_cbk-Covers id error kept throws opened next = search (covering) depth 16

  start_created-Covers :
      (held : List Mutex) (created : Created) → Covers d held (start_created n created)
  unfolding start_created
  start_created-Covers held nothing = nil-Covers d held
  start_created-Covers held (tcp_server opened next) = start-Covers held opened next
  start_created-Covers held udp_server = search (covering) depth 12
  start_created-Covers held tcp_client = connect-Covers d n held

  pub server_locks-Covers :
      (call : ServerCall) → IsGuardedServer d n call → Covers d [] (server_locks wait n call)
  unfolding server_locks retry_cbk connection_send_data connection_stop write_round send_cbk
      udp_receive udp_stop on_unicast_received udp_send_data create_endpoint look_up_endpoint
  server_locks-Covers (start_call opened next) h = start-Covers [] opened next
  server_locks-Covers (stop_call ids) h = stop-Covers ids
  server_locks-Covers (accept_cbk_call id error kept throws opened next) h =
      accept_cbk-Covers id error kept throws opened next
  server_locks-Covers (retry_cbk_call error opened next) h = search (covering) depth 12
  server_locks-Covers (connection_receive_call id throws) h = receive-Covers id throws
  server_locks-Covers (connection_send_call id alive) h = search (covering) depth 12
  server_locks-Covers (connection_stop_call id) h = connection_stop-Covers [] id
  server_locks-Covers (connection_receive_cbk_call id error alive) h =
      receive_cbk-Covers id error alive
  server_locks-Covers (write_round_call id error alive remaining) h =
      append-Covers (condition-Covers id error alive)
        (goes_on-Covers id (not (is_error error) && remaining) h)
  server_locks-Covers send_cbk_call h = search (covering) depth 12
  server_locks-Covers udp_start_call h = search (covering) depth 12
  server_locks-Covers udp_stop_call h = search (covering) depth 12
  server_locks-Covers udp_send_call h = search (covering) depth 12
  server_locks-Covers (udp_received_call error) h = search (covering) depth 12
  server_locks-Covers (create_call created) h = search (covering, start_created-Covers) depth 12
  server_locks-Covers look_up_call h = search (covering) depth 12
