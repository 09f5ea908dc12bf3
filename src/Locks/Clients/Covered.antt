-- ===== src/Locks/Clients/Covered.antt =====
-- Whether the clients' functions use their members with the guardians held.
use endpoint.Base.{ℕ, Bool, [], List, not, ◌&&◌, ◌≡◌, false, ◌⊎◌, ◌≢◌, inl, inr}
use endpoint.Asio.{
  ErrorCode, broken_pipe, not_connected, bad_descriptor, no_permission, operation_aborted,
  destination_address_required, is_error,
}
use endpoint.Locks.{Mutex, Member, socket}
use endpoint.Locks.Clients.{
  send_cbk, tcp_send_cbk, connect, client_locks, set_established, set_connected, stop,
  start_connect_timer, wait_until_sent, send, receive, connect_cbk, wait_connect_cbk,
  udp_receive_cbk, ClientCall, set_established_call, set_connected_call, stop_call,
  start_connect_timer_call, start_call, wait_until_sent_call, send_call, receive_call,
  connect_cbk_call, wait_connect_cbk_call, send_cbk_call, tcp_send_cbk_call, udp_receive_cbk_call,
  tcp_write_round_call, tcp_write_round,
}
use endpoint.Locks.Threads.Covering.{Covers, covering, nil-Covers, touch_other-Covers, if-Covers}

-- No round of an async_write goes on with the member `d`.
abbrev pub IsGuardedClient : Member → ℕ → ClientCall → Type 0
IsGuardedClient d n (tcp_write_round_call error remaining) =
    (not (is_error error) && remaining ≡ false) ⊎ (socket n ≢ d)
IsGuardedClient d n _ = Unit {0}

module _ (d : Member) (n : ℕ) where
  pub connect-Covers : (held : List Mutex) → Covers d held (connect n)
  unfolding connect
  connect-Covers held = search (covering) depth 12

  send_cbk-Covers : (error : ErrorCode) → Covers d [] (send_cbk n error)
  unfolding send_cbk
  send_cbk-Covers broken_pipe = search (covering) depth 12
  send_cbk-Covers not_connected = search (covering) depth 12
  send_cbk-Covers bad_descriptor = search (covering) depth 12
  send_cbk-Covers no_permission = search (covering) depth 12
  send_cbk-Covers operation_aborted = search (covering) depth 12
  send_cbk-Covers _ = nil-Covers d []

  tcp_send_cbk-Covers :
      (error : ErrorCode) (connecting : Bool) → Covers d [] (tcp_send_cbk n error connecting)
  unfolding tcp_send_cbk
  tcp_send_cbk-Covers destination_address_required connecting = search (covering) depth 12
  tcp_send_cbk-Covers operation_aborted connecting = search (covering) depth 12
  tcp_send_cbk-Covers _ connecting = search (covering) depth 12

  write_round-Covers :
      (error : ErrorCode) (remaining : Bool)
      → (not (is_error error) && remaining ≡ false) ⊎ (socket n ≢ d)
      → Covers d [] (tcp_write_round n error remaining)
  unfolding tcp_write_round
  write_round-Covers error remaining (inl ends) = rw (tcp_write_round, ends) (nil-Covers d [])
  write_round-Covers error remaining (inr other) =
      if-Covers (not (is_error error) && remaining)
        (touch_other-Covers (socket n) other (nil-Covers d [])) (nil-Covers d [])

  pub client_locks-Covers :
      (call : ClientCall) → IsGuardedClient d n call → Covers d [] (client_locks n call)
  unfolding client_locks set_established set_connected stop start_connect_timer wait_until_sent send
      receive connect_cbk wait_connect_cbk udp_receive_cbk
  client_locks-Covers (set_established_call on connecting) h = search (covering) depth 12
  client_locks-Covers (set_connected_call on) h = search (covering) depth 12
  client_locks-Covers stop_call h = search (covering) depth 12
  client_locks-Covers start_connect_timer_call h = search (covering) depth 12
  client_locks-Covers start_call h = connect-Covers []
  client_locks-Covers wait_until_sent_call h = search (covering) depth 12
  client_locks-Covers (send_call reliable opened) h = search (covering) depth 12
  client_locks-Covers (receive_call reliable throws) h = search (covering) depth 12
  client_locks-Covers (connect_cbk_call reliable error blocked throws) h =
      search (covering) depth 12
  client_locks-Covers (wait_connect_cbk_call error blocked) h =
      search (covering, connect-Covers) depth 12
  client_locks-Covers (send_cbk_call error) h = send_cbk-Covers error
  client_locks-Covers (tcp_send_cbk_call error connecting) h = tcp_send_cbk-Covers error connecting
  client_locks-Covers (tcp_write_round_call error remaining) h =
      write_round-Covers error remaining h
  client_locks-Covers (udp_receive_cbk_call error) h = search (covering) depth 12
