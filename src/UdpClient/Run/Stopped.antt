-- ===== src/UdpClient/Run/Stopped.antt =====
-- The UDP client after stop.
use endpoint.Base.{
  ◌≡◌, false, ◌||◌, List, [], ◌∷◌, get_elem?, arith, Option-cases, Bool-cases, inl, inr, Bool, true,
  not, Option, some,
}
use endpoint.Asio.{
  Asio, Endpoint, ErrorCode, operation_aborted, is_operation_aborted, is_error, broken_pipe,
  not_connected, bad_descriptor, no_permission, destination_address_required,
}
use endpoint.Client.{
  Client, Op, connect_op, post_connect, receive_op, send_op, wait_connect_op, wait_sent_op,
  shutdown_and_close_socket, set_established, set_connected,
}
use endpoint.Client.States.{stop-is_open}
use endpoint.Client.Callbacks as Base
use endpoint.UdpClient.{
  UdpClient, receive, set_local_port, send_data, receive_cbk, udp_class, handle, complete,
}
use endpoint.UdpClient.Run.{
  Event, stop_call, send_call, completion, step, run, set_established_call, set_connected_call,
  start_call,
}

-- The errors after which send_cbk connects anew.
abbrev pub loses_connection : ErrorCode → Bool
loses_connection broken_pipe = true
loses_connection not_connected = true
loses_connection bad_descriptor = true
loses_connection no_permission = true
loses_connection _ = false

-- Which ends of an operation leave a stopped client down.
abbrev stays_down : Option Op → ErrorCode → Bool
stays_down (some (send_op message)) error = not (loses_connection error)
stays_down (some (wait_connect_op ms)) error = is_error error
stays_down _ error = true

module _ {asio : Asio} where
  -- No start; no message ends with an error after which send_cbk connects anew, and no wait for the
  -- next connect without an error.
  abbrev pub StaysDown : List (Event asio.Address) → UdpClient asio → Type 0
  StaysDown [] s = Unit {0}
  StaysDown (start_call ∷ es) s = ⊥
  StaysDown (completion i error sender ∷ es) s =
      (stays_down (get_elem? s.pending i) error ≡ true) × StaysDown es (complete i error sender s)
  StaysDown (e ∷ es) s = StaysDown es (step e s)

  StaysDown-cons :
      (e : Event asio.Address) (es : List (Event asio.Address)) (s : UdpClient asio)
      → StaysDown (e ∷ es) s
      → StaysDown (e ∷ []) s × StaysDown es (step e s)
  unfolding step
  StaysDown-cons start_call es s h = absurd h
  StaysDown-cons (completion i error sender) es s h = ((h.0, tt), h.1)
  StaysDown-cons stop_call es s h = (tt, h)
  StaysDown-cons (send_call message) es s h = (tt, h)
  StaysDown-cons (set_established_call on) es s h = (tt, h)
  StaysDown-cons (set_connected_call on) es s h = (tt, h)

  abbrev IsShut : UdpClient asio → Type 0
  IsShut s = asio.is_open s.socket ≡ false

  shutdown_and_close-IsShut :
      (c : Client asio)
      → asio.is_open c.socket ≡ false
      → asio.is_open (shutdown_and_close_socket false c).socket ≡ false
  unfolding shutdown_and_close_socket
  shutdown_and_close-IsShut c h = ground arith

  connect_cbk-IsShut :
      (error : ErrorCode) (s : UdpClient asio)
      → IsShut s
      → IsShut (Base.connect_cbk udp_class error s)
  unfolding Base.connect_cbk udp_class set_local_port receive
  connect_cbk-IsShut error s h =
      elim (Bool-cases (is_operation_aborted error || s.sending_blocked)) [
        | inl stopped ↦ rw (Base.connect_cbk, stopped) (shutdown_and_close-IsShut s.client h)
        | inr goes_on ↦ ground arith
      ]

  receive_cbk-IsShut :
      (error : ErrorCode) (s : UdpClient asio) → IsShut s → IsShut (receive_cbk error s)
  unfolding receive_cbk receive
  receive_cbk-IsShut error s h = ground (arith, h, shutdown_and_close-IsShut s.client h)

  send_cbk-IsShut :
      (error : ErrorCode) (s : UdpClient asio)
      → loses_connection error ≡ false
      → IsShut s
      → IsShut (Base.send_cbk udp_class error s)
  unfolding Base.send_cbk udp_class
  send_cbk-IsShut broken_pipe s fine h = absurd (ground arith)
  send_cbk-IsShut not_connected s fine h = absurd (ground arith)
  send_cbk-IsShut bad_descriptor s fine h = absurd (ground arith)
  send_cbk-IsShut no_permission s fine h = absurd (ground arith)
  send_cbk-IsShut operation_aborted s fine h = shutdown_and_close-IsShut _ h
  send_cbk-IsShut destination_address_required s fine h = h
  send_cbk-IsShut _ s fine h = h

  handle-IsShut :
      (op : Op) (error : ErrorCode) (sender : Endpoint asio.Address) (s : UdpClient asio)
      → stays_down (some op) error ≡ true
      → IsShut s
      → IsShut (handle op error sender s)
  unfolding handle Base.wait_connect_cbk
  handle-IsShut connect_op error sender s fine h = connect_cbk-IsShut error s h
  handle-IsShut (post_connect e) error sender s fine h = connect_cbk-IsShut e s h
  handle-IsShut (receive_op filled amount) error sender s fine h =
      receive_cbk-IsShut error _ (ground (arith, h))
  handle-IsShut (send_op message) error sender s fine h =
      send_cbk-IsShut error s (ground (arith, fine)) h
  handle-IsShut (wait_connect_op ms) error sender s fine h = ground (arith, fine, h)
  handle-IsShut (wait_sent_op ms) error sender s fine h = h

  step-IsShut :
      (e : Event asio.Address) (s : UdpClient asio)
      → StaysDown (e ∷ []) s
      → IsShut s
      → IsShut (step e s)
  unfolding step send_data complete set_established set_connected
  step-IsShut start_call s a h = absurd a
  step-IsShut stop_call s a h = stop-is_open s.client
  step-IsShut (send_call message) s a h = h
  step-IsShut (set_established_call on) s a h = ground (arith, h)
  step-IsShut (set_connected_call on) s a h = ground (arith, h)
  step-IsShut (completion i error sender) s a h = elim (Option-cases (get_elem? s.pending i)) [
    | inl e ↦ rw (e, complete) h
    | inr (op, e) ↦ rw (e, complete) (handle-IsShut op error sender _ (rw e at a.0) h)
  ]

  run-IsShut :
      (es : List (Event asio.Address)) (s : UdpClient asio)
      → StaysDown es s
      → IsShut s
      → IsShut (run es s)
  unfolding run
  run-IsShut [] s a h = h
  run-IsShut (e ∷ es) s a h =
      let (now, then_on) = StaysDown-cons e es s a in
      run-IsShut es (step e s) then_on (step-IsShut e s now h)

  -- After stop the socket of a UDP client is closed, and it stays so whatever is called but start and
  -- however the operations end, as long as no message ends with an error after which send_cbk connects
  -- anew (broken_pipe, not_connected, bad_descriptor, no_permission), and no wait of the connect timer
  -- without an error.
  pub run_udp_client-stop :
      (es : List (Event asio.Address)) (s : UdpClient asio)
      → StaysDown (stop_call ∷ es) s
      → asio.is_open (run (stop_call ∷ es) s).socket ≡ false
  unfolding run step
  run_udp_client-stop es s a = run-IsShut es _ a (stop-is_open s.client)
