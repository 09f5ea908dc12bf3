-- ===== src/UdpServer/Run/Receives.antt =====
-- The receives of the UDP server in every history.
use endpoint.Base.{
  ℕ, zero, suc, ◌+◌, ◌≡◌, true, false, some, List, [], ◌∷◌, get_elem?, erase_idx, arith,
  Option-cases, inl, inr,
}
use endpoint.Asio.{Asio, Endpoint, ErrorCode, is_operation_aborted}
use endpoint.UdpServer.{
  UdpServer, Op, receive_op, send_op, start, send_data, receive, receive_unicast,
  on_unicast_received, handle, complete,
}
use endpoint.UdpServer.Laws.{unicast_receives, unicast_receives-append, complete-unicast_receives}
use endpoint.UdpServer.Run.{
  Event, start_call, receive_call, stop_call, send_call, completion, step, run,
}

-- No stop, and no operation ends with operation_aborted.
abbrev pub GoesOn : {Address : Type 0} → List (Event Address) → Type 0
GoesOn [] = Unit {0}
GoesOn (stop_call ∷ es) = ⊥
GoesOn (completion i error sender ∷ es) = (is_operation_aborted error ≡ false) × GoesOn es
GoesOn (_ ∷ es) = GoesOn es

-- The calls of start and of receive.
abbrev pub starts : {Address : Type 0} → List (Event Address) → ℕ
starts [] = 0
starts (start_call ∷ es) = suc (starts es)
starts (receive_call ∷ es) = suc (starts es)
starts (_ ∷ es) = starts es

pub unicast_receives-erase_send :
    {Address : Type 0} (ops : List (Op Address)) (i : ℕ) (message : List ℕ)
    (remote : Endpoint Address)
    → get_elem? ops i ≡ some (send_op message remote)
    → unicast_receives (erase_idx ops i) ≡ unicast_receives ops
unicast_receives-erase_send [] i message remote e = absurd (ground arith)
unicast_receives-erase_send (op ∷ ops) zero message remote e = ground arith
unicast_receives-erase_send (receive_op a ∷ ops) (suc i) message remote e =
    omega (arith, unicast_receives-erase_send ops i message remote e)
unicast_receives-erase_send (send_op m r ∷ ops) (suc i) message remote e =
    unicast_receives-erase_send ops i message remote e

module _ {asio : Asio} where
  abbrev receives_of : UdpServer asio → ℕ
  receives_of s = unicast_receives s.pending

  start-receives :
      (s : UdpServer asio)
      → asio.is_open s.unicast_socket ≡ true
      → (receives_of (start s) ≡ suc (receives_of s))
        × (asio.is_open (start s).unicast_socket ≡ true)
  unfolding start receive receive_unicast
  start-receives s opened =
      ground (arith, unicast_receives-append s.pending (receive_op 0xffffffff ∷ []))

  receive-receives :
      (s : UdpServer asio)
      → asio.is_open s.unicast_socket ≡ true
      → (receives_of (receive s) ≡ suc (receives_of s))
        × (asio.is_open (receive s).unicast_socket ≡ true)
  unfolding start
  receive-receives s opened = start-receives s opened

  complete-keeps_open :
      (i : ℕ) (error : ErrorCode) (sender : Endpoint asio.Address) (s : UdpServer asio)
      → asio.is_open (complete i error sender s).unicast_socket ≡ asio.is_open s.unicast_socket
  unfolding complete handle on_unicast_received receive_unicast
  complete-keeps_open i error sender s = elim (Option-cases (get_elem? s.pending i)) [
    | inl e ↦ ground arith
    | inr (receive_op amount, e) ↦ ground arith
    | inr (send_op message remote, e) ↦ ground arith
  ]

  complete-receives_of :
      (i : ℕ) (error : ErrorCode) (sender : Endpoint asio.Address) (s : UdpServer asio)
      → is_operation_aborted error ≡ false
      → asio.is_open s.unicast_socket ≡ true
      → receives_of (complete i error sender s) ≡ receives_of s
  unfolding complete handle
  complete-receives_of i error sender s fine opened = elim (Option-cases (get_elem? s.pending i)) [
    | inl e ↦ ground arith
    | inr (receive_op amount, e) ↦
        (rw fine at (complete-unicast_receives i amount error sender s e opened))
    | inr (send_op message remote, e) ↦
        ground (arith, unicast_receives-erase_send s.pending i message remote e)
  ]

  -- In every history of a UDP server with an open socket, without a stop and without operations that
  -- are aborted, no receive is lost, whatever errors they end with: as many are under way as at the
  -- beginning and one more for each call of start and of receive; and the socket stays open.
  pub run_udp_server-receives :
      (es : List (Event asio.Address)) (s : UdpServer asio)
      → GoesOn es
      → asio.is_open s.unicast_socket ≡ true
      → (unicast_receives (run es s).pending ≡ unicast_receives s.pending + starts es)
        × (asio.is_open (run es s).unicast_socket ≡ true)
  unfolding run step send_data
  run_udp_server-receives [] s on opened = (omega arith, opened)
  run_udp_server-receives (start_call ∷ es) s on opened =
      let (more, still) = start-receives s opened in
      let (all, open_after) = run_udp_server-receives es (start s) on still in
      (omega (arith, all, more), open_after)
  run_udp_server-receives (receive_call ∷ es) s on opened =
      let (more, still) = receive-receives s opened in
      let (all, open_after) = run_udp_server-receives es (receive s) on still in
      (omega (arith, all, more), open_after)
  run_udp_server-receives (stop_call ∷ es) s on opened = absurd on
  run_udp_server-receives (send_call message remote ∷ es) s on opened =
      let same = unicast_receives-append s.pending (send_op message remote ∷ []) in
      let (all, open_after) = run_udp_server-receives es (send_data message remote s) on opened in
      (omega (arith, all, same), open_after)
  run_udp_server-receives (completion i error sender ∷ es) s on opened =
      let same = complete-receives_of i error sender s on.0 opened in
      let still : asio.is_open (complete i error sender s).unicast_socket ≡ true =
        rw (complete-keeps_open i error sender s) opened in
      let (all, open_after) = run_udp_server-receives es (complete i error sender s) on.1 still in
      (omega (arith, all, same), open_after)
