-- ===== src/UdpServer/Run/Stopped.antt =====
-- The UDP server after stop.
use endpoint.Base.{
  ℕ, ◌+◌, ◌≡◌, false, Option, some, List, [], ◌∷◌, get_elem?, arith, Option-cases, inl, inr,
}
use endpoint.Asio.{Asio}
use endpoint.UdpServer.{
  UdpServer, Op, receive_op, send_op, start, stop, send_data, receive, receive_unicast,
  on_unicast_received, handle, complete,
}
use endpoint.UdpServer.Laws.{unicast_receives, unicast_receives-append, unicast_receives-erase_idx}
use endpoint.UdpServer.Run.{
  Event, start_call, receive_call, stop_call, send_call, completion, step, run,
}
use endpoint.UdpServer.Run.Receives.{unicast_receives-erase_send}

abbrev receives_at : {Address : Type 0} → Option (Op Address) → ℕ
receives_at (some (receive_op amount)) = 1
receives_at _ = 0

module _ {asio : Asio} where
  -- How many receives that are under way an event ends.
  abbrev ends : Event asio.Address → UdpServer asio → ℕ
  ends (completion i error sender) s = receives_at (get_elem? s.pending i)
  ends _ s = 0

  -- How many receives end in a history.
  abbrev pub ended : List (Event asio.Address) → UdpServer asio → ℕ
  ended [] s = 0
  ended (e ∷ es) s = ends e s + ended es (step e s)

  -- A closed socket stays closed, and receives nothing more.
  step-shut :
      (e : Event asio.Address) (s : UdpServer asio)
      → asio.is_open s.unicast_socket ≡ false
      → (asio.is_open (step e s).unicast_socket ≡ false)
        × (unicast_receives (step e s).pending + ends e s ≡ unicast_receives s.pending)
  unfolding step start stop send_data receive receive_unicast complete handle on_unicast_received
  step-shut start_call s shut = ground arith
  step-shut receive_call s shut = ground arith
  step-shut stop_call s shut = ground arith
  step-shut (send_call message remote) s shut =
      ground (arith, unicast_receives-append s.pending (send_op message remote ∷ []))
  step-shut (completion i error sender) s shut = elim (Option-cases (get_elem? s.pending i)) [
    | inl e ↦ rw e (ground arith)
    | inr (receive_op amount, e) ↦
        rw e (ground (arith, unicast_receives-erase_idx s.pending i amount e))
    | inr (send_op message remote, e) ↦
        rw e (ground (arith, unicast_receives-erase_send s.pending i message remote e))
  ]

  run-shut :
      (es : List (Event asio.Address)) (s : UdpServer asio)
      → asio.is_open s.unicast_socket ≡ false
      → (asio.is_open (run es s).unicast_socket ≡ false)
        × (unicast_receives (run es s).pending + ended es s ≡ unicast_receives s.pending)
  unfolding run
  run-shut [] s shut = (shut, omega arith)
  run-shut (e ∷ es) s shut =
      let (still, one) = step-shut e s shut in
      let (at_end, all) = run-shut es (step e s) still in (at_end, omega (arith, one, all))

  -- After stop the socket of a UDP server is closed for good, and no receive is started any more,
  -- whatever is called and ends afterwards, another start included: those that were under way at the
  -- stop are those still under way and those that have ended since.
  pub run_udp_server-stop :
      (es : List (Event asio.Address)) (s : UdpServer asio)
      → (asio.is_open (run (stop_call ∷ es) s).unicast_socket ≡ false)
        × (unicast_receives (run (stop_call ∷ es) s).pending + ended es (stop s)
            ≡ unicast_receives s.pending)
  unfolding run step stop
  run_udp_server-stop es s =
      run-shut es (stop s) (ground (arith, asio.close_closes (asio.shutdown s.unicast_socket).1))
