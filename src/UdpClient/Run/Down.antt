-- ===== src/UdpClient/Run/Down.antt =====
-- No callback of the UDP client reports a connection.
use endpoint.Base.{
  ℕ, ◌≡◌, false, List, [], ◌∷◌, get_elem?, erase_idx, arith, Option-cases, inl, inr,
}
use endpoint.Asio.{Asio, Endpoint, ErrorCode}
use endpoint.Client.{stop, is_established_or_connected, shutdown_and_close_socket}
use endpoint.Client.States.{IsDown}
use endpoint.UdpClient.{UdpClient, on_client, connect, start, send_data, complete}
use endpoint.UdpClient.Laws.{handle-IsDown}
use endpoint.UdpClient.Run.{
  Event, start_call, stop_call, send_call, set_established_call, set_connected_call, completion,
  step, run,
}

-- Only set_established and set_connected can report one.
abbrev pub SetsNoState : {Address : Type 0} → List (Event Address) → Type 0
SetsNoState [] = Unit {0}
SetsNoState (set_established_call on ∷ es) = ⊥
SetsNoState (set_connected_call on ∷ es) = ⊥
SetsNoState (e ∷ es) = SetsNoState es

module _ {asio : Asio} where
  start-IsDown : (s : UdpClient asio) → IsDown s.client → IsDown (start s).client
  unfolding is_established_or_connected start connect
  start-IsDown s h = ground arith

  complete-IsDown :
      (i : ℕ) (error : ErrorCode) (sender : Endpoint asio.Address) (s : UdpClient asio)
      → IsDown s.client
      → IsDown (complete i error sender s).client
  unfolding complete is_established_or_connected
  complete-IsDown i error sender s h = elim (Option-cases (get_elem? s.pending i)) [
    | inl e ↦ rw (e, complete) h
    | inr (op, e) ↦
        let taken = on_client (λ c. record c { pending = erase_idx c.pending i }) s in
        rw (e, complete) (handle-IsDown op error sender taken h)
  ]

  step-IsDown :
      (e : Event asio.Address) (es : List (Event asio.Address)) (s : UdpClient asio)
      → SetsNoState (e ∷ es)
      → IsDown s.client
      → IsDown (step e s).client × SetsNoState es
  unfolding step send_data stop shutdown_and_close_socket is_established_or_connected
  step-IsDown start_call es s n h = (start-IsDown s h, n)
  step-IsDown stop_call es s n h = (ground arith, n)
  step-IsDown (send_call message) es s n h = (ground arith, n)
  step-IsDown (set_established_call on) es s n h = absurd n
  step-IsDown (set_connected_call on) es s n h = absurd n
  step-IsDown (completion i error sender) es s n h = (complete-IsDown i error sender s h, n)

  -- Whatever is called but set_established and set_connected, and however the operations end, a UDP
  -- client that is neither established nor connected stays so.
  run_udp_client-IsDown :
      (es : List (Event asio.Address)) (s : UdpClient asio)
      → SetsNoState es
      → IsDown s.client
      → is_established_or_connected (run es s).client ≡ false
  unfolding run
  run_udp_client-IsDown [] s n h = h
  run_udp_client-IsDown (e ∷ es) s n h =
      let (down, rest) = step-IsDown e es s n h in run_udp_client-IsDown es (step e s) rest down
