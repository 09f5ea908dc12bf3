-- ===== src/TcpServer/Run/Accepted.antt =====
-- What becomes of a connection that is accepted.
use endpoint.Base.{
  ℕ, ◌≡◌, refl, ap, ◌∙◌, true, false, some, List, [], ◌∷◌, ◌++◌, get_elem?, erase_idx, length,
  length-modify, get_elem?-modify,
}
use endpoint.Base.Maps.{find, assign, find-assign_self}
use endpoint.Asio.{Asio, ErrorCode, success, is_error, no_delay, keep_alive, endpoint_discrete}
use endpoint.Buffer.{Memory}
use endpoint.Connection.{Connection, set_remote_info}
use endpoint.TcpServer.{TcpServer, accept_op, receive_op, on_connection, start, receive, receive_on}
use endpoint.TcpServer.Callbacks.{accept_cbk, accepted, accepted_at, handle, complete}
use endpoint.TcpServer.Run.Reads.{HasFour, room-ready}

module _ {asio : Asio} (memory : Memory) where
  -- The sockets of the connection: as it is accepted, and with the last option.
  abbrev fresh_socket : TcpServer asio → asio.Socket
  fresh_socket s = asio.accept s.acceptor

  abbrev kept_alive : TcpServer asio → ErrorCode × asio.Socket
  kept_alive s = asio.set_option keep_alive (asio.set_option no_delay (fresh_socket s)).1

  receive-starts :
      (id : ℕ) (c : Connection asio) (s : TcpServer asio)
      → get_elem? s.heap id ≡ some c
      → HasFour c
      → asio.is_open c.socket ≡ true
      → ((receive memory id s).pending ≡ s.pending ++ receive_op id 0 4 ∷ [])
        × ((receive memory id s).connections ≡ s.connections)
        × ((receive memory id s).acceptor ≡ s.acceptor)
        × (length (receive memory id s).heap ≡ length s.heap)
  unfolding receive receive_on
  receive-starts id c s e four opened =
      rw (receive, e, receive_on, opened, room-ready memory c four)
        (
          ap (λ filled. s.pending ++ receive_op id filled 4 ∷ []) four.2,
          refl,
          refl,
          length-modify _ id s.heap,
        )

  accepted-starts :
      (id : ℕ) (c : Connection asio) (s : TcpServer asio)
      → get_elem? s.heap id ≡ some c
      → HasFour c
      → asio.is_open c.socket ≡ true
      → let k = asio.set_option keep_alive (asio.set_option no_delay c.socket).1 in
        let remote = (asio.remote_endpoint c.socket).1 in
        let s' = accepted memory id c s in
        is_error k.0 ≡ false
        → (s'.pending ≡ s.pending ++ receive_op id 0 4 ∷ [])
          × (s'.connections ≡ assign (endpoint_discrete asio) remote id s.connections)
          × (s'.acceptor ≡ s.acceptor)
          × (length s'.heap ≡ length s.heap)
  unfolding accepted set_remote_info
  accepted-starts id c s e four opened fine =
      let k1 = (asio.set_option no_delay c.socket).1 in
      let k2 = (asio.set_option keep_alive k1).1 in
      let remote = (asio.remote_endpoint c.socket).1 in
      let informed : Connection asio → Connection asio =
        λ d. record (set_remote_info remote d) { socket = k2 } in
      let s' = record (on_connection informed id s) {
        connections = assign (endpoint_discrete asio) remote id s.connections;
      } in
      let still_open =
        asio.set_option_keeps keep_alive k1 ∙ asio.set_option_keeps no_delay c.socket ∙ opened in
      let went =
        receive-starts id (informed c) s' (get_elem?-modify informed id s.heap e) four still_open in
      rw (accepted, fine) (went.0, went.1, went.2, went.3 ∙ length-modify informed id s.heap)

  start-asks :
      (s : TcpServer asio)
      → asio.is_open s.acceptor ≡ true
      → ((start s).pending ≡ s.pending ++ accept_op (length s.heap) ∷ [])
        × ((start s).connections ≡ s.connections)
  unfolding start
  start-asks s opened = rw (start, opened) (refl, refl)

  -- An accept that ends well on an open acceptor, for a connection as it was made, whose socket then
  -- takes its last option: the connection is found under its remote endpoint, and exactly one read, of
  -- four bytes to the start of its buffer, and one accept are under way in place of that accept.
  pub complete-accept_op :
      (wait : ErrorCode → ℕ → TcpServer asio → TcpServer asio) (i id : ℕ) (received : List ℕ)
      (c : Connection asio) (s : TcpServer asio)
      → get_elem? s.pending i ≡ some (accept_op id)
      → get_elem? s.heap id ≡ some c
      → HasFour c
      → asio.is_open s.acceptor ≡ true
      → is_error (kept_alive s).0 ≡ false
      → let s' = complete wait memory i success received s in
        let remote = (asio.remote_endpoint (fresh_socket s)).1 in
        (s'.pending
          ≡ (erase_idx s.pending i ++ receive_op id 0 4 ∷ []) ++ accept_op (length s.heap) ∷ [])
        × (find (endpoint_discrete asio) remote s'.connections ≡ some id)
  unfolding complete handle accept_cbk
  complete-accept_op wait i id received c s e stands four opened fine =
      let take_socket : Connection asio → Connection asio =
        λ d. record d { socket = asio.accept s.acceptor } in
      let s1 = on_connection take_socket id (record s { pending = erase_idx s.pending i }) in
      let there = get_elem?-modify take_socket id s.heap stands in
      let went =
        accepted-starts id (take_socket c) s1 there four (asio.accept_opens s.acceptor) fine in
      let after = accepted memory id (take_socket c) s1 in
      let asks = start-asks after (ap asio.is_open went.2 ∙ opened) in
      let k = endpoint_discrete asio in
      let remote = (asio.remote_endpoint (fresh_socket s)).1 in
      let same : complete wait memory i success received s ≡ start after =
        rw (complete, e, handle, accept_cbk, accepted_at, there) refl in
      rw same (
        asks.0
            ∙ ap (λ ops. ops ++ accept_op (length after.heap) ∷ []) went.0
            ∙ ap (λ n. (erase_idx s.pending i ++ receive_op id 0 4 ∷ []) ++ accept_op n ∷ [])
                (went.3 ∙ length-modify take_socket id s.heap),
        ap (find k remote) (asks.1 ∙ went.1) ∙ find-assign_self k remote id s.connections,
      )
