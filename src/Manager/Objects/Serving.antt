-- ===== src/Manager/Objects/Serving.antt =====
-- A server that the manager has created serves.
use endpoint.Manager.Objects.Made.{MadeWith, StandsAt, made-StandsAt}
use endpoint.Base.{ℕ, ◌≡◌, Bool, true, false, [], some, Text, length, arith}
use endpoint.Asio.{Asio, Endpoint, Outcome, made, threw}
use endpoint.TcpServer as TcpServer
use endpoint.TcpServer.{TcpServer, tcp_server}
use endpoint.TcpServer.Accept.{accepts, IsListening, tcp_server-IsListening}
use endpoint.TcpServer.Run.Reads.{ReadsStart, start-ReadsStart}
use endpoint.TcpServer.Run.Wired.{IsWired, start-IsWired}
use endpoint.TcpServer.Run.Keyed.{IsKeyed}
use endpoint.TcpServer.Run.Keyed.Steps.{start-IsKeyed}
use endpoint.UdpServer as UdpServer
use endpoint.UdpServer.{UdpServer, udp_server}
use endpoint.UdpServer.Laws.{unicast_receives, IsReady, udp_server-IsReady}
use endpoint.Manager.{Manager, create_server_endpoint, find_server_endpoint}
use endpoint.Manager.Laws.{create_server_endpoint-made, find_server_endpoint-created}
use endpoint.Manager.Objects.{
  Object, tcp_server_object, udp_server_object, Surroundings, start_object, as_object,
  construct_server, new_impl, objects,
}

module _ {asio : Asio} where
  -- A TCP server that listens and waits for one connection, with buffers, reads, numbers of connections
  -- and a map of them as its history wants them at its beginning; or a UDP server that waits for one
  -- datagram.
  abbrev pub IsServing : Bool → Object asio → Type 0
  IsServing true (tcp_server_object s) =
      (asio.is_open s.acceptor ≡ true)
      × (accepts s.pending ≡ 1)
      × (s.connections ≡ [])
      × ReadsStart asio s
      × IsWired asio s
      × IsKeyed asio s
  IsServing false (udp_server_object s) =
      (asio.is_open s.unicast_socket ≡ true) × (unicast_receives s.pending ≡ 1)
  IsServing reliable o = ⊥

  tcp_start-IsServing :
      (s : TcpServer asio)
      → asio.is_open s.acceptor ≡ true
      → s.connections ≡ []
      → s.pending ≡ []
      → s.heap ≡ []
      → IsServing true (start_object (tcp_server_object s))
  unfolding start_object TcpServer.start
  tcp_start-IsServing s opened none_yet idle none_made =
      let reads : ReadsStart asio s = record { buffers = rw none_made tt; reads = rw idle tt } in
      let wired : IsWired asio s = record { mapped = rw none_yet tt; bound = rw idle tt } in
      let keyed : IsKeyed asio s = record {
        remotes = rw none_yet tt;
        alone = λ remote. rw none_yet (omega arith);
        once = λ id. rw (none_yet, idle) (omega arith);
        fresh = λ id beyond. rw (none_yet, idle) (omega arith);
      } in
      (
        ground arith,
        ground arith,
        ground arith,
        start-ReadsStart s reads,
        start-IsWired s wired,
        start-IsKeyed s keyed,
      )

  udp_start-IsServing :
      (s : UdpServer asio)
      → asio.is_open s.unicast_socket ≡ true
      → s.pending ≡ []
      → IsServing false (start_object (udp_server_object s))
  unfolding start_object UdpServer.start UdpServer.receive UdpServer.receive_unicast
  udp_start-IsServing s opened idle = ground arith

  tcp_server-MadeWith :
      (result : Outcome (TcpServer asio))
      → IsListening result
      → MadeWith (IsServing true) (as_object tcp_server_object result)
  tcp_server-MadeWith (made s) h = tcp_start-IsServing s h.0 h.1 h.2 h.3
  tcp_server-MadeWith (threw e) h = tt

  udp_server-MadeWith :
      (result : Outcome (UdpServer asio))
      → IsReady result
      → MadeWith (IsServing false) (as_object udp_server_object result)
  udp_server-MadeWith (made s) h = udp_start-IsServing s h.0 h.1
  udp_server-MadeWith (threw e) h = tt

  construct_server-MadeWith :
      (around : Surroundings asio) (reliable : Bool) (local : Endpoint asio.Address) (n : ℕ)
      → MadeWith (IsServing reliable) (construct_server around reliable local n)
  unfolding construct_server
  construct_server-MadeWith around true local n =
      tcp_server-MadeWith (tcp_server (new_impl around n local) (around.socket n) local)
        (tcp_server-IsListening (new_impl around n local) (around.socket n) local)
  construct_server-MadeWith around false local n =
      udp_server-MadeWith (udp_server (new_impl around n local) (around.socket n) local)
        (udp_server-IsReady (new_impl around n local) (around.socket n) local)

module _ {asio : Asio} (around : Surroundings asio) where
  -- Where create_server_endpoint of the manager over the modelled endpoints returns an endpoint, that
  -- is what the key finds, and it serves: a reliable one is a TCP server with an open acceptor, one
  -- accept under way, buffers of four bytes, no other reads than of four bytes at the start of one, and a
  -- map of connections that is empty and well keyed; another one is a UDP server with an open socket and
  -- one receive under way.
  pub create_server_endpoint-IsServing :
      (ip : Text) (port ptr : ℕ) (reliable : Bool) (m : Manager (objects around))
      → (create_server_endpoint ip port reliable m).0 ≡ some ptr
      → let m' = (create_server_endpoint ip port reliable m).1 in
        StandsAt (IsServing reliable) ptr m'.store
        × (find_server_endpoint ip port reliable m' ≡ some ptr)
  create_server_endpoint-IsServing ip port ptr reliable m e =
      let (address, returned, started) = create_server_endpoint-made ip port reliable ptr m e in
      let local : Endpoint asio.Address = record { address = address; port = port } in
      (
        rw started (
            made-StandsAt (IsServing reliable)
              (construct_server around reliable local (length m.store)) m.store ptr
              (construct_server-MadeWith around reliable local (length m.store)) returned),
        find_server_endpoint-created ip port reliable ptr m e,
      )
