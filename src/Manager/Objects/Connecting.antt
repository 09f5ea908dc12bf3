-- ===== src/Manager/Objects/Connecting.antt =====
-- A client that the manager has created connects.
use endpoint.Base.{ℕ, ◌≡◌, refl, ap, Bool, false, [], ◌∷◌, some, Text, length}
use endpoint.Asio.{Asio, Endpoint, made}
use endpoint.Buffer.{size}
use endpoint.Client.{Op, client, is_established_or_connected}
use endpoint.TcpClient as TcpClient
use endpoint.TcpClient.{TcpClient, tcp_client, connect}
use endpoint.TcpClient.Connect.{IsConnect, connect_outcome, connect-asks, connect-keeps}
use endpoint.TcpClient.Run.Down.{connect-IsDown}
use endpoint.EndpointImpl.{EndpointImpl}
use endpoint.TcpClient.Run.Reads.{ReadsStart, IsConnect-ReadsFour}
use endpoint.Manager.{Manager, create_client_endpoint, find_client_endpoint}
use endpoint.Manager.Laws.{create_client_endpoint-made, find_client_endpoint-created}
use endpoint.Manager.Objects.{
  Object, tcp_client_object, Surroundings, start_object, construct_client, new_impl, objects,
}
use endpoint.Manager.Objects.Made.{StandsAt, made-StandsAt}

module _ {asio : Asio} where
  -- A TCP client that waits for the end of one connect and for nothing else, neither established nor
  -- connected, with its buffer and its reads as its history wants them at its beginning.
  abbrev pub IsConnecting : Object asio → Type 0
  IsConnecting (tcp_client_object s) =
      ((op : Op) × (s.pending ≡ op ∷ []) × IsConnect op)
      × (is_established_or_connected s.client ≡ false)
      × ReadsStart asio s
  IsConnecting o = ⊥

  -- A TCP client as it is made.
  start-IsConnecting :
      (impl : EndpointImpl asio) (socket : asio.Socket) (remote : Endpoint asio.Address)
      (sending : Bool)
      → IsConnecting (start_object (tcp_client_object (tcp_client impl socket remote sending)))
  unfolding start_object tcp_client client TcpClient.start is_established_or_connected
  start-IsConnecting impl socket remote sending =
      let s = tcp_client impl socket remote sending in
      let (asks, is_connect) = connect-asks s in
      let keeps = connect-keeps s in
      (
        (connect_outcome s, asks, is_connect),
        connect-IsDown s refl,
        record {
          length_four = ap size keeps.0;
          capacity_four = ap (λ v. v.capacity) keeps.0;
          shrinks = keeps.1;
          reads = rw asks (IsConnect-ReadsFour (connect_outcome s) is_connect, tt);
        },
      )

module _ {asio : Asio} (around : Surroundings asio) where
  -- Where create_client_endpoint of the manager over the modelled endpoints returns an endpoint, that is
  -- what the key finds, and it is a TCP client that waits for the end of exactly one connect, is neither
  -- established nor connected, and has a buffer of four bytes and no read under way.
  pub create_client_endpoint-IsConnecting :
      (ip remote_ip : Text) (port remote_port ptr : ℕ) (reliable : Bool)
      (m : Manager (objects around))
      → (create_client_endpoint ip port remote_ip remote_port reliable m).0 ≡ some ptr
      → let m' = (create_client_endpoint ip port remote_ip remote_port reliable m).1 in
        StandsAt IsConnecting ptr m'.store × (find_client_endpoint ip port reliable m' ≡ some ptr)
  unfolding construct_client
  create_client_endpoint-IsConnecting ip remote_ip port remote_port ptr reliable m e =
      let (address, remote, returned, started) =
        create_client_endpoint-made ip remote_ip port remote_port reliable ptr m e in
      let n = length m.store in
      let here : Endpoint asio.Address = record { address = address; port = port } in
      let there : Endpoint asio.Address = record { address = remote; port = remote_port } in
      (
        rw started (
            made-StandsAt IsConnecting (made (construct_client around here there n)) m.store ptr
              (start-IsConnecting (new_impl around n here) (around.socket n) there
                (around.is_sending n))
              returned),
        find_client_endpoint-created ip remote_ip port remote_port reliable ptr m e,
      )
