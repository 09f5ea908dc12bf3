-- ===== src/Tests/Datagrams.antt =====
-- The UDP client and the UDP server at concrete inputs.
use endpoint.Base.{ℕ, ◌+◌, ◌≡◌, refl, true, false, some, [], ◌∷◌, List, length}
use endpoint.Asio.{success, connection_refused, operation_aborted, broken_pipe, eof, bad_descriptor}
use endpoint.ServerEndpoint.{server_endpoint}
use endpoint.UdpServer as Udp_server
use endpoint.UdpServer.{UdpServer, udp_server}
use endpoint.UdpServer.Laws.{unicast_receives}
use endpoint.UdpServer.Run as Server_run
use endpoint.UdpServer.Run.Receives.{starts, run_udp_server-receives}
use endpoint.UdpServer.Run.Stopped.{ended, run_udp_server-stop}
use endpoint.Tests.Worlds.{world, impl, there}
use endpoint.Client.{set_established, stop, shutdown_and_close_socket, client, connect_op}
use endpoint.Client.Callbacks.{send_cbk, connect_cbk}
use endpoint.UdpClient as Udp_client
use endpoint.UdpClient.{UdpClient, udp_client}
use endpoint.UdpClient.Run as Client_run
use endpoint.UdpClient.Run.Stopped.{StaysDown, run_udp_client-stop}

-- A UDP client whose connect has ended, and which waits for a datagram.
abbrev listening : UdpClient world
listening =
    Udp_client.handle connect_op success there (Udp_client.start (udp_client impl false there))

-- A message is sent and lost, the client connects anew, and a receive ends with an error.
abbrev receiving_history : List (Client_run.Event ℕ)
receiving_history =
    Client_run.send_call (2 ∷ [])
    ∷ Client_run.completion 2 broken_pipe there
    ∷ Client_run.completion 1 eof there
    ∷ Client_run.completion 2 success there
    ∷ Client_run.start_call
    ∷ []

-- After a stop a receive ends that had a datagram, a message is sent and aborted, the client is told to
-- be established, and the connect is aborted.
abbrev aborted : List (Client_run.Event ℕ)
aborted =
    Client_run.completion 1 success there
    ∷ Client_run.send_call (2 ∷ [])
    ∷ Client_run.completion 1 operation_aborted there
    ∷ Client_run.set_established_call true
    ∷ Client_run.completion 0 operation_aborted there
    ∷ []

aborted-StaysDown : StaysDown (Client_run.stop_call ∷ aborted) listening
unfolding Client_run.step Udp_client.complete Udp_client.send_data Udp_client.handle udp_client
    client Udp_client.start Udp_client.connect Udp_client.connect_options connect_cbk
    Udp_client.udp_class Udp_client.set_local_port Udp_client.receive Udp_client.receive_cbk stop
    shutdown_and_close_socket set_established send_cbk
aborted-StaysDown = (refl, (refl, (refl, tt)))

run_udp_client-stop_example :
    world.is_open (Client_run.run (Client_run.stop_call ∷ aborted) listening).socket ≡ false
run_udp_client-stop_example = run_udp_client-stop aborted listening aborted-StaysDown

-- The message that is sent ends as asio ends it on a closed socket.
abbrev reopened : UdpClient world
reopened =
    Client_run.run
      (Client_run.stop_call
        ∷ Client_run.send_call (2 ∷ [])
        ∷ Client_run.completion (length listening.pending) bad_descriptor there
        ∷ [])
      listening

-- A UDP server that waits for a datagram.
abbrev waiting : UdpServer world
waiting = record {
  server = server_endpoint impl;
  unicast_socket = true;
  unicast_remote = there;
  multicast_socket = some true;
  buffer_size = 0xffffffff;
  local_port = 13400;
  pending = Udp_server.receive_op 0xffffffff ∷ [];
}

-- A message is sent and a datagram comes, then an error; the server is started and asked to receive
-- once more.
abbrev udp_history : List (Server_run.Event ℕ)
udp_history =
    Server_run.send_call (2 ∷ []) there
    ∷ Server_run.completion 0 success there
    ∷ Server_run.completion 1 connection_refused there
    ∷ Server_run.start_call
    ∷ Server_run.receive_call
    ∷ []

run_udp_server-receives_example :
    (unicast_receives (Server_run.run udp_history waiting).pending ≡ 1 + starts udp_history)
    × (world.is_open (Server_run.run udp_history waiting).unicast_socket ≡ true)
run_udp_server-receives_example =
    run_udp_server-receives udp_history waiting (refl, (refl, tt)) refl

run_udp_server-stop_example :
    (world.is_open (Server_run.run (Server_run.stop_call ∷ udp_history) waiting).unicast_socket
      ≡ false)
    × (unicast_receives (Server_run.run (Server_run.stop_call ∷ udp_history) waiting).pending
          + ended udp_history (Udp_server.stop waiting)
        ≡ 1)
run_udp_server-stop_example = run_udp_server-stop udp_history waiting
