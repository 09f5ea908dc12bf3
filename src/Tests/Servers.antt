-- ===== src/Tests/Servers.antt =====
-- The servers at concrete inputs.
use endpoint.Base.{
  ◌⊎◌, ℕ, ◌+◌, ◌≤◌, ◌≡◌, refl, true, false, some, [], ◌∷◌, ◌++◌, get_elem?, arith, List, length,
  erase_idx,
}
use endpoint.Asio.{success, timed_out, endpoint_discrete, operation_aborted}
use endpoint.Buffer.Bounds.{IsSound}
use endpoint.Connection.{Connection, create, connection, sizes}
use endpoint.ServerEndpoint.{server_endpoint}
use endpoint.TcpServer.{TcpServer, receive_op, stop, receive, start, accept_op, send_data}
use endpoint.TcpServer.Callbacks.{put_received, complete}
use endpoint.TcpServer.Stop.{IsClosedAt, stop-IsClosedAt}
use endpoint.TcpServer.Reads.{complete-receive_op, receive-FitsCapacity}
use endpoint.TcpServer.Run.{
  Event, step, start_call, stop_call, send_call, write_round, completion, run,
}
use endpoint.TcpServer.Run.Accepted.{complete-accept_op}
use endpoint.Base.Maps.{find}
use endpoint.TcpServer.Run.Reads.{HasFour, ReadsStart}
use endpoint.TcpServer.Run.History.{run_server-ReadsStart, run_server-ready}
use endpoint.TcpServer.Run.Stopped.{run_server-stop}
use endpoint.Buffer.{make_room, ready}
use endpoint.Tests.Worlds.{world, memory, impl, there}

abbrev connected : Connection world
connected = let c : Connection world = create true 0xffffffff 1000 in record c { socket = true }

-- A server with one accepted connection that reads its first four bytes.
abbrev pub serving : TcpServer world
serving = record {
  server = server_endpoint impl;
  acceptor = true;
  connections = (there, 0) ∷ [];
  heap = connected ∷ [];
  alive = true;
  pending = receive_op 0 0 4 ∷ [];
}

stop-IsClosedAt_example :
    (world.is_open (stop serving).acceptor ≡ false)
    × ((stop serving).connections ≡ [])
    × IsClosedAt world 0 (stop serving).heap
stop-IsClosedAt_example = stop-IsClosedAt world serving 0 (λ e. ground arith)

complete-receive_op_example :
    complete (λ error id s. s) memory 0 success (2 ∷ 253 ∷ []) serving
    ≡ put_received 0 0 4 (2 ∷ 253 ∷ []) (record serving { pending = [] })
complete-receive_op_example =
    complete-receive_op (λ error id s. s) memory 0 0 0 4 (2 ∷ 253 ∷ []) success serving refl refl

connected-IsSound : IsSound connected.recv_buffer
unfolding create connection
connected-IsSound = record { held = omega arith; addressable = omega arith }

connected-size : connected.recv_buffer_size ≤ connected.recv_buffer.capacity
unfolding create connection
connected-size = omega arith

receive-FitsCapacity_example :
    let s' = receive memory 0 serving in
    (s'.pending ≡ serving.pending)
    ⊎ ((amount : ℕ) × (d : Connection world) × (s'.pending
          ≡ serving.pending ++ receive_op 0 connected.recv_buffer_size amount ∷ [])
        × (get_elem? s'.heap 0 ≡ some d)
        × (connected.recv_buffer_size + amount ≤ d.recv_buffer.capacity)
        × IsSound d.recv_buffer)
receive-FitsCapacity_example =
    receive-FitsCapacity memory 0 connected serving refl connected-IsSound connected-size

serving-ReadsStart : ReadsStart world serving
unfolding create connection
serving-ReadsStart = record {
  buffers = ((refl, refl, refl, refl, refl), tt);
  reads = ((refl, refl), tt);
}

-- The same server, which has asked for another connection.
abbrev pub asking : TcpServer world
asking = start serving

asking-state :
    (get_elem? asking.pending 1 ≡ some (accept_op 1))
    × (get_elem? asking.heap 1 ≡ some (create true 0xffffffff 1000))
    × (asking.acceptor ≡ true)
unfolding start
asking-state = (refl, refl, refl)

created-HasFour : HasFour {asio = world} (create true 0xffffffff 1000)
unfolding create connection
created-HasFour = (refl, refl, refl, refl, refl)

complete-accept_op_example :
    let s' = complete (λ error id s. s) memory 1 success [] asking in
    (s'.pending
      ≡ (erase_idx asking.pending 1 ++ receive_op 1 0 4 ∷ [])
        ++ accept_op (length asking.heap) ∷ [])
    × (find (endpoint_discrete world) there s'.connections ≡ some 1)
complete-accept_op_example =
    complete-accept_op memory (λ error id s. s) 1 1 [] (create true 0xffffffff 1000) asking
      asking-state.0 asking-state.1 created-HasFour asking-state.2 refl

-- The connection reads, sends, loses a write; a new one is accepted; the server stops.
abbrev history : List Event
history =
    completion 0 success (2 ∷ 253 ∷ [])
    ∷ send_call 0 (2 ∷ [])
    ∷ write_round 0 timed_out 0 1
    ∷ start_call
    ∷ completion 1 success []
    ∷ stop_call
    ∷ []

run_server-ReadsStart_example : ReadsStart world (run (λ error id s. s) memory history serving)
run_server-ReadsStart_example =
    run_server-ReadsStart (λ error id s. s) (λ error id s h. h) memory history serving
      serving-ReadsStart

run_server-stop_example :
    let s' =
      run (λ error id s. s) memory (stop_call ∷ completion 0 operation_aborted [] ∷ []) serving in
    (world.is_open s'.acceptor ≡ false) × (s'.connections ≡ [])
run_server-stop_example =
    run_server-stop (λ error id s. s) memory (completion 0 operation_aborted [] ∷ []) serving tt

serving-connected :
    get_elem? (run (λ error id s. s) memory (send_call 0 (2 ∷ []) ∷ []) serving).heap 0
    ≡ some connected
unfolding run step send_data
serving-connected = refl

run_server-ready_example :
    make_room memory
      (sizes connected)
      connected.recv_buffer
      connected.recv_buffer_size
      connected.missing_capacity
      connected.shrink_count
    ≡ ready connected.recv_buffer 4 0
run_server-ready_example =
    run_server-ready (λ error id s. s) (λ error id s h. h) memory (send_call 0 (2 ∷ []) ∷ [])
      serving 0 connected serving-ReadsStart serving-connected
