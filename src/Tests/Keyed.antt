-- ===== src/Tests/Keyed.antt =====
-- The map of connections of the TCP server at concrete inputs.
use endpoint.Base.{ℕ, ◌≡◌, refl, true, List, [], ◌∷◌, arith}
use endpoint.Asio.{Endpoint, success, timed_out, eof, endpoint_discrete}
use endpoint.Connection.{Connection, create}
use endpoint.ServerEndpoint.{server_endpoint}
use endpoint.TcpServer.{TcpServer, receive_op, accept_op}
use endpoint.TcpServer.Callbacks.{write_completion_condition}
use endpoint.TcpServer.Stop.{entries, IsClosedAt}
use endpoint.TcpServer.Run.{Event, start_call, stop_call, write_round, completion, run}
use endpoint.TcpServer.Run.Keyed.{IsKeyed}
use endpoint.TcpServer.Run.Keyed.History.{run_server-IsKeyed}
use endpoint.TcpServer.Run.Keyed.Failed.{write_completion_condition-forgets}
use endpoint.Tests.Worlds.{world, memory, impl, there}

abbrev nearby : Endpoint ℕ
nearby = record { address = 3; port = 49152 }

abbrev from_remote : Endpoint ℕ → Connection world
from_remote remote =
    let c : Connection world = create true 0xffffffff 1000 in
    record c { socket = true; remote = remote }

-- Two connections that read, and an accept that is under way.
abbrev two : TcpServer world
two = record {
  server = server_endpoint impl;
  acceptor = true;
  connections = (there, 0) ∷ (nearby, 1) ∷ [];
  heap = from_remote there ∷ from_remote nearby ∷ create true 0xffffffff 1000 ∷ [];
  alive = true;
  pending = receive_op 0 0 4 ∷ receive_op 1 0 4 ∷ accept_op 2 ∷ [];
}

two-IsKeyed : IsKeyed world two
unfolding endpoint_discrete
two-IsKeyed = record {
  remotes = (refl, (refl, tt));
  alone = λ remote. ground arith;
  once = λ id. ground arith;
  fresh = λ id beyond. ground arith;
}

-- The accept ends well, for the remote endpoint of the first connection; a write of the second fails, a
-- read ends, and the server stops.
abbrev shared : List Event
shared =
    completion 2 success []
    ∷ write_round 1 timed_out 0 4
    ∷ completion 0 eof []
    ∷ stop_call
    ∷ start_call
    ∷ []

run_server-IsKeyed_example : IsKeyed world (run (λ error id s. s) memory shared two)
run_server-IsKeyed_example =
    run_server-IsKeyed (λ error id s. s) (λ error id s h. h) memory shared two two-IsKeyed

write_completion_condition-forgets_example :
    let (rest, s') = write_completion_condition 1 timed_out 2 6 two in
    (rest ≡ 0) × IsClosedAt world 1 s'.heap × (entries 0 s'.connections ≡ 1)
write_completion_condition-forgets_example =
    write_completion_condition-forgets world two 1 0 2 6 timed_out two-IsKeyed refl refl
