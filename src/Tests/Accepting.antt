-- ===== src/Tests/Accepting.antt =====
-- The accepts of a server over histories at concrete inputs.
use endpoint.Base.{◌+◌, ◌≡◌, refl, true, List, [], ◌∷◌}
use endpoint.Asio.{success, timed_out}
use endpoint.TcpServer.{start}
use endpoint.TcpServer.Accept.{accepts}
use endpoint.TcpServer.Run.{Event, start_call, write_round, completion, run}
use endpoint.TcpServer.Run.Accepting.{GoesOn, starts, run_server-accepts}
use endpoint.Tests.Worlds.{world, memory}
use endpoint.Tests.Servers.{asking}

-- A connection is accepted, a write of another one fails, and the server is started once more.
abbrev accepting : List Event
accepting = completion 1 success [] ∷ write_round 0 timed_out 0 1 ∷ start_call ∷ []

accepting-GoesOn : GoesOn (λ error id s. s) memory accepting asking
unfolding start
accepting-GoesOn = (refl, tt)

asking-listens : asking.acceptor ≡ true
unfolding start
asking-listens = refl

run_server-accepts_example :
    (accepts (run (λ error id s. s) memory accepting asking).pending
      ≡ accepts asking.pending + starts accepting)
    × (world.is_open (run (λ error id s. s) memory accepting asking).acceptor ≡ true)
run_server-accepts_example =
    run_server-accepts (λ error id s. s) (λ error id s. (refl, refl)) memory accepting asking
      accepting-GoesOn asking-listens
