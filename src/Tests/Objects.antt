-- ===== src/Tests/Objects.antt =====
-- A manager over the modelled endpoints, at concrete inputs.
use endpoint.Base.{◌+◌, ◌-◌, ◌==◌, ◌≡◌, refl, true, false, some, [], arith, List, get_elem?, ◌∷◌}
use endpoint.TcpServer.{tcp_server, TcpServer, accept_op, start}
use endpoint.Manager.{
  Manager, create_server_endpoint, create_client_endpoint, find_server_endpoint,
  find_client_endpoint, remove_server_endpoint,
}
use endpoint.Manager.Objects.{
  Surroundings, objects, make, construct_server, construct_client, tcp_server_object, start_object,
  new_impl,
}
use endpoint.Manager.Objects.Made.{StandsAt}
use endpoint.Manager.Objects.Serving.{IsServing, create_server_endpoint-IsServing}
use endpoint.Manager.Objects.Connecting.{IsConnecting, create_client_endpoint-IsConnecting}
use endpoint.Manager.Objects.Uses.{increments_at, decrements_at, remove_server_endpoint-uses}
use endpoint.Manager.Objects.Life.{created_server-accepts}
use endpoint.ServerEndpoint.{server_endpoint}
use endpoint.Connection.{create}
use endpoint.TcpServer.Accept.{accepts}
use endpoint.TcpServer.Run.{Event, start_call, completion, run, send_call, write_round, stop_call}
use endpoint.Asio.{success, timed_out}
use endpoint.Tests.Worlds.{world, memory}
use endpoint.Tests.Registries.{here, there}

-- The memory of a use count is zeroed.
abbrev around : Surroundings world
around = record {
  socket = λ n. false;
  use_count = λ n. 0;
  sending_blocked = λ n. false;
  is_sending = λ n. false;
}

abbrev empty : Manager (objects around)
empty = record { store = []; server_endpoints = []; client_endpoints = [] }

server-made : (create_server_endpoint here 13400 true empty).0 ≡ some 0
unfolding create_server_endpoint make construct_server tcp_server
server-made = refl

client-made : (create_client_endpoint here 13400 there 13401 true empty).0 ≡ some 0
unfolding create_client_endpoint make construct_client
client-made = refl

create_server_endpoint-IsServing_example :
    let m' = (create_server_endpoint here 13400 true empty).1 in
    StandsAt (IsServing true) 0 m'.store × (find_server_endpoint here 13400 true m' ≡ some 0)
create_server_endpoint-IsServing_example =
    create_server_endpoint-IsServing around here 13400 0 true empty server-made

create_client_endpoint-IsConnecting_example :
    let m' = (create_client_endpoint here 13400 there 13401 true empty).1 in
    StandsAt IsConnecting 0 m'.store × (find_client_endpoint here 13400 true m' ≡ some 0)
create_client_endpoint-IsConnecting_example =
    create_client_endpoint-IsConnecting around here there 13400 13401 0 true empty client-made

-- Two users, of which one has let go.
remove_server_endpoint-uses_example :
    let m' = (create_server_endpoint here 13400 true empty).1 in
    let used = record m' { store = decrements_at 1 0 (increments_at 2 0 m'.store) } in
    (remove_server_endpoint here 13400 true used).0 ≡ (0 + 2 - 1 == 0)
remove_server_endpoint-uses_example =
    remove_server_endpoint-uses around here 13400 0 2 1 true empty (omega arith) server-made

-- The server of the empty manager, which asks for its first connection.
abbrev first : TcpServer world
first = record {
  server = record {
    impl = record {
      use_count = 0;
      local = record { address = 1; port = 13400 };
      sending_blocked = false;
    };
    sent_timer = false;
    is_sending = false;
  };
  acceptor = true;
  connections = [];
  heap = create true 0xffffffff 1000 ∷ [];
  alive = true;
  pending = accept_op 0 ∷ [];
}

first-there :
    get_elem? (create_server_endpoint here 13400 true empty).1.store 0
    ≡ some (tcp_server_object first)
unfolding create_server_endpoint make construct_server new_impl tcp_server server_endpoint
    start_object start
first-there = refl

-- Its first connection is accepted, and it is started once more.
abbrev life : List Event
life = completion 0 success [] ∷ start_call ∷ []

created_server-accepts_example :
    (accepts (run (λ error id s. s) memory life first).pending ≡ 2)
    × (world.is_open (run (λ error id s. s) memory life first).acceptor ≡ true)
created_server-accepts_example =
    created_server-accepts around (λ error id s. s) (λ error id s. (refl, refl)) memory here 13400 0
      empty first life server-made first-there (refl, tt)

-- Its first connection is accepted and sends, the write fails, and the server stops.
abbrev whole_life : List Event
whole_life =
    completion 0 success []
    ∷ send_call 0 (2 ∷ [])
    ∷ write_round 0 timed_out 0 1
    ∷ start_call
    ∷ stop_call
    ∷ []
