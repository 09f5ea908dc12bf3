-- ===== src/Tests/Writes.antt =====
-- The rounds of the writes at concrete inputs.
use endpoint.Base.{◌≤◌, ◌≡◌, refl, true, List, [], ◌∷◌, ◌⊎◌, arith}
use endpoint.Asio.{success, timed_out, is_error}
use endpoint.TcpServer.{stop_and_remove_connection, remove_connection}
use endpoint.TcpServer.Callbacks as Server
use endpoint.TcpServer.Stop.{IsClosedAt}
use endpoint.TcpServer.Writes as Server_writes
use endpoint.TcpServer.Writes.{write_terminates}
use endpoint.TcpClient.Callbacks as Client
use endpoint.TcpClient.Writes as Client_writes
use endpoint.TcpClient.Writes.{client_write_terminates}
use endpoint.Writes.{Round, AreRounds, ask, begin, after_rounds}
use endpoint.Tests.Worlds.{world}
use endpoint.Tests.Servers.{serving}

-- Six bytes in two rounds, and a third that fails.
abbrev rounds : List Round
rounds = (success, 2) ∷ (success, 3) ∷ (timed_out, 0) ∷ []

server-AreRounds :
    AreRounds
      (Server_writes.bound_condition 0 6)
      rounds
      (begin (Server_writes.bound_condition 0 6) serving)
unfolding ask Server_writes.bound_condition Server.write_completion_condition
    stop_and_remove_connection remove_connection
server-AreRounds = (
  λ e. omega (arith, e),
  omega arith,
  λ e. omega arith,
  (
    λ e. omega (arith, e),
    omega arith,
    λ e. omega arith,
    (λ e. omega (arith, e), omega arith, λ e. ground arith, tt),
  ),
)

write_terminates_example :
    let w =
      after_rounds
        (Server_writes.bound_condition 0 6)
        rounds
        (begin (Server_writes.bound_condition 0 6) serving) in
    (3 ≤ 7)
    × (w.transferred ≤ 6)
    × (w.allowed ≡ 0 → (w.transferred ≡ 6) ⊎ IsClosedAt world 0 w.state.heap)
write_terminates_example = write_terminates 0 6 rounds serving (omega arith) refl server-AreRounds

client-AreRounds :
    AreRounds
      (Client_writes.bound_condition 6)
      rounds
      (begin (Client_writes.bound_condition 6) success)
unfolding ask Client_writes.bound_condition Client.write_completion_condition
client-AreRounds = (
  λ e. omega (arith, e),
  omega arith,
  λ e. omega arith,
  (
    λ e. omega (arith, e),
    omega arith,
    λ e. omega arith,
    (λ e. omega (arith, e), omega arith, λ e. ground arith, tt),
  ),
)

client_write_terminates_example :
    let w =
      after_rounds
        (Client_writes.bound_condition 6)
        rounds
        (begin (Client_writes.bound_condition 6) success) in
    (3 ≤ 7)
    × (w.transferred ≤ 6)
    × (w.allowed ≡ 0 → (w.transferred ≡ 6) ⊎ (is_error w.state ≡ true))
client_write_terminates_example = client_write_terminates 6 rounds (omega arith) client-AreRounds
