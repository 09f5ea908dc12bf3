-- ===== src/Manager/Objects/Life.antt =====
-- The life of a TCP server that the manager has created.
use endpoint.Base.{ℕ, suc, ◌≡◌, true, List, some, Text, get_elem?, arith}
use endpoint.Asio.{Asio, ErrorCode}
use endpoint.Buffer.{Memory}
use endpoint.TcpServer.{TcpServer}
use endpoint.TcpServer.Accept.{accepts}
use endpoint.TcpServer.Run.{Event, run}
use endpoint.TcpServer.Run.Accepting.{KeepsAccepting, GoesOn, starts, run_server-accepts}
use endpoint.TcpServer.Run.History.{KeepsReads}
use endpoint.TcpServer.Run.Wired.History.{KeepsWired}
use endpoint.TcpServer.Run.Keyed.History.{KeepsKeyed}
use endpoint.Manager.{Manager, create_server_endpoint}
use endpoint.Manager.Objects.{tcp_server_object, Surroundings, objects}
use endpoint.Manager.Objects.Made.{StandsAt-get_elem?}
use endpoint.Manager.Objects.Serving.{IsServing, create_server_endpoint-IsServing}

module _ {asio : Asio} (around : Surroundings asio)
    (wait : ErrorCode → ℕ → TcpServer asio → TcpServer asio)
    (waits : (error : ErrorCode) (id : ℕ) (s : TcpServer asio) → KeepsAccepting s (wait error id s))
    (memory : Memory) where
  -- The TCP server that create_server_endpoint has returned goes on listening: in every history of it
  -- without a stop, where each accept ends with none of bad_descriptor and operation_aborted and each
  -- wait after no_descriptors without an error, and where wait_until_sent keeps the acceptor and the
  -- accepts, its acceptor is open, with one accept or wait under way and one more for each further start.
  pub created_server-accepts :
      (ip : Text) (port ptr : ℕ) (m : Manager (objects around)) (s : TcpServer asio)
      (es : List Event)
      → (create_server_endpoint ip port true m).0 ≡ some ptr
      → get_elem? (create_server_endpoint ip port true m).1.store ptr ≡ some (tcp_server_object s)
      → GoesOn wait memory es s
      → (accepts (run wait memory es s).pending ≡ suc (starts es))
        × (asio.is_open (run wait memory es s).acceptor ≡ true)
  created_server-accepts ip port ptr m s es returned there on =
      let store = (create_server_endpoint ip port true m).1.store in
      let stands = (create_server_endpoint-IsServing around ip port ptr true m returned).0 in
      let (opened, one, none_yet, reads, wired, keyed) =
        StandsAt-get_elem? (IsServing true) ptr store (tcp_server_object s) stands there in
      let (all, open_after) = run_server-accepts wait waits memory es s on opened in
      (omega (arith, all, one), open_after)

-- What the parameter `wait` must keep.
pub record KeepsAll {asio : Asio} (wait : ErrorCode → ℕ → TcpServer asio → TcpServer asio)
    : Type 0 where
  pub reads : KeepsReads wait
  pub wired : KeepsWired wait
  pub keyed : KeepsKeyed wait
