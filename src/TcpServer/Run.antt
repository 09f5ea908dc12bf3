-- ===== src/TcpServer/Run.antt =====
-- The TCP server's life as a list of events: calls of its functions and of its connections', rounds of
-- async_write, and completions of what it has asked of the io_service, in any order and with any
-- outcome. The parameter `wait` is connection::wait_until_sent, as in Callbacks.
pub mod Accepted
pub mod Accepting
pub mod Reads
pub mod Stopped
pub mod Wired
pub mod Keyed
pub mod History
use endpoint.Base.{ℕ, List, [], ◌∷◌}
use endpoint.Asio.{Asio, ErrorCode}
use endpoint.Buffer.{Memory}
use endpoint.TcpServer.{TcpServer, start, stop, send_data}
use endpoint.TcpServer.Callbacks.{complete, write_completion_condition}

pub data Event : Type 0 where
  start_call stop_call : Event
  send_call : ℕ → List ℕ → Event
  write_round : ℕ → ErrorCode → ℕ → ℕ → Event
  completion : ℕ → ErrorCode → List ℕ → Event

module _ {asio : Asio} (wait : ErrorCode → ℕ → TcpServer asio → TcpServer asio)
    (memory : Memory) where
  unfoldable pub step : Event → TcpServer asio → TcpServer asio
  step start_call s = start s
  step stop_call s = stop s
  step (send_call id message) s = send_data id message s
  step (write_round id error transferred to_send) s =
      (write_completion_condition id error transferred to_send s).1
  step (completion i error received) s = complete wait memory i error received s

  unfoldable pub run : List Event → TcpServer asio → TcpServer asio
  run [] s = s
  run (e ∷ es) s = run es (step e s)
