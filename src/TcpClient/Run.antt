-- ===== src/TcpClient/Run.antt =====
-- The TCP client's life as a list of events: calls of its public functions, and completions of what it
-- has asked of the io_service, in any order and with any outcome.
pub mod Connected
pub mod Down
pub mod Dumps
pub mod Reads
pub mod Sending
pub mod Stopped
use endpoint.Base.{ℕ, Bool, List, [], ◌∷◌}
use endpoint.Asio.{Asio, ErrorCode}
use endpoint.Buffer.{Memory}
use endpoint.Client.{set_established, set_connected, stop}
use endpoint.TcpClient.{TcpClient, on_client, start, send, List}
use endpoint.TcpClient.Callbacks.{complete}

pub data Event : Type 0 where
  start_call stop_call : Event
  send_call : List ℕ → Event
  set_established_call set_connected_call : Bool → Event
  completion : ℕ → ErrorCode → List ℕ → Event

module _ {asio : Asio} (memory : Memory) where
  unfoldable pub step : Event → TcpClient asio → TcpClient asio
  step start_call s = start s
  step stop_call s = on_client stop s
  step (send_call message) s = send message s
  step (set_established_call on) s = on_client (set_established on) s
  step (set_connected_call on) s = on_client (set_connected on) s
  step (completion i error received) s = complete memory i error received s

  unfoldable pub run : List Event → TcpClient asio → TcpClient asio
  run [] s = s
  run (e ∷ es) s = run es (step e s)
