-- ===== src/UdpServer/Run.antt =====
-- The UDP server's life as a list of events: calls of its public functions, and completions of what it has
-- asked of the io_service, in any order and with any outcome.
pub mod Receives
pub mod Stopped
use endpoint.Base.{ℕ, List, [], ◌∷◌}
use endpoint.Asio.{Asio, Endpoint, ErrorCode}
use endpoint.UdpServer.{UdpServer, start, receive, stop, send_data, complete}

pub data Event (Address : Type 0) : Type 0 where
  start_call receive_call stop_call : Event Address
  send_call : List ℕ → Endpoint Address → Event Address
  completion : ℕ → ErrorCode → Endpoint Address → Event Address

module _ {asio : Asio} where
  unfoldable pub step : Event asio.Address → UdpServer asio → UdpServer asio
  step start_call s = start s
  step receive_call s = receive s
  step stop_call s = stop s
  step (send_call message remote) s = send_data message remote s
  step (completion i error sender) s = complete i error sender s

  unfoldable pub run : List (Event asio.Address) → UdpServer asio → UdpServer asio
  run [] s = s
  run (e ∷ es) s = run es (step e s)
