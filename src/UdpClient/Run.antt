-- ===== src/UdpClient/Run.antt =====
-- The UDP client's life as a list of events: calls of its public functions, and completions of what it
-- has asked of the io_service, in any order and with any outcome.
pub mod Down
pub mod Receives
pub mod Stopped
pub mod Reopened
use endpoint.Base.{ℕ, Bool, List, [], ◌∷◌}
use endpoint.Asio.{Asio, Endpoint, ErrorCode}
use endpoint.Client.{set_established, set_connected, stop}
use endpoint.UdpClient.{UdpClient, on_client, start, send_data, complete}

pub data Event (Address : Type 0) : Type 0 where
  start_call stop_call : Event Address
  send_call : List ℕ → Event Address
  set_established_call set_connected_call : Bool → Event Address
  completion : ℕ → ErrorCode → Endpoint Address → Event Address

module _ {asio : Asio} where
  unfoldable pub step : Event asio.Address → UdpClient asio → UdpClient asio
  step start_call s = start s
  step stop_call s = on_client stop s
  step (send_call message) s = send_data message s
  step (set_established_call on) s = on_client (set_established on) s
  step (set_connected_call on) s = on_client (set_connected on) s
  step (completion i error sender) s = complete i error sender s

  unfoldable pub run : List (Event asio.Address) → UdpClient asio → UdpClient asio
  run [] s = s
  run (e ∷ es) s = run es (step e s)
