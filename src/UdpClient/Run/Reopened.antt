-- ===== src/UdpClient/Run/Reopened.antt =====
-- A message that is sent through the UDP client after stop.
use endpoint.Base.{suc, ◌≡◌, true, List}
use endpoint.Asio.{Asio}
use endpoint.Client.{Op}
use endpoint.Client.Callbacks as Base
use endpoint.UdpClient.{UdpClient}
use endpoint.UdpClient.Run.Receives.{Opens, chains}

module _ {asio : Asio} (o : Opens asio) where
  -- The socket is open, and one more handler of connect_cbk is to come than among `ops`.
  abbrev IsConnecting : List Op → UdpClient asio → Type 0
  IsConnecting ops s = (asio.is_open s.socket ≡ true) × (chains s.pending ≡ suc (chains ops))
