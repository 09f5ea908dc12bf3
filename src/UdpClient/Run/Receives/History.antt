-- ===== src/UdpClient/Run/Receives/History.antt =====
-- The histories of the UDP client, and how many receives they leave.
use endpoint.Asio.{Asio}
use endpoint.Client.Callbacks as Base
use endpoint.UdpClient.{UdpClient}
use endpoint.Client.Callbacks.{on_base, lose_connection}
