-- ===== src/Client/Names.antt =====
-- The accessors of client_endpoint_impl.cpp. Both heirs override get_remote_address and
-- get_remote_port.
use endpoint.Base.{ℕ, Bool, true, Option, none}
use endpoint.Asio.{Asio}
use endpoint.Client.{Client}

module _ {asio : Asio} where
  unfoldable pub is_client : Client asio → Bool
  is_client c = true

  -- `none` where get_remote_address returns false.
  unfoldable pub get_remote_address : Client asio → Option asio.Address
  get_remote_address c = none

  unfoldable pub get_remote_port : Client asio → ℕ
  get_remote_port c = 0

  unfoldable pub get_local_port : Client asio → ℕ
  get_local_port c = c.local_port
