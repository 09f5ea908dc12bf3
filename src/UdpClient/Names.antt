-- ===== src/UdpClient/Names.antt =====
-- What the UDP client says of itself: the accessors and the "address:port" texts.
use endpoint.Base.{
  ℕ, Bool, false, Option, none, some, Text, ◌++◌, [], ◌∷◌, to_string, if◌then◌else◌, not, ◌&&◌,
}
use endpoint.Asio.{Asio, is_error}
use endpoint.UdpClient.{UdpClient}

module _ {asio : Asio} where
  open asio use {is_unspecified, address_text, is_open, local_endpoint}

  -- `none` where get_remote_address returns false.
  unfoldable pub get_remote_address : UdpClient asio → Option asio.Address
  get_remote_address s = if is_unspecified s.remote_address then none else some s.remote_address

  unfoldable pub get_remote_port : UdpClient asio → ℕ
  get_remote_port s = s.remote_port

  unfoldable pub is_reliable : UdpClient asio → Bool
  is_reliable s = false

  unfoldable pub is_local : UdpClient asio → Bool
  is_local s = false

  unfoldable pub get_address_port_remote : UdpClient asio → Text
  unfolding get_remote_address
  get_address_port_remote s =
      elim (get_remote_address s) [ none ↦ [] | some a ↦ address_text a ]
      ++ b':' ∷ to_string s.remote_port

  unfoldable pub get_address_port_local : UdpClient asio → Text
  get_address_port_local s =
      let (error, here) = local_endpoint s.socket in
      if is_open s.socket && not (is_error error)
      then address_text here.address ++ b':' ∷ to_string here.port
      else []

  unfoldable pub get_remote_information : UdpClient asio → Text
  get_remote_information s = address_text s.remote.address ++ b':' ∷ to_string s.remote.port
