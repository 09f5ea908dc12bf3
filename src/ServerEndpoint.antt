-- ===== src/ServerEndpoint.antt =====
-- server_endpoint_impl.h and server_endpoint_impl.cpp: what the TCP and the UDP server share.
use endpoint.Base.{ℕ, Bool, false, List}
use endpoint.Asio.{Asio, ErrorCode}
use endpoint.EndpointImpl.{EndpointImpl}

pub record ServerEndpoint (asio : Asio) : Type 0 where
  pub impl : EndpointImpl asio
  pub open impl use *
  pub sent_timer : Bool
  pub is_sending : Bool

module _ {asio : Asio} where
  unfoldable pub server_endpoint : EndpointImpl asio → ServerEndpoint asio
  server_endpoint impl = record { impl = impl; sent_timer = false; is_sending = false }

  unfoldable pub is_client : ServerEndpoint asio → Bool
  is_client s = false

  -- send hands the bytes on to a send_data that the class does not have and no heir has with these
  -- arguments: the parameter `send_data`.
  unfoldable send :
      (List ℕ → ServerEndpoint asio → Bool × ServerEndpoint asio)
      → List ℕ
      → ServerEndpoint asio
      → Bool × ServerEndpoint asio
  send send_data message s = send_data message s

  -- The error is only reported.
  unfoldable pub send_cbk : ErrorCode → ServerEndpoint asio → ServerEndpoint asio
  send_cbk error s = record s { is_sending = false; sent_timer = false }
