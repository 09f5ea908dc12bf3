-- ===== src/EndpointImpl.antt =====
-- endpoint_impl.h and endpoint_impl.cpp: the part that every endpoint has.
pub mod Counts
use endpoint.Base.{ℕ, ◌+◌, ◌-◌, ◌%◌, ◌^◌, Bool, ltb, if◌then◌else◌}
use endpoint.Asio.{Asio, Endpoint}

-- `use_count` is a uint32_t. `sending_blocked` is read and written by the client endpoints and
-- declared by no class; it stands here as a flag.
pub record EndpointImpl (asio : Asio) : Type 0 where
  pub use_count : ℕ
  pub local : Endpoint asio.Address
  pub sending_blocked : Bool

module _ {asio : Asio} where
  unfoldable pub increment_use_count : EndpointImpl asio → EndpointImpl asio
  increment_use_count p = record p { use_count = (p.use_count + 1) % 2 ^ 32 }

  unfoldable pub decrement_use_count : EndpointImpl asio → EndpointImpl asio
  decrement_use_count p = if ltb 0 p.use_count then record p { use_count = p.use_count - 1 } else p

  unfoldable pub get_use_count : EndpointImpl asio → ℕ
  get_use_count p = p.use_count
