-- ===== src/TcpServer/Writes.antt =====
-- The async_write of connection::send_data.
use endpoint.Base.{ℕ, suc, ◌-◌, ◌^◌, ◌≤◌, ◌<◌, ◌≡◌, refl, true, List, ◌⊎◌, length, arith}
use endpoint.Asio.{Asio}
use endpoint.Buffer.{sub64}
use endpoint.TcpServer.{TcpServer}
use endpoint.TcpServer.Callbacks.{write_completion_condition}
use endpoint.TcpServer.Stop.{IsClosedAt, write_completion_condition-error}
use endpoint.Writes.{Round, Condition, Answers, AreRounds, begin, after_rounds, rounds-end}

module _ {asio : Asio} (id to_send : ℕ) where
  -- The condition as send_data binds it.
  unfoldable pub bound_condition : Condition (TcpServer asio)
  bound_condition error transferred s = write_completion_condition id error transferred to_send s

  bound_condition-Answers :
      to_send < 2 ^ 32
      → Answers bound_condition to_send (λ s. s.alive ≡ true) (λ s. IsClosedAt asio id s.heap)
  unfolding bound_condition write_completion_condition
  bound_condition-Answers small = record {
    on_success = λ error transferred s fine le here.
        let exact : sub64 to_send transferred ≡ to_send - transferred = omega (arith, small) in
        rw (fine, exact) (refl, here);
    on_failure = λ error transferred s failed here.
        let (none_left, closed, rest) =
          write_completion_condition-error asio s id id transferred to_send error failed here in
        (none_left, closed);
  }

  -- The async_write of a message of less than 2 ^ 32 bytes on a server that lives, with rounds as
  -- asio documents them, ends: it has at most one round for each byte and one that fails. At its end
  -- all bytes are written, or no more than the message is written and the socket of the connection is
  -- closed.
  pub write_terminates :
      (rounds : List Round) (s : TcpServer asio)
      → to_send < 2 ^ 32
      → s.alive ≡ true
      → AreRounds bound_condition rounds (begin bound_condition s)
      → let w = after_rounds bound_condition rounds (begin bound_condition s) in
        (length rounds ≤ suc to_send)
        × (w.transferred ≤ to_send)
        × (w.allowed ≡ 0 → (w.transferred ≡ to_send) ⊎ IsClosedAt asio id w.state.heap)
  write_terminates rounds s small here h =
      rounds-end (bound_condition-Answers small) rounds s here h
