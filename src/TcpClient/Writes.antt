-- ===== src/TcpClient/Writes.antt =====
-- The async_write of tcp_client_endpoint_impl::send_data.
use endpoint.Base.{ℕ, suc, ◌-◌, ◌^◌, ◌≤◌, ◌<◌, ◌≡◌, refl, true, List, ◌⊎◌, length, arith}
use endpoint.Asio.{ErrorCode, success, is_error}
use endpoint.Buffer.{sub64}
use endpoint.TcpClient.Callbacks.{write_completion_condition}
use endpoint.Writes.{Round, Condition, Answers, AreRounds, begin, after_rounds, rounds-end}

module _ (to_send : ℕ) where
  -- The condition as send_data binds it. It changes nothing: the state is the last error.
  unfoldable pub bound_condition : Condition ErrorCode
  bound_condition error transferred last =
      (write_completion_condition error transferred to_send, error)

  bound_condition-Answers :
      to_send < 2 ^ 32
      → Answers bound_condition to_send (λ last. Unit {0}) (λ last. is_error last ≡ true)
  unfolding bound_condition write_completion_condition
  bound_condition-Answers small = record {
    on_success = λ error transferred last fine le lives.
        let exact : sub64 to_send transferred ≡ to_send - transferred = omega (arith, small) in
        rw (fine, exact) (refl, tt);
    on_failure = λ error transferred last failed lives. (rw failed refl, failed);
  }

  -- The async_write of a message of less than 2 ^ 32 bytes by a TCP client, with rounds as asio
  -- documents them, ends: it has at most one round for each byte and one that fails. At its end all
  -- bytes are written, or no more than the message is written and the last round has failed.
  pub client_write_terminates :
      (rounds : List Round)
      → to_send < 2 ^ 32
      → AreRounds bound_condition rounds (begin bound_condition success)
      → let w = after_rounds bound_condition rounds (begin bound_condition success) in
        (length rounds ≤ suc to_send)
        × (w.transferred ≤ to_send)
        × (w.allowed ≡ 0 → (w.transferred ≡ to_send) ⊎ (is_error w.state ≡ true))
  client_write_terminates rounds small h =
      rounds-end (bound_condition-Answers small) rounds success tt h
