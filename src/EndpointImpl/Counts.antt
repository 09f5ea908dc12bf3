-- ===== src/EndpointImpl/Counts.antt =====
-- The use count of an endpoint over a run of increments and decrements.
use endpoint.Base.{ℕ, zero, suc, ◌+◌, ◌-◌, ◌^◌, ◌<◌, ◌≡◌, arith}
use endpoint.Asio.{Asio}
use endpoint.EndpointImpl.{EndpointImpl, increment_use_count, decrement_use_count, get_use_count}

module _ {asio : Asio} where
  abbrev pub increments : ℕ → EndpointImpl asio → EndpointImpl asio
  increments zero p = p
  increments (suc n) p = increments n (increment_use_count p)

  abbrev pub decrements : ℕ → EndpointImpl asio → EndpointImpl asio
  decrements zero p = p
  decrements (suc n) p = decrements n (decrement_use_count p)

  increments-use_count :
      (n : ℕ) (p : EndpointImpl asio)
      → p.use_count + n < 2 ^ 32
      → (increments n p).use_count ≡ p.use_count + n
  unfolding increment_use_count
  increments-use_count zero p small = omega arith
  increments-use_count (suc n) p small =
      let q = increment_use_count p in omega (arith, increments-use_count n q (omega arith))

  decrements-use_count :
      (n : ℕ) (p : EndpointImpl asio) → (decrements n p).use_count ≡ p.use_count - n
  unfolding decrement_use_count
  decrements-use_count zero p = omega arith
  decrements-use_count (suc n) p =
      let q = decrement_use_count p in ground (arith, decrements-use_count n q)

  -- After `n` increments that do not pass the largest uint32_t and then `m` decrements, the use count is
  -- what it was, plus `n`, minus `m`, and never below 0: the count does not wrap around downwards.
  pub get_use_count-decrements :
      (n m : ℕ) (p : EndpointImpl asio)
      → p.use_count + n < 2 ^ 32
      → get_use_count (decrements m (increments n p)) ≡ p.use_count + n - m
  unfolding get_use_count
  get_use_count-decrements n m p small =
      omega (arith, decrements-use_count m (increments n p), increments-use_count n p small)
