-- ===== src/Writes.antt =====
-- The rounds of an async_write of tcp_client_endpoint_impl.cpp and tcp_server_endpoint_impl.cpp.
-- async_write is asio's: after each async_write_some it asks the completion condition that it was given
-- how many bytes the next one may write, and ends when that is 0.
use endpoint.Base.{
  ℕ, suc, ◌+◌, ◌-◌, ◌≤◌, ◌≡◌, ◌≢◌, refl, true, false, List, [], ◌∷◌, ◌⊎◌, inl, inr, length, arith,
  Bool-cases,
}
use endpoint.Asio.{ErrorCode, success, is_error}

-- One async_write_some: its error, and how many bytes it has written.
abbrev pub Round : Type 0
Round = ErrorCode × ℕ

-- How far a write has come: what the condition has answered, the bytes written, and the state that the
-- condition reads and changes.
pub record Writing (S : Type 0) : Type 0 where
  pub allowed : ℕ
  pub transferred : ℕ
  pub state : S

-- A completion condition, by the error and the bytes written so far.
abbrev pub Condition : Type 0 → Type 0
Condition S = ErrorCode → ℕ → S → ℕ × S

module _ {S : Type 0} (condition : Condition S) where
  unfoldable pub ask : ErrorCode → ℕ → S → Writing S
  ask error transferred s =
      let (allowed, s') = condition error transferred s in
      record { allowed = allowed; transferred = transferred; state = s' }

  -- The condition is asked before the first round as well.
  abbrev pub begin : S → Writing S
  begin s = ask success 0 s

  abbrev pub after_round : Round → Writing S → Writing S
  after_round (error, bytes) w = ask error (w.transferred + bytes) w.state

  unfoldable pub after_rounds : List Round → Writing S → Writing S
  after_rounds [] w = w
  after_rounds (round ∷ rounds) w = after_rounds rounds (after_round round w)

  -- What asio documents: a round comes only where the answer before was not 0, it writes at most as
  -- many bytes, and at least one unless it fails.
  abbrev pub AreRounds : List Round → Writing S → Type 0
  AreRounds [] w = Unit {0}
  AreRounds (round ∷ rounds) w =
      (w.allowed ≢ 0)
      × (round.1 ≤ w.allowed)
      × (is_error round.0 ≡ false → 1 ≤ round.1)
      × AreRounds rounds (after_round round w)

-- What a condition has to answer: what is left of the message, and nothing after an error.
pub record Answers {S : Type 0} (condition : Condition S) (to_send : ℕ) (Lives Failed : S → Type 0)
    : Type 0 where
  pub on_success :
      (error : ErrorCode) (transferred : ℕ) (s : S)
      → is_error error ≡ false
      → transferred ≤ to_send
      → Lives s
      → ((condition error transferred s).0 ≡ to_send - transferred)
        × Lives (condition error transferred s).1
  pub on_failure :
      (error : ErrorCode) (transferred : ℕ) (s : S)
      → is_error error ≡ true
      → Lives s
      → ((condition error transferred s).0 ≡ 0) × Failed (condition error transferred s).1

module _ {S : Type 0} {condition : Condition S} {to_send : ℕ} {Lives Failed : S → Type 0}
    (answers : Answers condition to_send Lives Failed) where
  -- The write is as far as its answer says, or it has failed.
  abbrev IsOnItsWay : Writing S → Type 0
  IsOnItsWay w =
      (w.transferred + w.allowed ≡ to_send)
      ⊎ ((w.allowed ≡ 0) × (w.transferred ≤ to_send) × Failed w.state)

  no_more_rounds :
      (rounds : List Round) (w : Writing S)
      → w.allowed ≡ 0
      → AreRounds condition rounds w
      → rounds ≡ []
  no_more_rounds [] w e h = refl
  no_more_rounds (round ∷ rounds) w e h = absurd (h.0 e)

  -- From an answer that is what is left, so many rounds more can come, and one that fails.
  after_rounds-IsOnItsWay :
      (rounds : List Round) (w : Writing S)
      → Lives w.state
      → w.transferred + w.allowed ≡ to_send
      → AreRounds condition rounds w
      → (length rounds ≤ suc w.allowed) × IsOnItsWay (after_rounds condition rounds w)
  unfolding after_rounds ask
  after_rounds-IsOnItsWay [] w lives e h = (omega arith, inl e)
  after_rounds-IsOnItsWay ((error, bytes) ∷ rounds) w lives e h =
      let total = w.transferred + bytes in
      elim (Bool-cases (is_error error)) [
        | inl failed ↦
            let (none_left, has_failed) = answers.on_failure error total w.state failed lives in
            let over = no_more_rounds rounds (ask condition error total w.state) none_left h.3 in
            rw over (omega arith, inr (none_left, omega (arith, e, h.1), has_failed))
        | inr fine ↦
            let (left, still) =
              answers.on_success error total w.state fine (omega (arith, e, h.1)) lives in
            let (few, way) =
              after_rounds-IsOnItsWay rounds (ask condition error total w.state) still
                (omega (arith, left, e, h.1)) h.3 in
            (omega (arith, few, left, e, h.1, h.2 fine), way)
      ]

  -- What a write comes to: few rounds, and all bytes or a failure.
  pub rounds-end :
      (rounds : List Round) (s : S)
      → Lives s
      → AreRounds condition rounds (begin condition s)
      → let w = after_rounds condition rounds (begin condition s) in
        (length rounds ≤ suc to_send)
        × (w.transferred ≤ to_send)
        × (w.allowed ≡ 0 → (w.transferred ≡ to_send) ⊎ Failed w.state)
  unfolding ask
  rounds-end rounds s lives h =
      let (left, still) = answers.on_success success 0 s refl (omega arith) lives in
      let (few, way) =
        after_rounds-IsOnItsWay rounds (begin condition s) still (omega (arith, left)) h in
      (
        omega (arith, few, left),
        elim way [ inl e ↦ omega (arith, e) | inr failed ↦ failed.1 ],
        λ over. elim way [ inl e ↦ inl (omega (arith, e, over)) | inr failed ↦ inr failed.2 ],
      )
