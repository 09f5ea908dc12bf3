-- ===== src/TcpServer/Stop.antt =====
-- What stop does to the connections, and what is left of one that is removed.
use endpoint.Base.{
  ℕ, zero, suc, ◌-◌, ◌≡◌, refl, ◌≢◌, true, false, List, [], ◌∷◌, if◌then◌else◌, ◌==◌, modify, arith,
  Bool-cases, inl, inr,
}
use endpoint.Asio.{Asio, Endpoint, ErrorCode, is_error}
use endpoint.Connection
use endpoint.Connection.{Connection}
use endpoint.TcpServer.{
  TcpServer, stop, stop_all, remove_first, remove_connection, stop_and_remove_connection,
}
use endpoint.TcpServer.Callbacks.{write_completion_condition}

-- How many entries of connections_ hold a connection.
abbrev pub entries : {A : Type 0} → ℕ → List (A × ℕ) → ℕ
entries id [] = 0
entries id ((a, j) ∷ m) = if j == id then suc (entries id m) else entries id m

-- The connection at a number is gone, or its socket is closed.
abbrev pub IsClosedAt : (asio : Asio) → ℕ → List (Connection asio) → Type 0
IsClosedAt asio id [] = Unit {0}
IsClosedAt asio zero (c ∷ heap) = asio.is_open c.socket ≡ false
IsClosedAt asio (suc id) (c ∷ heap) = IsClosedAt asio id heap

pub entries-remove_first :
    {A : Type 0} (id j : ℕ) (m : List (A × ℕ))
    → entries j (remove_first id m) ≡ (if j == id then entries j m - 1 else entries j m)
unfolding remove_first
entries-remove_first id j [] = ground arith
entries-remove_first id j ((a, i) ∷ m) = ground (arith, entries-remove_first id j m)

module _ (asio : Asio) where
  Connection_stop-is_open : (c : Connection asio) → asio.is_open (Connection.stop c).socket ≡ false
  unfolding Connection.stop
  Connection_stop-is_open c = ground (arith, asio.close_closes (asio.shutdown c.socket).1)

  modify-IsClosedAt_self :
      (id : ℕ) (heap : List (Connection asio)) → IsClosedAt asio id (modify Connection.stop id heap)
  modify-IsClosedAt_self id [] = tt
  modify-IsClosedAt_self zero (c ∷ heap) = Connection_stop-is_open c
  modify-IsClosedAt_self (suc id) (c ∷ heap) = modify-IsClosedAt_self id heap

  modify-IsClosedAt :
      (id j : ℕ) (heap : List (Connection asio))
      → IsClosedAt asio j heap
      → IsClosedAt asio j (modify Connection.stop id heap)
  modify-IsClosedAt id j [] h = tt
  modify-IsClosedAt zero zero (c ∷ heap) h = Connection_stop-is_open c
  modify-IsClosedAt zero (suc j) (c ∷ heap) h = h
  modify-IsClosedAt (suc id) zero (c ∷ heap) h = h
  modify-IsClosedAt (suc id) (suc j) (c ∷ heap) h = modify-IsClosedAt id j heap h

  stop_all-IsClosedAt :
      (m : List (Endpoint asio.Address × ℕ)) (j : ℕ) (heap : List (Connection asio))
      → IsClosedAt asio j heap
      → IsClosedAt asio j (stop_all m heap)
  unfolding stop_all
  stop_all-IsClosedAt [] j heap h = h
  stop_all-IsClosedAt ((remote, id) ∷ m) j heap h =
      stop_all-IsClosedAt m j _ (modify-IsClosedAt id j heap h)

  stop_all-entries :
      (m : List (Endpoint asio.Address × ℕ)) (id : ℕ) (heap : List (Connection asio))
      → entries id m ≢ 0
      → IsClosedAt asio id (stop_all m heap)
  unfolding stop_all
  stop_all-entries [] id heap h = absurd (h refl)
  stop_all-entries ((remote, j) ∷ m) id heap h = elim (Bool-cases (j == id)) [
    | inl same ↦
        let e : j ≡ id = ground arith in
        rw e (stop_all-IsClosedAt m id _ (modify-IsClosedAt_self id heap))
    | inr others ↦ stop_all-entries m id _ (rw others at h)
  ]

  -- After stop the acceptor is closed, the map of connections is empty, and the socket of every
  -- connection that stood in it is closed.
  pub stop-IsClosedAt :
      (s : TcpServer asio) (id : ℕ)
      → entries id s.connections ≢ 0
      → (asio.is_open (stop s).acceptor ≡ false)
        × ((stop s).connections ≡ [])
        × IsClosedAt asio id (stop s).heap
  unfolding stop
  stop-IsClosedAt s id h = (
    ground (arith, asio.close_closes s.acceptor),
    refl,
    stop_all-entries s.connections id s.heap h,
  )

  -- An error of a write stops its connection and takes one of its entries out of the map; the entries
  -- of the other connections stay. Nothing more is written.
  pub write_completion_condition-error :
      (s : TcpServer asio) (id j transferred to_send : ℕ) (error : ErrorCode)
      → is_error error ≡ true
      → s.alive ≡ true
      → let (rest, s') = write_completion_condition id error transferred to_send s in
        (rest ≡ 0)
        × IsClosedAt asio id s'.heap
        × (entries j s'.connections
            ≡ (if j == id then entries j s.connections - 1 else entries j s.connections))
  unfolding write_completion_condition stop_and_remove_connection remove_connection
  write_completion_condition-error s id j transferred to_send error e a =
      rw (e, a, write_completion_condition, stop_and_remove_connection)
        (refl, modify-IsClosedAt_self id s.heap, entries-remove_first id j s.connections)
