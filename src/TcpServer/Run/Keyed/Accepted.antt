-- ===== src/TcpServer/Run/Keyed/Accepted.antt =====
-- A connection that is accepted, and what the map of connections then holds.
use endpoint.Base.{
  ℕ, ◌+◌, ◌<◌, ◌≡◌, ◌≢◌, refl, not, ◌&&◌, List, [], ◌∷◌, All, get_elem?, get_elem?-lt, length,
  length-modify, Option-cases, Bool-cases, inl, inr, if◌then◌else◌, arith, ◌==◌,
}
use endpoint.Base.Maps.{All-assign_entry, assign}
use endpoint.Asio.{
  Asio, Endpoint, ErrorCode, is_error, is_operation_aborted, is_no_descriptors, is_bad_descriptor,
  no_delay, keep_alive, endpoint_discrete,
}
use endpoint.Buffer.{Memory}
use endpoint.Connection.{Connection, set_remote_info}
use endpoint.TcpServer.{TcpServer, retry_op, on_connection}
use endpoint.TcpServer.Callbacks.{accepted, accepted_at, accept_cbk}
use endpoint.TcpServer.Stop.{entries}
use endpoint.TcpServer.Run.Keyed.{
  IsKeyed, RemoteAt, awaited, RemoteAt-modify_other, RemoteAt-modify_self, entries-assign,
  keyed-assign,
}
use endpoint.TcpServer.Run.Keyed.Steps.{
  if-IsKeyed, enqueued-IsKeyed, start-IsKeyed, receive-IsKeyed,
}

-- Entries of other connections.
All-others :
    {A : Type 0} {P Q : A × ℕ → Type 0} (id : ℕ) (m : List (A × ℕ))
    → entries id m ≡ 0
    → ((entry : A × ℕ) → entry.1 ≢ id → P entry → Q entry)
    → All P m
    → All Q m
All-others id [] none f h = tt
All-others id ((a, j) ∷ m) none f h = elim (Bool-cases (j == id)) [
  | inl same ↦ absurd (ground arith)
  | inr others ↦ (f (a, j) (λ e. ground arith) h.0, All-others id m (ground arith) f h.1)
]

module _ {asio : Asio} where
  -- A connection that no entry names, and that no accept will fill any more.
  abbrev pub IsUnknown : ℕ → TcpServer asio → Type 0
  IsUnknown id s = entries id s.connections + awaited id s.pending ≡ 0

  known-IsKeyed :
      (f : Connection asio → Connection asio) (id : ℕ) (s : TcpServer asio)
      → IsUnknown id s
      → IsKeyed asio s
      → IsKeyed asio (on_connection f id s)
  known-IsKeyed f id s none h = record {
    remotes =
        All-others id s.connections (omega (arith, none))
          (λ entry n r. RemoteAt-modify_other f id s.heap entry.0 entry.1 n r) h.remotes;
    alone = h.alone;
    once = h.once;
    fresh = λ j beyond. h.fresh j (omega (arith, length-modify f id s.heap, beyond));
  }

  entered-IsKeyed :
      (remote : Endpoint asio.Address) (id : ℕ) (s : TcpServer asio)
      → RemoteAt s.heap remote id
      → id < length s.heap
      → IsUnknown id s
      → IsKeyed asio s
      → IsKeyed asio
          (record s { connections = assign (endpoint_discrete asio) remote id s.connections })
  entered-IsKeyed remote id s at made_one none h = record {
    remotes =
        All-assign_entry (endpoint_discrete asio) (λ entry. RemoteAt s.heap entry.0 entry.1) remote
          id s.connections at h.remotes;
    alone = λ other.
        keyed-assign (endpoint_discrete asio) remote other id s.connections (h.alone other);
    once = λ j.
        ground (
          arith,
          h.once j,
          none,
          entries-assign (endpoint_discrete asio) remote id j s.connections,
        );
    fresh = λ j beyond. ground (
      arith,
      h.fresh j beyond,
      entries-assign (endpoint_discrete asio) remote id j s.connections,
    );
  }

  accepted-IsKeyed :
      (memory : Memory) (id : ℕ) (c : Connection asio) (s : TcpServer asio)
      → id < length s.heap
      → IsUnknown id s
      → IsKeyed asio s
      → IsKeyed asio (accepted memory id c s)
  unfolding accepted set_remote_info
  accepted-IsKeyed memory id c s made_one none h =
      let remote = (asio.remote_endpoint c.socket).1 in
      let k1 = (asio.set_option no_delay c.socket).1 in
      let (error, k2) = asio.set_option keep_alive k1 in
      let known : Connection asio → Connection asio =
        λ d. record (set_remote_info remote d) { socket = k2 } in
      let s' = on_connection known id s in
      let h' = known-IsKeyed known id s none h in
      let entered = assign (endpoint_discrete asio) remote id s.connections in
      if-IsKeyed (not (is_error error))
        (receive-IsKeyed memory id (record s' { connections = entered })
          (entered-IsKeyed remote id s'
            (RemoteAt-modify_self known remote (λ d. refl) id s.heap made_one)
            (omega (arith, made_one, length-modify known id s.heap)) none h'))
        h'

  accepted_at-IsKeyed :
      (memory : Memory) (id : ℕ) (s : TcpServer asio)
      → IsUnknown id s
      → IsKeyed asio s
      → IsKeyed asio (accepted_at memory id s)
  accepted_at-IsKeyed memory id s none h = elim (Option-cases (get_elem? s.heap id)) [
    | inl e ↦ rw (accepted_at, e) h
    | inr (c, e) ↦
        rw (accepted_at, e) (accepted-IsKeyed memory id c s (get_elem?-lt s.heap id e) none h)
  ]

  pub accept_cbk-IsKeyed :
      (memory : Memory) (id : ℕ) (error : ErrorCode) (s : TcpServer asio)
      → IsUnknown id s
      → IsKeyed asio s
      → IsKeyed asio (accept_cbk memory id error s)
  unfolding accept_cbk
  accept_cbk-IsKeyed memory id error s none h =
      let s' = if not (is_error error) then accepted_at memory id s else s in
      let h' : IsKeyed asio s' =
        if-IsKeyed (not (is_error error)) (accepted_at-IsKeyed memory id s none h) h in
      if-IsKeyed
        (not (is_bad_descriptor error)
          && not (is_operation_aborted error)
          && not (is_no_descriptors error))
        (start-IsKeyed s' h')
        (if-IsKeyed (is_no_descriptors error) (enqueued-IsKeyed (retry_op 1000) (λ j. refl) s' h')
          h')
