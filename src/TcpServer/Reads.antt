-- ===== src/TcpServer/Reads.antt =====
-- The reads of the connections.
use endpoint.Base.{
  get_elem?-modify, refl, ℕ, ◌≡◌, false, some, get_elem?, erase_idx, arith, List, ◌≤◌, ◌∷◌, ◌⊎◌,
  ◌++◌, [], ◌+◌, Bool-cases, inr, inl,
}
use endpoint.Asio.{Asio, ErrorCode}
use endpoint.Buffer.{Memory, make_room}
use endpoint.TcpServer.{
  TcpServer, receive_op, receive, receive_on, handle_recv_buffer_exception, remove_connection,
}
use endpoint.Connection.{Connection, sizes}
use endpoint.Buffer.Bounds.{IsSound, make_room-FitsCapacity, Room-cases}
use endpoint.TcpServer.Callbacks.{put_received, complete, handle, receive_cbk, ends_connection}

module _ {asio : Asio} where
  -- A read that ends otherwise than with eof, connection_reset or timed_out changes nothing but the
  -- buffer of its connection and starts no other read, also when it has brought bytes: what follows
  -- the first read of a connection is not read.
  pub complete-receive_op :
      (wait : ErrorCode → ℕ → TcpServer asio → TcpServer asio) (memory : Memory)
      (i id filled amount : ℕ) (received : List ℕ) (error : ErrorCode) (s : TcpServer asio)
      → get_elem? s.pending i ≡ some (receive_op id filled amount)
      → ends_connection error ≡ false
      → complete wait memory i error received s
        ≡ put_received id filled amount received (record s { pending = erase_idx s.pending i })
  unfolding complete handle receive_cbk
  complete-receive_op wait memory i id filled amount received error s e stays = ground arith

  handle_recv_buffer_exception-pending :
      (id : ℕ) (s : TcpServer asio) → (handle_recv_buffer_exception id s).pending ≡ s.pending
  unfolding handle_recv_buffer_exception remove_connection
  handle_recv_buffer_exception-pending id s = ground arith

  -- A receive asks for nothing, or for bytes behind those that the buffer holds of a message and inside
  -- the memory that the buffer has then allocated.
  pub receive-FitsCapacity :
      (memory : Memory) (id : ℕ) (c : Connection asio) (s : TcpServer asio)
      → get_elem? s.heap id ≡ some c
      → IsSound c.recv_buffer
      → c.recv_buffer_size ≤ c.recv_buffer.capacity
      → let s' = receive memory id s in
        (s'.pending ≡ s.pending)
        ⊎ ((amount : ℕ) × (d : Connection asio) × (s'.pending
              ≡ s.pending ++ receive_op id c.recv_buffer_size amount ∷ [])
            × (get_elem? s'.heap id ≡ some d)
            × (c.recv_buffer_size + amount ≤ d.recv_buffer.capacity)
            × IsSound d.recv_buffer)
  unfolding receive receive_on
  receive-FitsCapacity memory id c s e sound inside = elim (Bool-cases (asio.is_open c.socket)) [
    | inr shut ↦ inl (rw (receive, e, receive_on, shut) refl)
    | inl opened ↦
        let room =
          make_room memory (sizes c) c.recv_buffer c.recv_buffer_size c.missing_capacity
            c.shrink_count in
        let fits =
          make_room-FitsCapacity memory (sizes c) c.recv_buffer c.recv_buffer_size
            c.missing_capacity c.shrink_count sound inside in
        elim (Room-cases room) [
          | inl (v, amount, shrinks, r) ↦ inr (
            amount,
            record c { recv_buffer = v; shrink_count = shrinks; missing_capacity = 0 },
            rw (receive, e, receive_on, opened, r) refl,
            rw (receive, e, receive_on, opened, r) (get_elem?-modify _ id s.heap e),
            (rw r at fits).1,
            (rw r at fits).0,
          )
          | inr (inl r) ↦ inl (rw (receive, e, receive_on, opened, r) refl)
          | inr (inr (v, r)) ↦
              inl
                (rw (receive, e, receive_on, opened, r) (handle_recv_buffer_exception-pending id _))
        ]
  ]
