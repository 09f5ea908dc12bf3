-- ===== src/TcpServer/Run/Wired.antt =====
-- Every number of a connection that the TCP server keeps is that of one that was made.
pub mod History
use endpoint.Base.{
  ℕ, suc, ◌+◌, ◌<◌, ◌≤◌, ◌≡◌, refl, true, false, not, ◌||◌, List, [], ◌∷◌, ◌++◌, All, All-append,
  All-erase_idx, get_elem?, erase_idx, length, length-modify, length-append, modify, arith,
  Option-cases, Bool-cases, inl, inr, ◌==◌, Bool, if◌then◌else◌, ◌∙◌, get_elem?-lt,
}
use endpoint.Base.Maps.{All-assign, assign}
use endpoint.Asio.{
  Asio, Endpoint, ErrorCode, operation_aborted, is_error, is_operation_aborted, no_delay,
  keep_alive, endpoint_discrete,
}
use endpoint.Buffer.{Memory, make_room}
use endpoint.Buffer.Bounds.{Room-cases}
use endpoint.Connection
use endpoint.Connection.{Connection, drop_buffer, sizes}
use endpoint.TcpServer.{
  TcpServer, Op, accept_op, retry_op, receive_op, write_op, start, stop, stop_all, send_data,
  receive, receive_on, handle_recv_buffer_exception, stop_and_remove_connection, remove_connection,
  remove_first, on_connection,
}
use endpoint.TcpServer.Callbacks.{
  accepted, accepted_at, accept_cbk, retry_cbk, receive_cbk, ends_connection,
  write_completion_condition, handle, complete, put_received, put_accepted,
}
use endpoint.TcpServer.Run.{
  Event, start_call, stop_call, send_call, write_round, completion, step, run,
}

-- The connection of an operation is one of the first `n`.
abbrev pub IsOf : ℕ → Op → Type 0
IsOf n (accept_op id) = id < n
IsOf n (retry_op ms) = Unit {0}
IsOf n (receive_op id filled amount) = id < n
IsOf n (write_op id message) = id < n

-- The entries of the map and the operations under way are of connections that stand in the heap.
pub record IsWired (asio : Asio) (s : TcpServer asio) : Type 0 where
  pub mapped : All (λ entry. entry.1 < length s.heap) s.connections
  pub bound : All (IsOf (length s.heap)) s.pending

IsOf-suc : (n : ℕ) (op : Op) → IsOf n op → IsOf (n + 1) op
IsOf-suc n (accept_op id) h = omega (arith, h)
IsOf-suc n (retry_op ms) h = tt
IsOf-suc n (receive_op id filled amount) h = omega (arith, h)
IsOf-suc n (write_op id message) h = omega (arith, h)

pub All-weaken :
    {A : Type 0} {P Q : A → Type 0} (xs : List A) → ((x : A) → P x → Q x) → All P xs → All Q xs
All-weaken [] f h = tt
All-weaken (x ∷ xs) f h = (f x h.0, All-weaken xs f h.1)

pub All-remove_first :
    {A : Type 0} (P : A × ℕ → Type 0) (id : ℕ) (m : List (A × ℕ))
    → All P m
    → All P (remove_first id m)
unfolding remove_first
All-remove_first P id [] h = h
All-remove_first P id ((a, j) ∷ m) h = elim (Bool-cases (j == id)) [
  | inl same ↦ rw (remove_first, same) h.1
  | inr others ↦ rw (remove_first, others) (h.0, All-remove_first P id m h.1)
]

module _ {asio : Asio} where
  -- A heap of the same size, no new entry, and perhaps one more operation.
  pub changed-IsWired :
      (f : Connection asio → Connection asio) (id : ℕ) (s : TcpServer asio)
      → IsWired asio s
      → IsWired asio (on_connection f id s)
  changed-IsWired f id s h =
      let same = length-modify f id s.heap in
      record { mapped = rw same h.mapped; bound = rw same h.bound }

  pub enqueued-IsWired :
      (op : Op) (s : TcpServer asio)
      → IsOf (length s.heap) op
      → IsWired asio s
      → IsWired asio (record s { pending = s.pending ++ op ∷ [] })
  enqueued-IsWired op s of h = record {
    mapped = h.mapped;
    bound = All-append (IsOf (length s.heap)) s.pending (op ∷ []) h.bound (of, tt);
  }

  grown-IsWired :
      (c : Connection asio) (s : TcpServer asio)
      → IsWired asio s
      → IsWired asio (record s { heap = s.heap ++ c ∷ [] })
  grown-IsWired c s h =
      let longer = length-append s.heap (c ∷ []) in
      record {
        mapped =
            rw longer (All-weaken s.connections (λ entry small. omega (arith, small)) h.mapped);
        bound = rw longer (All-weaken s.pending (IsOf-suc (length s.heap)) h.bound);
      }

  pub start-IsWired : (s : TcpServer asio) → IsWired asio s → IsWired asio (start s)
  unfolding start
  start-IsWired s h = elim (Bool-cases (asio.is_open s.acceptor)) [
    | inr shut ↦ rw (start, shut) h
    | inl opened ↦
        let c = Connection.create s.acceptor 0xffffffff 1000 in
        rw (start, opened)
          (enqueued-IsWired (accept_op (length s.heap)) (record s { heap = s.heap ++ c ∷ [] })
            (omega (arith, length-append s.heap (c ∷ []))) (grown-IsWired c s h))
  ]

  pub stop_all-length :
      (m : List (Endpoint asio.Address × ℕ)) (heap : List (Connection asio))
      → length (stop_all m heap) ≡ length heap
  unfolding stop_all
  stop_all-length [] heap = refl
  stop_all-length ((remote, id) ∷ m) heap =
      stop_all-length m (modify Connection.stop id heap) ∙ length-modify Connection.stop id heap

  pub stop-IsWired : (s : TcpServer asio) → IsWired asio s → IsWired asio (stop s)
  unfolding stop
  stop-IsWired s h = record {
    mapped = tt;
    bound = rw (stop_all-length s.connections s.heap) h.bound;
  }

  pub if-IsWired :
      (test : Bool) {s t : TcpServer asio}
      → IsWired asio s
      → IsWired asio t
      → IsWired asio (if test then s else t)
  if-IsWired true hs ht = hs
  if-IsWired false hs ht = ht

  pub remove_connection-IsWired :
      (id : ℕ) (s : TcpServer asio) → IsWired asio s → IsWired asio (remove_connection id s)
  unfolding remove_connection
  remove_connection-IsWired id s h = record {
    mapped = All-remove_first (λ entry. entry.1 < length s.heap) id s.connections h.mapped;
    bound = h.bound;
  }

  handle_recv_buffer_exception-IsWired :
      (id : ℕ) (s : TcpServer asio)
      → IsWired asio s
      → IsWired asio (handle_recv_buffer_exception id s)
  unfolding handle_recv_buffer_exception
  handle_recv_buffer_exception-IsWired id s h =
      let dropped = changed-IsWired drop_buffer id s h in
      if-IsWired s.alive (remove_connection-IsWired id (on_connection drop_buffer id s) dropped)
        dropped

  receive_on-IsWired :
      (memory : Memory) (id : ℕ) (c : Connection asio) (s : TcpServer asio)
      → id < length s.heap
      → IsWired asio s
      → IsWired asio (receive_on memory id c s)
  unfolding receive_on
  receive_on-IsWired memory id c s made_one h = elim (Bool-cases (asio.is_open c.socket)) [
    | inr shut ↦ rw (receive_on, shut) h
    | inl opened ↦
        let room =
          make_room memory (sizes c) c.recv_buffer c.recv_buffer_size c.missing_capacity
            c.shrink_count in
        elim (Room-cases room) [
          | inl (v, amount, shrinks, r) ↦
              let prepared : Connection asio → Connection asio =
                λ d. record d { recv_buffer = v; shrink_count = shrinks; missing_capacity = 0 } in
              rw (receive_on, opened, r)
                (enqueued-IsWired (receive_op id c.recv_buffer_size amount)
                  (on_connection prepared id s) (rw (length-modify prepared id s.heap) made_one)
                  (changed-IsWired prepared id s h))
          | inr (inl r) ↦ rw (receive_on, opened, r) h
          | inr (inr (v, r)) ↦
              rw (receive_on, opened, r)
                (handle_recv_buffer_exception-IsWired id _
                  (changed-IsWired (λ d. record d { recv_buffer = v }) id s h))
        ]
  ]

  pub receive-IsWired :
      (memory : Memory) (id : ℕ) (s : TcpServer asio)
      → IsWired asio s
      → IsWired asio (receive memory id s)
  unfolding receive
  receive-IsWired memory id s h = elim (Option-cases (get_elem? s.heap id)) [
    | inl e ↦ rw (receive, e) h
    | inr (c, e) ↦ rw (receive, e) (receive_on-IsWired memory id c s (get_elem?-lt s.heap id e) h)
  ]
