-- ===== src/UdpClient/Run/Receives.antt =====
-- The receives of the UDP client in every history, through its connects and reconnects.
pub mod Steps
pub mod History
use endpoint.Base.{
  refl, ℕ, zero, suc, ◌+◌, ◌≤◌, ◌≡◌, true, false, not, ◌||◌, some, List, [], ◌∷◌, ◌++◌, All,
  All-append, get_elem?, erase_idx, arith, Bool-cases, inl, inr, sym, ap, Bool, Option-cases,
  if◌then◌else◌, All-get_elem?, All-erase_idx,
}
use endpoint.Asio.{
  Asio, Endpoint, is_error, is_already_open, is_operation_aborted, is_connection_refused,
  reuse_address, receive_buffer_size, ErrorCode, broken_pipe, not_connected, bad_descriptor,
  no_permission, operation_aborted, destination_address_required,
}
use endpoint.Client.{
  Op, connect_op, post_connect, receive_op, shutdown_and_close_socket, send_op, wait_connect_op,
  wait_sent_op, set_established, set_connected, Client,
}
use endpoint.Client.Callbacks as Base
use endpoint.UdpClient.{
  UdpClient, connect, connect_options, receive, udp_class, set_local_port, receive_cbk, handle,
  put_sender, on_client, complete, send_data, start,
}
use endpoint.Client.Callbacks.{on_base, lose_connection}
use endpoint.UdpClient.Run.{
  Event, start_call, stop_call, completion, run, step, send_call, set_established_call,
  set_connected_call,
}

-- The operations under way that are receives, or lead to one: the handlers of a connect.
abbrev pub chains : List Op → ℕ
chains [] = 0
chains (connect_op ∷ ops) = suc (chains ops)
chains (post_connect e ∷ ops) = suc (chains ops)
chains (receive_op filled amount ∷ ops) = suc (chains ops)
chains (_ ∷ ops) = chains ops

-- No error that a connect has posted is operation_aborted.
abbrev pub IsUnaborted : Op → Type 0
IsUnaborted (post_connect e) = is_operation_aborted e ≡ false
IsUnaborted _ = Unit {0}

-- No stop, and no operation ends with operation_aborted or connection_refused.
abbrev pub GoesOn : {Address : Type 0} → List (Event Address) → Type 0
GoesOn [] = Unit {0}
GoesOn (stop_call ∷ es) = ⊥
GoesOn (completion i error sender ∷ es) =
    (is_operation_aborted error || is_connection_refused error ≡ false) × GoesOn es
GoesOn (_ ∷ es) = GoesOn es

abbrev pub starts : {Address : Type 0} → List (Event Address) → ℕ
starts [] = 0
starts (start_call ∷ es) = suc (starts es)
starts (_ ∷ es) = starts es

pub starts-cons :
    {Address : Type 0} (e : Event Address) (es : List (Event Address))
    → starts (e ∷ es) ≡ starts (e ∷ []) + starts es
starts-cons e es = ground arith

-- Sockets can be opened, and the synchronous bind is not aborted.
pub record Opens (asio : Asio) : Type 0 where
  pub opens :
      (k : asio.Socket)
      → not (is_error (asio.open_socket k).0) || is_already_open (asio.open_socket k).0 ≡ true
  pub binds :
      (p : Endpoint asio.Address) (k : asio.Socket) → is_operation_aborted (asio.bind p k).0 ≡ false

pub chains-append : (ops more : List Op) → chains (ops ++ more) ≡ chains ops + chains more
chains-append [] more = omega arith
chains-append (connect_op ∷ ops) more = omega (arith, chains-append ops more)
chains-append (post_connect e ∷ ops) more = omega (arith, chains-append ops more)
chains-append (receive_op filled amount ∷ ops) more = omega (arith, chains-append ops more)
chains-append (_ ∷ ops) more = chains-append ops more

pub chains-erase_idx :
    (ops : List Op) (i : ℕ) {op : Op}
    → get_elem? ops i ≡ some op
    → chains ops ≡ chains (erase_idx ops i) + chains (op ∷ [])
chains-erase_idx [] i e = absurd (ground arith)
chains-erase_idx (x ∷ ops) zero {op} e =
    let same : op ≡ x = ground arith in rw same (omega (arith, chains-append (x ∷ []) ops))
chains-erase_idx (x ∷ ops) (suc i) e = omega (
  arith,
  chains-append (x ∷ []) ops,
  chains-append (x ∷ []) (erase_idx ops i),
  chains-erase_idx ops i e,
)

module _ {asio : Asio} where
  -- The socket is open, sending is not blocked, and no posted error is operation_aborted.
  pub record IsReceiving (s : UdpClient asio) : Type 0 where
    pub opened : asio.is_open s.socket ≡ true
    pub unblocked : s.sending_blocked ≡ false
    pub unaborted : All IsUnaborted s.pending

  -- From one state to the next `n` more.
  pub record Gains (n : ℕ) (s t : UdpClient asio) : Type 0 where
    pub receiving : IsReceiving t
    pub gains : chains s.pending + n ≤ chains t.pending

  pub Gains-none : {n : ℕ} {s t : UdpClient asio} → Gains n s t → Gains 0 s t
  Gains-none h = record { receiving = h.receiving; gains = omega (arith, h.gains) }

  pub if-Gains :
      (test : Bool) {n : ℕ} {s t u : UdpClient asio}
      → Gains n s t
      → Gains n s u
      → Gains n s (if test then t else u)
  if-Gains true ht hu = ht
  if-Gains false ht hu = hu

  pub same-Gains :
      (s : UdpClient asio) (c : Client asio)
      → IsReceiving s
      → c.socket ≡ s.socket
      → c.sending_blocked ≡ s.sending_blocked
      → c.pending ≡ s.pending
      → Gains 0 s (record s { client = c })
  same-Gains s c h socket blocked pending = record {
    receiving = record {
      opened = rw socket h.opened;
      unblocked = rw blocked h.unblocked;
      unaborted = rw pending h.unaborted;
    };
    gains = rw pending (omega arith);
  }

  pub receive_cbk-receive :
      (error : ErrorCode) (s : UdpClient asio)
      → is_operation_aborted error || is_connection_refused error ≡ false
      → receive_cbk error s ≡ receive s
  unfolding receive_cbk
  receive_cbk-receive error s fine = ground arith
