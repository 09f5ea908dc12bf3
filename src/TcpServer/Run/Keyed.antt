-- ===== src/TcpServer/Run/Keyed.antt =====
-- What the map of connections of the TCP server holds: under which remote endpoint, and how often.
pub mod Steps
pub mod Accepted
pub mod History
pub mod Failed
use endpoint.Base.{
  ℕ, zero, suc, ◌+◌, ◌<◌, ◌≤◌, ◌≡◌, ◌≢◌, refl, List, [], ◌∷◌, ◌++◌, All, length, modify, arith,
  ◌==◌, if◌then◌else◌, ap,
}
use endpoint.Base.Maps.{assign}
use mathlib.Core.Logic.{ite}
use endpoint.Asio.{Asio, Endpoint, endpoint_discrete}
use endpoint.Connection.{Connection}
use endpoint.TcpServer.{TcpServer, Op, accept_op, retry_op, receive_op, write_op, remove_first}
use endpoint.TcpServer.Stop.{entries}

-- How many accepts that are under way will fill a connection.
abbrev pub awaited : ℕ → List Op → ℕ
awaited id [] = 0
awaited id (accept_op j ∷ ops) = if j == id then suc (awaited id ops) else awaited id ops
awaited id (op ∷ ops) = awaited id ops

-- The connection at a number has a remote endpoint.
abbrev pub RemoteAt : {asio : Asio} → List (Connection asio) → Endpoint asio.Address → ℕ → Type 0
RemoteAt [] remote id = ⊥
RemoteAt (c ∷ heap) remote zero = c.remote ≡ remote
RemoteAt (c ∷ heap) remote (suc id) = RemoteAt heap remote id

-- Counts in a map from keys to numbers.
module _ {K : Type 0} (eq : Discrete K) where
  -- How many entries stand under a key.
  abbrev pub keyed : K → List (K × ℕ) → ℕ
  keyed k [] = 0
  keyed k ((j, id) ∷ m) = ite (eq j k) (suc (keyed k m)) (keyed k m)

  pub entries-assign :
      (k : K) (id j : ℕ) (m : List (K × ℕ))
      → entries j (assign eq k id m) ≤ entries j m + (if id == j then 1 else 0)
  unfolding assign
  entries-assign k id j [] = ground arith
  entries-assign k id j ((i, v) ∷ m) = ground (arith, entries-assign k id j m)

  keyed-assign_lem :
      (k j : K) (id : ℕ) (m : List (K × ℕ))
      → keyed j (assign eq k id m)
        ≡ ite (eq k j) (if keyed j m == 0 then 1 else keyed j m) (keyed j m)
  unfolding assign
  keyed-assign_lem k j id [] = ground arith
  keyed-assign_lem k j id ((i, v) ∷ m) = ground (arith, keyed-assign_lem k j id m)

  pub keyed-assign :
      (k j : K) (id : ℕ) (m : List (K × ℕ)) → keyed j m ≤ 1 → keyed j (assign eq k id m) ≤ 1
  keyed-assign k j id m h = ground (arith, keyed-assign_lem k j id m)

  pub keyed-remove_first :
      (k : K) (id : ℕ) (m : List (K × ℕ)) → keyed k (remove_first id m) ≤ keyed k m
  unfolding remove_first
  keyed-remove_first k id [] = omega arith
  keyed-remove_first k id ((i, v) ∷ m) = ground (arith, keyed-remove_first k id m)

-- Each entry stands under the remote endpoint of its connection, and there is one at most under each.
-- A connection has one entry at most, and none while its accept is under way, of which there is one at
-- most too.
pub record IsKeyed (asio : Asio) (s : TcpServer asio) : Type 0 where
  pub remotes : All (λ entry. RemoteAt s.heap entry.0 entry.1) s.connections
  pub alone :
      (remote : Endpoint asio.Address) → keyed (endpoint_discrete asio) remote s.connections ≤ 1
  pub once : (id : ℕ) → entries id s.connections + awaited id s.pending ≤ 1
  pub fresh : (id : ℕ) → length s.heap ≤ id → entries id s.connections + awaited id s.pending ≡ 0

pub awaited-append :
    (id : ℕ) (ops more : List Op) → awaited id (ops ++ more) ≡ awaited id ops + awaited id more
awaited-append id [] more = omega arith
awaited-append id (accept_op j ∷ ops) more = ground (arith, awaited-append id ops more)
awaited-append id (retry_op ms ∷ ops) more = awaited-append id ops more
awaited-append id (receive_op j filled amount ∷ ops) more = awaited-append id ops more
awaited-append id (write_op j message ∷ ops) more = awaited-append id ops more

module _ {asio : Asio} where
  pub RemoteAt-append :
      (heap more : List (Connection asio)) (remote : Endpoint asio.Address) (id : ℕ)
      → RemoteAt heap remote id
      → RemoteAt (heap ++ more) remote id
  RemoteAt-append [] more remote id h = absurd h
  RemoteAt-append (c ∷ heap) more remote zero h = h
  RemoteAt-append (c ∷ heap) more remote (suc id) h = RemoteAt-append heap more remote id h

  pub RemoteAt-modify :
      (f : Connection asio → Connection asio)
      → ((c : Connection asio) → (f c).remote ≡ c.remote)
      → (i : ℕ) (heap : List (Connection asio)) (remote : Endpoint asio.Address) (id : ℕ)
      → RemoteAt heap remote id
      → RemoteAt (modify f i heap) remote id
  RemoteAt-modify f keeps i [] remote id h = h
  RemoteAt-modify f keeps zero (c ∷ heap) remote zero h = ground (arith, keeps c)
  RemoteAt-modify f keeps zero (c ∷ heap) remote (suc id) h = h
  RemoteAt-modify f keeps (suc i) (c ∷ heap) remote zero h = h
  RemoteAt-modify f keeps (suc i) (c ∷ heap) remote (suc id) h =
      RemoteAt-modify f keeps i heap remote id h

  pub RemoteAt-modify_other :
      (f : Connection asio → Connection asio) (i : ℕ) (heap : List (Connection asio))
      (remote : Endpoint asio.Address) (id : ℕ)
      → id ≢ i
      → RemoteAt heap remote id
      → RemoteAt (modify f i heap) remote id
  RemoteAt-modify_other f i [] remote id n h = h
  RemoteAt-modify_other f zero (c ∷ heap) remote zero n h = absurd (n refl)
  RemoteAt-modify_other f zero (c ∷ heap) remote (suc id) n h = h
  RemoteAt-modify_other f (suc i) (c ∷ heap) remote zero n h = h
  RemoteAt-modify_other f (suc i) (c ∷ heap) remote (suc id) n h =
      RemoteAt-modify_other f i heap remote id (λ e. n (ap suc e)) h

  pub RemoteAt-modify_self :
      (f : Connection asio → Connection asio) (remote : Endpoint asio.Address)
      → ((c : Connection asio) → (f c).remote ≡ remote)
      → (i : ℕ) (heap : List (Connection asio)) → i < length heap
      → RemoteAt (modify f i heap) remote i
  RemoteAt-modify_self f remote sets i [] small = absurd (omega arith)
  RemoteAt-modify_self f remote sets zero (c ∷ heap) small = sets c
  RemoteAt-modify_self f remote sets (suc i) (c ∷ heap) small =
      RemoteAt-modify_self f remote sets i heap (omega arith)
