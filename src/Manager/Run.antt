-- ===== src/Manager/Run.antt =====
-- A sequence of calls of the functions of endpoint_manager_impl.cpp, with what each returns, and
-- between them what else happens to the endpoints.
use endpoint.Base.{ℕ, Bool, Option, List, [], ◌∷◌, Text}
use endpoint.Manager.{
  Endpoints, Manager, create_server_endpoint, create_client_endpoint, find_server_endpoint,
  find_client_endpoint, remove_server_endpoint, remove_client_endpoint,
}

pub data Call (Store : Type 0) : Type 0 where
  create_server : Text → ℕ → Bool → Call Store
  create_client : Text → ℕ → Text → ℕ → Bool → Call Store
  find_server : Text → ℕ → Bool → Call Store
  find_client : Text → ℕ → Bool → Call Store
  remove_server : Text → ℕ → Bool → Call Store
  remove_client : Text → ℕ → Bool → Call Store
  -- The endpoints themselves go on, and their users count their uses.
  elsewhere : (Store → Store) → Call Store

pub data Reply (Ptr : Type 0) : Type 0 where
  endpoint_is : Option Ptr → Reply Ptr
  removed : Bool → Reply Ptr
  no_reply : Reply Ptr

module _ {e : Endpoints} where
  unfoldable pub step : Call e.Store → Manager e → Reply e.Ptr × Manager e
  step (create_server ip port reliable) m =
      let (made, m') = create_server_endpoint ip port reliable m in (endpoint_is made, m')
  step (create_client ip port remote_ip remote_port reliable) m =
      let (made, m') = create_client_endpoint ip port remote_ip remote_port reliable m in
      (endpoint_is made, m')
  step (find_server ip port reliable) m = (endpoint_is (find_server_endpoint ip port reliable m), m)
  step (find_client ip port reliable) m = (endpoint_is (find_client_endpoint ip port reliable m), m)
  step (remove_server ip port reliable) m =
      let (said, m') = remove_server_endpoint ip port reliable m in (removed said, m')
  step (remove_client ip port reliable) m =
      let (said, m') = remove_client_endpoint ip port reliable m in (removed said, m')
  step (elsewhere f) m = (no_reply, record m { store = f m.store })

  unfoldable pub run : List (Call e.Store) → Manager e → List (Reply e.Ptr) × Manager e
  run [] m = ([], m)
  run (call ∷ calls) m =
      let (reply, m') = step call m in let (replies, m'') = run calls m' in (reply ∷ replies, m'')
