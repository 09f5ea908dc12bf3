-- ===== src/Manager/Laws.antt =====
-- What the creates, finds and removes of the manager promise one another.

use endpoint.Base.{
  ℕ, ◌≡◌, Bool, false, Option, none, some, Text, if◌then◌else◌, arith, Option-cases, inl, inr,
}
use endpoint.Registry.Laws.{
  at_key, find_endpoint-register, find_endpoint-remove_endpoint, is_removable,
}
use endpoint.Manager.{
  Endpoints, Manager, create_server_endpoint, create_client_endpoint, find_server_endpoint,
  find_client_endpoint, remove_server_endpoint, remove_client_endpoint, is_unused,
}

-- What a key finds once a create has returned `made`.
abbrev pub found_after :
    {A : Type 0} → Text → ℕ → Bool → Text → ℕ → Bool → Option A → Option A → Option A
found_after ip port reliable ip' port' reliable' none old = old
found_after ip port reliable ip' port' reliable' (some ptr) old =
    at_key ip port reliable ip' port' reliable' (some ptr) old

module _ {e : Endpoints} where
  -- The endpoint that create_server_endpoint returns is the one that its key finds from then on, also
  -- when its start has thrown; every other key finds what it found, and so does every key where it
  -- returns none. The clients are not touched.
  pub find_server_endpoint-create :
      (ip ip' : Text) (port port' : ℕ) (reliable reliable' : Bool) (m : Manager e)
      → let (made, m') = create_server_endpoint ip port reliable m in
        (find_server_endpoint ip' port' reliable' m'
          ≡ found_after ip port reliable ip' port' reliable' made
              (find_server_endpoint ip' port' reliable' m))
        × (m'.client_endpoints ≡ m.client_endpoints)
  unfolding create_server_endpoint find_server_endpoint
  find_server_endpoint-create ip ip' port port' reliable reliable' m =
      elim (Option-cases (e.from_string ip)) [
        | inl p ↦ ground arith
        | inr (a, p) ↦ elim (Option-cases (e.make_server reliable a port m.store).0) [
          | inl q ↦ ground arith
          | inr (ptr, q) ↦ ground (
            arith,
            find_endpoint-register ip ip' port port' reliable reliable' ptr m.server_endpoints,
          )
        ]
      ]

  -- The same of create_client_endpoint, which returns none for an unreliable client whatever the rest.
  pub find_client_endpoint-create :
      (ip ip' remote_ip : Text) (port port' remote_port : ℕ) (reliable reliable' : Bool)
      (m : Manager e)
      → let (made, m') = create_client_endpoint ip port remote_ip remote_port reliable m in
        (find_client_endpoint ip' port' reliable' m'
          ≡ found_after ip port reliable ip' port' reliable' made
              (find_client_endpoint ip' port' reliable' m))
        × (m'.server_endpoints ≡ m.server_endpoints)
        × ((create_client_endpoint ip port remote_ip remote_port false m) ≡ (none, m))
  unfolding create_client_endpoint find_client_endpoint
  find_client_endpoint-create ip ip' remote_ip port port' remote_port reliable reliable' m =
      elim (Option-cases (e.from_string ip)) [
        | inl p ↦ ground arith
        | inr (a, p) ↦ elim (Option-cases (e.from_string remote_ip)) [
          | inl q ↦ ground arith
          | inr (b, q) ↦ elim (Option-cases (e.make_tcp_client a port b remote_port m.store).0) [
            | inl r ↦ ground arith
            | inr (ptr, r) ↦ ground (
              arith,
              find_endpoint-register ip ip' port port' reliable reliable' ptr m.client_endpoints,
            )
          ]
        ]
      ]

  -- remove_server_endpoint returns true exactly where its key finds an endpoint with use count 0; then
  -- that key finds nothing, and every other key what it found. Else nothing changes for any key.
  pub find_server_endpoint-remove :
      (ip ip' : Text) (port port' : ℕ) (reliable reliable' : Bool) (m : Manager e)
      → let done = is_removable (is_unused m) (find_server_endpoint ip port reliable m) in
        let (said, m') = remove_server_endpoint ip port reliable m in
        (said ≡ done)
        × (find_server_endpoint ip' port' reliable' m' ≡ (
            if done
            then at_key ip port reliable ip' port' reliable' none
                (find_server_endpoint ip' port' reliable' m)
            else find_server_endpoint ip' port' reliable' m))
  unfolding remove_server_endpoint find_server_endpoint
  find_server_endpoint-remove ip ip' port port' reliable reliable' m =
      find_endpoint-remove_endpoint (is_unused m) ip ip' port port' reliable reliable'
        m.server_endpoints

  -- The same of remove_client_endpoint.
  find_client_endpoint-remove :
      (ip ip' : Text) (port port' : ℕ) (reliable reliable' : Bool) (m : Manager e)
      → let done = is_removable (is_unused m) (find_client_endpoint ip port reliable m) in
        let (said, m') = remove_client_endpoint ip port reliable m in
        (said ≡ done)
        × (find_client_endpoint ip' port' reliable' m' ≡ (
            if done
            then at_key ip port reliable ip' port' reliable' none
                (find_client_endpoint ip' port' reliable' m)
            else find_client_endpoint ip' port' reliable' m))
  unfolding remove_client_endpoint find_client_endpoint
  find_client_endpoint-remove ip ip' port port' reliable reliable' m =
      find_endpoint-remove_endpoint (is_unused m) ip ip' port port' reliable reliable'
        m.client_endpoints

  -- Where create_server_endpoint returns an endpoint, it was made at the address and then started.
  pub create_server_endpoint-made :
      (ip : Text) (port : ℕ) (reliable : Bool) (ptr : e.Ptr) (m : Manager e)
      → (create_server_endpoint ip port reliable m).0 ≡ some ptr
      → (address : e.Address) × ((e.make_server reliable address port m.store).0 ≡ some ptr)
        × ((create_server_endpoint ip port reliable m).1.store
            ≡ (e.start ptr (e.make_server reliable address port m.store).1).1)
  unfolding create_server_endpoint
  create_server_endpoint-made ip port reliable ptr m returned =
      elim (Option-cases (e.from_string ip)) [
        | inl p ↦ absurd (ground arith)
        | inr (a, p) ↦ elim (Option-cases (e.make_server reliable a port m.store).0) [
          | inl q ↦ absurd (ground arith)
          | inr (ptr', q) ↦ (a, ground arith, ground arith)
        ]
      ]

  -- And its key finds it.
  pub find_server_endpoint-created :
      (ip : Text) (port : ℕ) (reliable : Bool) (ptr : e.Ptr) (m : Manager e)
      → (create_server_endpoint ip port reliable m).0 ≡ some ptr
      → find_server_endpoint ip port reliable (create_server_endpoint ip port reliable m).1
        ≡ some ptr
  find_server_endpoint-created ip port reliable ptr m returned =
      let law = (find_server_endpoint-create ip ip port port reliable reliable m).0 in
      ground (arith, law)

  -- The same of create_client_endpoint, which only returns reliable ones.
  pub create_client_endpoint-made :
      (ip remote_ip : Text) (port remote_port : ℕ) (reliable : Bool) (ptr : e.Ptr) (m : Manager e)
      → (create_client_endpoint ip port remote_ip remote_port reliable m).0 ≡ some ptr
      → (address : e.Address) × (remote : e.Address) × ((e.make_tcp_client address port remote
            remote_port m.store).0
          ≡ some ptr)
        × ((create_client_endpoint ip port remote_ip remote_port reliable m).1.store
            ≡ (e.start ptr (e.make_tcp_client address port remote remote_port m.store).1).1)
  unfolding create_client_endpoint
  create_client_endpoint-made ip remote_ip port remote_port reliable ptr m returned =
      elim (Option-cases (e.from_string ip)) [
        | inl p ↦ absurd (ground arith)
        | inr (a, p) ↦ elim (Option-cases (e.from_string remote_ip)) [
          | inl q ↦ absurd (ground arith)
          | inr (b, q) ↦ elim (Option-cases (e.make_tcp_client a port b remote_port m.store).0) [
            | inl r ↦ absurd (ground arith)
            | inr (ptr', r) ↦ (a, b, ground arith, ground arith)
          ]
        ]
      ]

  pub find_client_endpoint-created :
      (ip remote_ip : Text) (port remote_port : ℕ) (reliable : Bool) (ptr : e.Ptr) (m : Manager e)
      → (create_client_endpoint ip port remote_ip remote_port reliable m).0 ≡ some ptr
      → find_client_endpoint ip port reliable
          (create_client_endpoint ip port remote_ip remote_port reliable m).1
        ≡ some ptr
  find_client_endpoint-created ip remote_ip port remote_port reliable ptr m returned =
      let law =
        (find_client_endpoint-create ip ip remote_ip port port remote_port reliable reliable m).0 in
      ground (arith, law)
