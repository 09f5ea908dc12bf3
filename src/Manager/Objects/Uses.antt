-- ===== src/Manager/Objects/Uses.antt =====
-- The use count of an endpoint that the manager has created, and whether it can be removed.
use endpoint.Manager.Objects.Made.{MadeWith, StandsAt, made-StandsAt}
use endpoint.Base.{
  ℕ, zero, suc, ◌+◌, ◌-◌, ◌^◌, ◌<◌, ◌≡◌, refl, Bool, true, false, List, some, Text,
  get_elem?-modify, length, arith, ◌==◌, ◌∙◌, ap,
}
use endpoint.Asio.{Asio, Endpoint, Outcome}
use endpoint.EndpointImpl.{EndpointImpl, increment_use_count, decrement_use_count, get_use_count}
use endpoint.EndpointImpl.Counts.{increments, decrements, get_use_count-decrements}
use endpoint.ServerEndpoint.{server_endpoint}
use endpoint.TcpServer as TcpServer
use endpoint.TcpServer.{TcpServer, tcp_server}
use endpoint.UdpServer as UdpServer
use endpoint.UdpServer.{UdpServer, udp_server, set_interface}
use endpoint.Registry.Laws.{is_removable}
use endpoint.Manager.{
  Manager, create_server_endpoint, find_server_endpoint, remove_server_endpoint, is_unused,
}
use endpoint.Manager.Laws.{
  create_server_endpoint-made, find_server_endpoint-created, find_server_endpoint-remove,
}
use endpoint.Manager.Objects.{
  Object, tcp_server_object, udp_server_object, tcp_client_object, Surroundings, start_object,
  as_object, construct_server, new_impl, objects, impl_of, set_impl, increment_at, decrement_at,
  count_at,
}

module _ {asio : Asio} where
  abbrev pub increments_at : ℕ → ℕ → List (Object asio) → List (Object asio)
  increments_at zero ptr store = store
  increments_at (suc n) ptr store = increments_at n ptr (increment_at ptr store)

  abbrev pub decrements_at : ℕ → ℕ → List (Object asio) → List (Object asio)
  decrements_at zero ptr store = store
  decrements_at (suc n) ptr store = decrements_at n ptr (decrement_at ptr store)

  -- The object at a pointer has this part.
  abbrev HasImpl : EndpointImpl asio → ℕ → List (Object asio) → Type 0
  HasImpl impl = StandsAt (λ o. impl_of o ≡ impl)

  impl_of-set_impl : (impl : EndpointImpl asio) (o : Object asio) → impl_of (set_impl impl o) ≡ impl
  impl_of-set_impl impl (tcp_server_object s) = refl
  impl_of-set_impl impl (udp_server_object s) = refl
  impl_of-set_impl impl (tcp_client_object s) = refl

  increments-HasImpl :
      (n ptr : ℕ) (impl : EndpointImpl asio) (store : List (Object asio))
      → HasImpl impl ptr store
      → HasImpl (increments n impl) ptr (increments_at n ptr store)
  unfolding increment_at
  increments-HasImpl zero ptr impl store h = h
  increments-HasImpl (suc n) ptr impl store (o, there, has) =
      increments-HasImpl n ptr (increment_use_count impl) (increment_at ptr store) (
        set_impl (increment_use_count (impl_of o)) o,
        get_elem?-modify _ ptr store there,
        impl_of-set_impl (increment_use_count (impl_of o)) o ∙ ap increment_use_count has,
      )

  decrements-HasImpl :
      (n ptr : ℕ) (impl : EndpointImpl asio) (store : List (Object asio))
      → HasImpl impl ptr store
      → HasImpl (decrements n impl) ptr (decrements_at n ptr store)
  unfolding decrement_at
  decrements-HasImpl zero ptr impl store h = h
  decrements-HasImpl (suc n) ptr impl store (o, there, has) =
      decrements-HasImpl n ptr (decrement_use_count impl) (decrement_at ptr store) (
        set_impl (decrement_use_count (impl_of o)) o,
        get_elem?-modify _ ptr store there,
        impl_of-set_impl (decrement_use_count (impl_of o)) o ∙ ap decrement_use_count has,
      )

  -- What a constructor yields keeps the part that it was given, also when it is started.
  abbrev Keeps : EndpointImpl asio → Outcome (Object asio) → Type 0
  Keeps impl = MadeWith (λ o. impl_of o ≡ impl)

  tcp_server-Keeps :
      (impl : EndpointImpl asio) (socket : asio.Socket) (local : Endpoint asio.Address)
      → Keeps impl (as_object tcp_server_object (tcp_server impl socket local))
  unfolding tcp_server server_endpoint start_object TcpServer.start
  tcp_server-Keeps impl socket local = ground arith

  udp_server-Keeps :
      (impl : EndpointImpl asio) (socket : asio.Socket) (local : Endpoint asio.Address)
      → Keeps impl (as_object udp_server_object (udp_server impl socket local))
  unfolding udp_server set_interface server_endpoint start_object UdpServer.start UdpServer.receive
      UdpServer.receive_unicast
  udp_server-Keeps impl socket local = ground arith

module _ {asio : Asio} (around : Surroundings asio) where
  construct_server-Keeps :
      (reliable : Bool) (local : Endpoint asio.Address) (n : ℕ)
      → Keeps (new_impl around n local) (construct_server around reliable local n)
  unfolding construct_server
  construct_server-Keeps true local n =
      tcp_server-Keeps (new_impl around n local) (around.socket n) local
  construct_server-Keeps false local n =
      udp_server-Keeps (new_impl around n local) (around.socket n) local

  HasImpl-count_at :
      (impl : EndpointImpl asio) (ptr : ℕ) (store : List (Object asio))
      → HasImpl impl ptr store
      → count_at around ptr store ≡ get_use_count impl
  unfolding count_at
  HasImpl-count_at impl ptr store (o, there, has) = rw (count_at, there, has) refl

  -- A server that create_server_endpoint of the manager over the modelled endpoints has returned, and
  -- that is then used n times, without passing the largest uint32_t, and let go k times, can be
  -- removed exactly where that leaves a use count of 0: counted from what the memory of use_count_
  -- held, since no constructor sets it.
  pub remove_server_endpoint-uses :
      (ip : Text) (port ptr n k : ℕ) (reliable : Bool) (m : Manager (objects around))
      → around.use_count (length m.store) + n < 2 ^ 32
      → (create_server_endpoint ip port reliable m).0 ≡ some ptr
      → let m' = (create_server_endpoint ip port reliable m).1 in
        let used = record m' { store = decrements_at k ptr (increments_at n ptr m'.store) } in
        (remove_server_endpoint ip port reliable used).0
        ≡ (around.use_count (length m.store) + n - k == 0)
  unfolding find_server_endpoint new_impl
  remove_server_endpoint-uses ip port ptr n k reliable m small e =
      let (address, returned, started) = create_server_endpoint-made ip port reliable ptr m e in
      let local : Endpoint asio.Address = record { address = address; port = port } in
      let impl = new_impl around (length m.store) local in
      let m' = (create_server_endpoint ip port reliable m).1 in
      let fresh : HasImpl impl ptr m'.store = rw started (
        made-StandsAt (λ o. impl_of o ≡ impl)
          (construct_server around reliable local (length m.store)) m.store ptr
          (construct_server-Keeps reliable local (length m.store)) returned) in
      let used : Manager (objects around) = record m' {
        store = decrements_at k ptr (increments_at n ptr m'.store);
      } in
      let count =
        HasImpl-count_at _ ptr used.store
          (decrements-HasImpl k ptr _ _ (increments-HasImpl n ptr impl m'.store fresh)) in
      let law = (find_server_endpoint-remove ip ip port port reliable reliable used).0 in
      let found = find_server_endpoint-created ip port reliable ptr m e in
      law
      ∙ ap (is_removable (is_unused used)) found
      ∙ ap (λ c. c == 0) (count ∙ get_use_count-decrements n k impl small)
