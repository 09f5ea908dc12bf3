-- ===== src/Tests/Worlds.antt =====
-- A small world: sockets that are open or not, a memory that allocates what it is asked for, and
-- endpoints that are numbers.
use endpoint.Base.{
  ℕ, suc, ◌^◌, ◌==◌, Bool, true, false, none, some, [], ℕ_discrete, if◌then◌else◌, ltb, leb,
  to_string, refl, arith,
}
use endpoint.Asio.{Asio, Endpoint, success}
use endpoint.Buffer.{Memory}
use endpoint.EndpointImpl.{EndpointImpl}
use endpoint.Manager.{Endpoints, Manager}

-- Addresses are numbers, 0 the unspecified one; a socket is whether it is open, and all calls succeed.
abbrev pub world : Asio
world = record {
  Address = ℕ;
  Socket = Bool;
  address_discrete = ℕ_discrete;
  no_endpoint = record { address = 0; port = 0 };
  is_unspecified = λ a. a == 0;
  is_v4 = λ a. true;
  is_v6 = λ a. false;
  address_text = λ a. to_string a;
  from_string = λ t. some 1;
  new_socket = λ k. false;
  is_open = λ k. k;
  open_socket = λ k. (success, true);
  set_option = λ o k. (success, k);
  get_option = λ o k. success;
  bind = λ p k. (success, k);
  listen = λ k. (success, k);
  accept = λ k. true;
  local_endpoint = λ k. (success, record { address = 1; port = 49152 });
  remote_endpoint = λ k. (success, record { address = 2; port = 13400 });
  shutdown = λ k. (success, k);
  close = λ k. (success, false);
  new_socket_closed = λ k. refl;
  open_success = λ k h. refl;
  open_already = λ k h. refl;
  set_option_keeps = λ o k. refl;
  bind_keeps = λ p k. refl;
  shutdown_keeps = λ k. refl;
  listen_keeps = λ k. refl;
  accept_opens = λ k. refl;
  close_closes = λ k. refl;
}

-- Every allocation of less than 2 ^ 20 bytes succeeds.
abbrev pub memory : Memory
memory = record {
  allocate = λ c n. if ltb n (2 ^ 20) then some n else none;
  shrink = λ c n. if leb n c then n else c;
  allocate_enough = λ c n m e. ground arith;
  allocate_addressable = λ c n m e. ground arith;
  shrink_fits = λ c n h. ground arith;
  shrink-le = λ c n. ground arith;
}

abbrev pub impl : EndpointImpl world
impl = record {
  use_count = 0;
  local = record { address = 1; port = 13400 };
  sending_blocked = false;
}

abbrev pub there : Endpoint ℕ
there = record { address = 2; port = 13400 }

-- An endpoint is a number, and the store the next one; every call succeeds and none is in use.
abbrev pub endpoints : Endpoints
endpoints = record {
  Store = ℕ;
  Ptr = ℕ;
  Address = ℕ;
  from_string = λ t. some 1;
  make_server = λ reliable address port n. (some n, suc n);
  make_tcp_client = λ address port remote remote_port n. (some n, suc n);
  start = λ ptr n. (true, n);
  use_count = λ ptr n. 0;
}

abbrev pub manager : Manager endpoints
manager = record { store = 7; server_endpoints = []; client_endpoints = [] }
