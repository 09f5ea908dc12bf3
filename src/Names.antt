-- ===== src/Names.antt =====
-- The "address:port" texts of tcp_client_endpoint_impl.cpp, udp_client_endpoint_impl.cpp and
-- tcp_server_endpoint_impl.cpp, read back.
use endpoint.Base.{
  ℕ, zero, suc, ◌+◌, ◌-◌, ◌*◌, ◌/◌, ◌%◌, ◌^◌, ◌<◌, ◌≡◌, refl, [], ◌∷◌, ◌++◌, Text, to_string,
  decimal, arith, if◌then◌else◌, ◌==◌, ltb, true, Bool-cases, inl, inr, ◌∙◌,
}
use endpoint.Asio.{Asio}
use endpoint.Connection
use endpoint.Connection.{Connection}
use endpoint.TcpClient.{TcpClient}
use endpoint.TcpClient.Names as Tcp
use endpoint.UdpClient.{UdpClient}
use endpoint.UdpClient.Names as Udp

-- A reader of the text: the number behind its last colon.
unfoldable pub read_port : ℕ → Text → ℕ
read_port n [] = n
read_port n (c ∷ t) =
    let next = read_port (n * 10 + (c - b'0')) t in
    let anew = read_port 0 t in if c == b':' then anew else next

read_port-append : (n : ℕ) (t u : Text) → read_port n (t ++ b':' ∷ u) ≡ read_port 0 u
unfolding read_port
read_port-append n [] u = refl
read_port-append n (c ∷ t) u =
    ground (arith, read_port-append 0 t u, read_port-append (n * 10 + (c - b'0')) t u)

read_port-last :
    (n d : ℕ) (t : Text) → d < 10 → read_port n (t ++ (b'0' + d) ∷ []) ≡ read_port n t * 10 + d
unfolding read_port
read_port-last n d [] small = ground arith
read_port-last n d (c ∷ t) small =
    ground (arith, read_port-last 0 d t small, read_port-last (n * 10 + (c - b'0')) d t small)

-- As many digits as the counter has are enough.
read_port-decimal : (k n : ℕ) → n < 10 ^ suc k → read_port 0 (decimal (suc k) n) ≡ n
unfolding decimal read_port
read_port-decimal zero n small =
    let digit : ltb n 10 ≡ true = ground arith in
    rw (decimal, digit) (omega (arith, read_port-last 0 n [] (omega (arith, small))))
read_port-decimal (suc k) n small = elim (Bool-cases (ltb n 10)) [
  | inl digit ↦ rw (decimal, digit) (omega (arith, read_port-last 0 n [] (ground arith)))
  | inr more ↦
      let tenth = read_port-decimal k (n / 10) (omega (arith, small)) in
      let last = read_port-last 0 (n % 10) (decimal (suc k) (n / 10)) (omega arith) in
      rw (decimal, more) (omega (arith, last, tenth))
]

read_port-to_string : (n : ℕ) → n < 2 ^ 16 → read_port 0 (to_string n) ≡ n
unfolding to_string
read_port-to_string n small = read_port-decimal 9 n (omega (arith, small))

read_back :
    (address : Text) (port : ℕ)
    → port < 2 ^ 16
    → read_port 0 (address ++ b':' ∷ to_string port) ≡ port
read_back address port small =
    read_port-append 0 address (to_string port) ∙ read_port-to_string port small

module _ {asio : Asio} where
  -- From each text that names a remote endpoint, of a TCP client, a UDP client and a connection of the
  -- TCP server, the port of that endpoint is read back, whatever the text of its address is.
  pub read_port-get_remote_information :
      (s : TcpClient asio) (u : UdpClient asio) (c : Connection asio)
      → s.remote.port < 2 ^ 16
      → s.remote_port < 2 ^ 16
      → u.remote.port < 2 ^ 16
      → u.remote_port < 2 ^ 16
      → c.remote_port < 2 ^ 16
      → (read_port 0 (Tcp.get_remote_information s) ≡ s.remote.port)
        × (read_port 0 (Tcp.get_address_port_remote s) ≡ s.remote_port)
        × (read_port 0 (Udp.get_remote_information u) ≡ u.remote.port)
        × (read_port 0 (Udp.get_address_port_remote u) ≡ u.remote_port)
        × (read_port 0 (Connection.get_address_port_remote c) ≡ c.remote_port)
  unfolding Tcp.get_remote_information Tcp.get_address_port_remote Udp.get_remote_information
      Udp.get_address_port_remote Connection.get_address_port_remote
  read_port-get_remote_information s u c hs hs' hu hu' hc = (
    read_back _ s.remote.port hs,
    read_back _ s.remote_port hs',
    read_back _ u.remote.port hu,
    read_back _ u.remote_port hu',
    read_back _ c.remote_port hc,
  )
