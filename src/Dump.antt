-- ===== src/Dump.antt =====
-- The hexadecimal dumps that the endpoints write of a message: the loops over `(int) buffer[i]` in
-- send, send_data, receive_cbk and handle_recv_buffer_exception. A read past the end of the vector is
-- undefined in C++, and `none` here.
pub mod RoundTrip
use endpoint.Base.{
  ℕ, zero, suc, ◌+◌, ◌++◌, Option, none, some, List, [], ◌∷◌, Text, hex_byte, get_elem?,
  if◌then◌else◌, ltb, leb, ◌&&◌,
}
use endpoint.Buffer.{MessageBuffer}

-- One round of a loop: two digits and a space.
unfoldable pub dump_byte : ℕ → Text
dump_byte b = hex_byte b ++ b' ' ∷ []

-- The dump of the bytes of a list.
pub dump : List ℕ → Text
dump [] = []
dump (b ∷ bs) = dump_byte b ++ dump bs

abbrev then_text : Option Text → Option Text → Option Text
then_text none t = none
then_text (some s) none = none
then_text (some s) (some t) = some (s ++ t)

dump_at : MessageBuffer → ℕ → Option Text
dump_at v i = elim (get_elem? v.bytes i) [ none ↦ none | some b ↦ some (dump_byte b) ]

-- for (i = first; i < first + rounds; ++i) out << v[i]
pub dump_up : MessageBuffer → ℕ → ℕ → Option Text
dump_up v first zero = some []
dump_up v first (suc rounds) = then_text (dump_at v first) (dump_up v (suc first) rounds)

-- for (i = rounds - 1; i >= 0; i--) out << v[i]
pub dump_down : MessageBuffer → ℕ → Option Text
dump_down v zero = some []
dump_down v (suc rounds) = then_text (dump_at v rounds) (dump_down v rounds)

-- The two dumps of handle_recv_buffer_exception: "Start of buffer" and "Last 16 Bytes captured".
pub exception_start : MessageBuffer → ℕ → Option Text
exception_start v filled = dump_up v 0 (if ltb filled 16 then filled else 16)

pub exception_last : MessageBuffer → ℕ → Option Text
exception_last v filled = if ltb 15 filled then dump_down v 16 else some []
