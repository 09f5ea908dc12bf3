-- ===== src/Tests/Clients.antt =====
-- The TCP client, the buffers and the dumps at concrete inputs.
use endpoint.Base.{
  ◌++◌, ◌≡◌, refl, true, false, some, List, [], ◌∷◌, take, get_elem?, arith, ap, erase_idx,
}
use mathlib.Core.List.{reverse}
use endpoint.Asio.{success, operation_aborted, eof, connection_refused, broken_pipe}
use endpoint.Buffer.{MessageBuffer, make_room}
use endpoint.Buffer.Bounds.{IsSound, FitsCapacity, make_room-FitsCapacity}
use endpoint.Dump.{dump, exception_last}
use endpoint.Dump.RoundTrip.{undump, undump-dump, exception_last-reverse}
use endpoint.Client.{
  client, connecting, connect_op, receive_op, is_established_or_connected, send_op,
}
use endpoint.Client.Callbacks.{connect_cbk}
use endpoint.Client.States.{IsDown}
use endpoint.TcpClient.{
  TcpClient, tcp_client, connect, start, receive, sizes, on_client, connect_options, receive_from,
  set_local_port,
}
use endpoint.TcpClient.Callbacks.{receive_cbk, put_received, handle, complete, tcp_class}
use endpoint.TcpClient.Run.{Event, run, step, start_call, stop_call, send_call, completion}
use endpoint.TcpClient.Run.Down.{run-IsDown}
use endpoint.TcpClient.Run.Stopped.{run-stop}
use endpoint.TcpClient.Run.Dumps.{receive_cbk-dump}
use endpoint.TcpClient.Run.Reads.{ReadsStart, run-ReadsStart}
use endpoint.TcpClient.Run.Sending.{run-send, run-receive_op}
use endpoint.TcpClient.Run.Connected.{complete-connect_op}
use endpoint.TcpClient.Sent.{Sent, send_op-Sent}
use endpoint.Tests.Worlds.{world, memory, impl, there}

-- A TCP client as it is made, one that connects, and one that is connected and reads.
abbrev fresh : TcpClient world
fresh = tcp_client impl false there false

abbrev opened : TcpClient world
opened = run memory (start_call ∷ []) fresh

abbrev reading : TcpClient world
reading = run memory (start_call ∷ completion 0 success [] ∷ []) fresh

-- After the connect the client reads four bytes; its state is still CONNECTING.
reading-pending : (reading.pending ≡ receive_op 0 4 ∷ []) × (reading.state ≡ connecting)
unfolding run tcp_client step client start connect connect_options complete handle connect_cbk
    tcp_class receive receive_from make_room set_local_port
reading-pending = (refl, refl)

opened-is_open : world.is_open opened.socket ≡ true
unfolding run tcp_client step client start connect connect_options
opened-is_open = refl

fresh-IsDown : IsDown fresh.client
unfolding tcp_client client is_established_or_connected
fresh-IsDown = refl

fresh-ReadsStart : ReadsStart world fresh
unfolding tcp_client client
fresh-ReadsStart = record { length_four = refl; capacity_four = refl; shrinks = refl; reads = tt }

-- A client that connects, sends and loses a write to end of file.
abbrev busy : List Event
busy = start_call ∷ completion 0 success [] ∷ send_call (16 ∷ 32 ∷ []) ∷ completion 1 eof [] ∷ []

run-IsDown_example : is_established_or_connected (run memory busy fresh).client ≡ false
run-IsDown_example = run-IsDown memory busy fresh tt fresh-IsDown

run-stop_example :
    world.is_open (run memory (stop_call ∷ completion 0 operation_aborted [] ∷ []) reading).socket
    ≡ false
run-stop_example = run-stop memory (completion 0 operation_aborted [] ∷ []) reading tt

run-ReadsStart_example : ReadsStart world (run memory busy fresh)
run-ReadsStart_example = run-ReadsStart memory busy fresh fresh-ReadsStart

run-send_example :
    (run memory (send_call (1 ∷ 2 ∷ []) ∷ completion 1 success [] ∷ []) opened).is_sending ≡ true
run-send_example = run-send memory (completion 1 success [] ∷ []) (1 ∷ 2 ∷ []) opened opened-is_open

run-receive_op_example :
    run memory
      (completion 0 success (2 ∷ 253 ∷ []) ∷ completion 0 success (2 ∷ 253 ∷ []) ∷ [])
      reading
    ≡ put_received 0 4 (2 ∷ 253 ∷ []) (on_client (λ c. record c { pending = [] }) reading)
run-receive_op_example =
    run-receive_op memory (completion 0 success (2 ∷ 253 ∷ []) ∷ []) 0 4 (2 ∷ 253 ∷ []) success
      reading tt reading-pending.0

opened-ReadsStart : ReadsStart world opened
opened-ReadsStart = run-ReadsStart memory (start_call ∷ []) fresh fresh-ReadsStart

opened-pending : (opened.pending ≡ connect_op ∷ []) × (opened.sending_blocked ≡ false)
unfolding run tcp_client step client start connect connect_options
opened-pending = (refl, refl)

-- The connect is refused, and a read is started.
complete-connect_op_example :
    (complete memory 0 connection_refused [] opened).pending
    ≡ erase_idx opened.pending 0 ++ receive_op 0 4 ∷ []
complete-connect_op_example =
    complete-connect_op memory 0 connection_refused [] opened
      (ap (λ ops. get_elem? ops 0) opened-pending.0) refl opened-pending.1 opened-is_open
      opened-ReadsStart

-- A message is lost, and the client connects anew.
send_op-Sent_example :
    Sent broken_pipe reading (handle memory (send_op (2 ∷ [])) broken_pipe [] reading)
send_op-Sent_example = send_op-Sent memory broken_pipe (2 ∷ []) [] reading

receive_cbk-dump_example :
    (receive_cbk success 2 0 (put_received 0 4 (2 ∷ 253 ∷ []) (run memory busy fresh))).1
    ≡ some (dump (2 ∷ 253 ∷ []))
receive_cbk-dump_example =
    receive_cbk-dump memory busy success (2 ∷ 253 ∷ []) fresh refl (omega arith) fresh-ReadsStart

abbrev full : MessageBuffer
full = record { bytes = 2 ∷ 253 ∷ 0 ∷ 5 ∷ []; capacity = 4 }

full-IsSound : IsSound full
full-IsSound = record { held = omega arith; addressable = omega arith }

-- Four bytes are filled and eight are missing: the buffer grows to twelve.
make_room-FitsCapacity_example : FitsCapacity 4 (make_room memory sizes full 4 8 0)
make_room-FitsCapacity_example =
    make_room-FitsCapacity memory sizes full 4 8 0 full-IsSound (omega arith)

undump-dump_example : undump (dump (2 ∷ 253 ∷ [])) ≡ 2 ∷ 253 ∷ []
undump-dump_example = undump-dump (2 ∷ 253 ∷ []) (omega arith, (omega arith, tt))

abbrev count_up : MessageBuffer
count_up = record {
  bytes = 0 ∷ 1 ∷ 2 ∷ 3 ∷ 4 ∷ 5 ∷ 6 ∷ 7 ∷ 8 ∷ 9 ∷ 10 ∷ 11 ∷ 12 ∷ 13 ∷ 14 ∷ 15 ∷ 16 ∷ 17 ∷ [];
  capacity = 18;
}

exception_last-reverse_example :
    exception_last count_up 18 ≡ some (dump (reverse (take 16 count_up.bytes)))
exception_last-reverse_example = exception_last-reverse count_up 18 (omega arith) (omega arith)
