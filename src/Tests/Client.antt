-- ===== src/Tests/Client.antt =====
-- A daemon that has a frame and three bytes in its receive ring, and two more in its socket.
use nf_nms.Common.{
  ℕ, List, [], ◌∷◌, ◌++◌, ◌≡◌, inr, refl, arith, true, false, none, some, Bool, take,
}
use nf_nms.Ring
use nf_nms.Ring.{ByteRingBuffer}
use nf_nms.Ring.Inv.{IsValid}
use nf_nms.Ring.Contents.{contents}
use nf_nms.Ipc.Protocol.Daemon.{daemon_code}
use nf_nms.Ipc.Protocol.Cmd.{cmd_code}
use nf_nms.Ipc.Message.{IpcMessage, to_wire_header}
use nf_nms.Ipc.Codec.{little, big, encode, header_bytes, host_to_net}
use nf_nms.Ipc.Connection.{Answer, moved, interrupted, would_block, recv, recv_loop}
use nf_nms.Ipc.Client.{
  IpcClient, connected, ConnectResult, Source, socket_event, init, egress, handle_event,
}
use nf_nms.Ipc.Client.Open.{IsOpen, IsConsistent}
use nf_nms.Ipc.Client.Init.{client-IsConsistent}
use nf_nms.Ipc.Client.Receive.{client_receives}
use nf_nms.Tests.Ipc.{hello, hello-IsSendable, length-hello, receiving, opened, opened-IsReady}

abbrev client : IpcClient
client = record {
  state = connected;
  socket = some (some 7);
  conn = some opened;
  initialized = true;
  delivered = hello ∷ [];
}

abbrev waiting : List ℕ
waiting = 1 ∷ 0 ∷ []

abbrev ins : List Answer
ins = interrupted ∷ moved 5 ∷ []

blocked : (recv ins opened waiting).0.result ≡ would_block
unfolding recv recv_loop Ring.write_len Ring.write_chunk Ring.write_ptr Ring.store Ring.produce
blocked = refl

dry : (recv ins opened waiting).0.wire ≡ []
unfolding recv recv_loop Ring.write_len Ring.write_chunk Ring.write_ptr Ring.store Ring.produce
dry = refl

arrived :
    contents receiving ++ waiting
    ≡ (encode little (some hello) ++ []) ++ take 5 (encode little (some hello))
unfolding encode header_bytes host_to_net to_wire_header daemon_code cmd_code
arrived = refl

client_receives_example :
    (rx : ByteRingBuffer) × IsValid rx
    × (contents rx ≡ take 5 (encode little (some hello)))
    × (handle_event big (socket_event 7 none ins waiting [] true) false true false client
        ≡ record client {
          conn = some (record opened { rx = rx });
          delivered = (hello ∷ []) ++ (hello ∷ []);
        })
client_receives_example =
    client_receives little big 7 none ins waiting [] true (hello ∷ []) hello 5 client opened refl
      refl refl opened-IsReady blocked dry (hello-IsSendable, tt) hello-IsSendable
      (omega (arith, length-hello)) arrived

client-IsOpen : IsOpen client
client-IsOpen = record {
  own = 7;
  own_conn = opened;
  live = inr refl;
  socket_is = refl;
  conn_is = refl;
  same = refl;
  ready = opened-IsReady;
}

client-IsConsistent_example :
    ((max_attempts : ℕ) (epoll_ready : Bool) (answers : List (ConnectResult × Bool))
      → let (done, c) = init 65536 65536 max_attempts epoll_ready answers client in
        IsConsistent c × (done ≡ c.initialized))
    × ((armed : Bool) (m : IpcMessage) → IsConsistent (egress little armed m client))
    × ((source : Source) (is_close is_recv is_send : Bool)
        → IsConsistent (handle_event little source is_close is_recv is_send client))
client-IsConsistent_example =
    client-IsConsistent little 65536 65536 (omega arith) (omega arith) (inr (client-IsOpen, refl))
