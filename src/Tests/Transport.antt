-- ===== src/Tests/Transport.antt =====
-- The raw socket of probed, open on descriptor 9.
use nf_nms.Common.{ℕ, List, [], ◌∷◌, ◌++◌, ◌≡◌, refl, arith, none, some, Bool, true, false}
use nf_nms.Ipc.Codec.{little}
use nf_nms.Probed.Transport.{TxFrame, taken, interrupted, connect, send_loop, handle_recv}
use nf_nms.Probed.Transport.Queues.{Datagram, arrivals, packets, handle_recv_lem}
use nf_nms.Probed.Transport.Sends.{IsSent, send_loop-IsSent}
use nf_nms.Probed.Engine.{IcmpEngine, closed, init, egress, poll, Event, ready}
use nf_nms.Probed.Engine.Settled.{IsSettled}
use nf_nms.Probed.Engine.Armed.{started, opened_up, sent, polled, Run-IsSettled}
use nf_nms.Tests.Probed.{ping}

-- "10.0.0.7"
abbrev address : List ℕ
address = 49 ∷ 48 ∷ 46 ∷ 48 ∷ 46 ∷ 48 ∷ 46 ∷ 55 ∷ []

-- An echo reply of eight bytes, and a datagram that is too short.
abbrev datagrams : List Datagram
datagrams =
    record { byte = 0; bytes = 0 ∷ 255 ∷ 255 ∷ 0 ∷ 0 ∷ 0 ∷ 0 ∷ []; src_ip = address }
    ∷ record { byte = 0; bytes = []; src_ip = address }
    ∷ []

handle_recv_lem_example :
    handle_recv little (arrivals datagrams) (connect 9) []
    ≡ (true, connect 9, [] ++ packets little datagrams)
unfolding connect
handle_recv_lem_example = handle_recv_lem little datagrams (connect 9) [] refl (omega arith)

abbrev accepted : List ℕ → Bool
accepted text = true

abbrev waiting : List TxFrame
waiting =
    record { bytes = 8 ∷ 0 ∷ []; dst_ip = address }
    ∷ record { bytes = []; dst_ip = address }
    ∷ record { bytes = 8 ∷ 1 ∷ []; dst_ip = address }
    ∷ []

send_loop-IsSent_example :
    IsSent accepted
      (interrupted ∷ taken 1 ∷ [])
      waiting
      []
      (send_loop accepted (interrupted ∷ taken 1 ∷ []) waiting [])
send_loop-IsSent_example = send_loop-IsSent accepted (interrupted ∷ taken 1 ∷ []) waiting []

abbrev asked : IcmpEngine
asked = egress little true (some ping) address (init true (some 9) true closed).1

-- The request is taken by the kernel.
abbrev writable : Event
writable = ready (record {
  fd = 9;
  is_close = false;
  is_recv = false;
  is_send = true;
  rx_answers = [];
  tx_answers = taken 10 ∷ [];
  modified = true;
})

Run-IsSettled_example : IsSettled (poll little accepted 5 none true (some (writable ∷ [])) asked)
Run-IsSettled_example = Run-IsSettled little accepted (
    polled 5 none true (some (writable ∷ []))
      (sent true (some ping) address (opened_up true (some 9) true started)))
