-- ===== src/Tests/Ipc.antt =====
-- The frame protocol, on a message of one byte sent by a little-endian host to a big-endian one.
use nf_nms.Common.{ℕ, List, [], ◌∷◌, ◌++◌, ◌≡◌, refl, arith, Bool, true, some, length, take}
use nf_nms.Ring.{ByteRingBuffer}
use nf_nms.Ring.Inv.{IsValid}
use nf_nms.Ring.Contents.{contents}
use nf_nms.Ipc.Protocol.Daemon.{IpcDaemon, daemon_code, daemon_of_code}
use nf_nms.Ipc.Protocol.Cmd.{IpcCmd, cmd_code, cmd_of_code}
use nf_nms.Ipc.Message.{IpcMessage, to_wire_header}
use nf_nms.Ipc.Codec.{little, big, encode, decode, DecodeResult, header_bytes, host_to_net}
use nf_nms.Ipc.Codec.RoundTrip.{IsSendable, decode-encode}
use nf_nms.Ipc.Connection.{IpcConnection}
use nf_nms.Ipc.Connection.Stream.{IsReady}
use nf_nms.Ipc.Handler.{drain_rx_frames}
use nf_nms.Ipc.Handler.Split.{split, give}
use nf_nms.Ipc.Handler.Drain.{Drained, drain_rx_frames-split, drain-encode_all}

abbrev pub hello : IpcMessage
hello = record {
  header = record {
    version = 2;
    src = IpcDaemon.mgmtd;
    dst = IpcDaemon.ipcd;
    flags = 1;
    cmd = IpcCmd.client_hello;
    seq_no = 5;
  };
  payload = 9 ∷ [];
}

pub hello-IsSendable : IsSendable hello
unfolding daemon_code daemon_of_code cmd_code cmd_of_code
hello-IsSendable = record {
  version_this = refl;
  src_byte = omega arith;
  src_value = refl;
  dst_byte = omega arith;
  dst_value = refl;
  flags_byte = omega arith;
  cmd_word = omega arith;
  cmd_value = refl;
  seq_no_word = omega arith;
  payload_fits = omega arith;
}

decode-encode_example :
    decode big (some (encode little (some hello))) ≡ (DecodeResult.ok, some hello)
decode-encode_example = decode-encode little big hello-IsSendable

pub length-hello : length (encode little (some hello)) ≡ 17
unfolding encode header_bytes host_to_net to_wire_header
length-hello = refl

-- A frame of `hello` and three bytes of the next, round the end of a buffer of 24.
abbrev pub receiving : ByteRingBuffer
receiving = record {
  buffer =
      0 ∷ 0 ∷ 1 ∷ 9 ∷ 2 ∷ 7 ∷ 1 ∷ 0 ∷ 0 ∷ 0 ∷ 0 ∷ 2 ∷ 7 ∷ 1 ∷ 1 ∷ 0 ∷ 1 ∷ 0 ∷ 0 ∷ 0 ∷ 0 ∷ 0 ∷ 5 ∷ 0
      ∷ [];
  head = 11;
  tail = 7;
  size = 20;
}

receiving-IsValid : IsValid receiving
receiving-IsValid = omega arith

abbrev keep : List (List ℕ) → List ℕ → Bool × List (List ℕ)
keep seen frame = (true, frame ∷ seen)

drain_rx_frames-split_example :
    Drained big keep
      (drain_rx_frames big keep receiving [])
      (split big keep 21 (contents receiving) [])
drain_rx_frames-split_example = drain_rx_frames-split big keep [] receiving-IsValid

held :
    contents receiving ≡ (encode little (some hello) ++ []) ++ take 3 (encode little (some hello))
unfolding encode header_bytes host_to_net to_wire_header daemon_code cmd_code
held = refl

drain-encode_all_example :
    let (kept, rx, seen) = drain_rx_frames big keep receiving [] in
    IsValid rx
    × (kept ≡ true)
    × (contents rx ≡ take 3 (encode little (some hello)))
    × (seen ≡ give little big keep (hello ∷ []) [])
drain-encode_all_example =
    drain-encode_all little big keep (hello ∷ []) hello 3 [] receiving-IsValid
      (hello-IsSendable, tt) hello-IsSendable (omega (arith, length-hello)) (refl, tt) held

abbrev pub opened : IpcConnection
opened = record { fd = 7; rx = receiving; tx = receiving }

pub opened-IsReady : IsReady opened
opened-IsReady = omega arith
