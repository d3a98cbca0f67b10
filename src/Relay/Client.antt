-- ===== src/Relay/Client.antt =====
-- pymesh/relay/client.py: a node that sends through the relay.
use mathlib.Core.List.{append-nil}
use pymesh.Base.{
  ℕ, ◌^◌, ◌<◌, ◌≡◌, refl, Bool, true, false, Option, none, some, List, [], ◌∷◌, ◌++◌, length, take,
  if◌then◌else◌,
}
use pymesh.Base.Text.{Text, rsplit_once, rstrip}
use pymesh.Base.Number.{int_of}
use pymesh.Base.Bytes.{Bytes, is_ascii}
use pymesh.Base.Result.{Result, ok, raise}
use pymesh.Relay.{
  Address, Frame, encode_frame, decode_frame, empty_server, datagram_received, forward,
}
use pymesh.Relay.Frames.{decode_frame-encode_frame}
use pymesh.Relay.Forwarding.{Datagram, run, latest, forwarding}

-- what is answered, and the datagram that was sent and where
abbrev pub Sent : Type 0
Sent = Bool × Option (Bytes × Address)

abbrev pub send_to : (Bytes → Address → Bool) → Address → Option Bytes → Sent
send_to sendto addr none = (false, none)
send_to sendto addr (some frame) =
    if sendto frame addr then (true, some (frame, addr)) else (false, none)

abbrev pub send_at : (Bytes → Address → Bool) → Text → Result ℕ → Option Bytes → Sent
send_at sendto host (raise e) frame = (false, none)
send_at sendto host (ok port) frame = send_to sendto (host, port) frame

-- `RelayClient.send_relayed_packet`; `sendto` tells whether a datagram can be sent.
unfoldable pub send_relayed_packet : (Bytes → Address → Bool) → Text → Text → Text → Bytes → Sent
send_relayed_packet sendto relay_endpoint self_node_id dst_node_id payload =
    elim (rsplit_once b':' relay_endpoint) [
      | none ↦ (false, none)
      | some (host, port_str) ↦
          send_at sendto host (int_of port_str) (encode_frame self_node_id dst_node_id payload)
    ]

-- where the relay is
pub record IsAt (relay_endpoint : Text) (addr : Address) : Type 0 where
  pub port_str : Text
  pub parts : rsplit_once b':' relay_endpoint ≡ some (addr.0, port_str)
  pub port : int_of port_str ≡ ok addr.1

send_relayed_packet-frame :
    (sendto : Bytes → Address → Bool) (relay_endpoint src dst : Text) (payload bytes : Bytes)
    (addr : Address)
    → IsAt relay_endpoint addr
    → sendto bytes addr ≡ true
    → encode_frame src dst payload ≡ some bytes
    → send_relayed_packet sendto relay_endpoint src dst payload ≡ (true, some (bytes, addr))
unfolding send_relayed_packet
send_relayed_packet-frame sendto relay_endpoint src dst payload bytes addr at_ sends e =
    rw (at_.parts, send_relayed_packet) (rw (at_.port, send_at) (rw e (rw sends refl)))

-- the datagram of a client, and what becomes of it at the relay
pub record IsRelayed (sent : Sent) (addr : Address) (ds : List Datagram) (from : Address)
    (f : Frame) : Type 0 where
  pub bytes : Bytes
  pub sent_to : sent ≡ (true, some (bytes, addr))
  pub passed_on :
      (datagram_received (run empty_server ds) bytes from).1
      ≡ forward bytes (latest f.dst_id (ds ++ (bytes, from) ∷ []))
  pub read_back : decode_frame bytes ≡ some f

-- A packet that a client sends by the relay between nodes with ASCII ids: after any datagrams,
-- the relay passes it on to the address from which the last valid datagram of its destination came, and
-- there it decodes to the payload and to the first 32 characters of the two ids, without zeros at their
-- ends. The relay's address can be read, the datagram can be sent, and the payload has at most 65535
-- bytes.
pub relayed :
    (sendto : Bytes → Address → Bool) (relay_endpoint src dst : Text) (payload : Bytes)
    (addr from : Address) (ds : List Datagram)
    → IsAt relay_endpoint addr
    → ((bytes : Bytes) → sendto bytes addr ≡ true)
    → is_ascii src ≡ true
    → is_ascii dst ≡ true
    → length payload < 2 ^ 16
    → IsRelayed (send_relayed_packet sendto relay_endpoint src dst payload) addr ds from (record {
      src_id = rstrip 0 (take 32 src);
      dst_id = rstrip 0 (take 32 dst);
      payload = payload;
    })
relayed sendto relay_endpoint src dst payload addr from ds at_ sends hs hd hp =
    let (bytes, e, decoded) = decode_frame-encode_frame src dst payload [] hs hd hp in
    let whole = rw (append-nil bytes) at decoded in
    record {
      bytes = bytes;
      sent_to =
          send_relayed_packet-frame sendto relay_endpoint src dst payload bytes addr at_
            (sends bytes) e;
      passed_on = (forwarding ds bytes from).1 _ whole;
      read_back = whole;
    }
