-- ===== src/Relay/Tests.antt =====
-- The frames of tests/test_relay.py, and the laws at them.
use pymesh.Base.{
  length, ◌<◌, ◌≤◌, ◌+◌, ◌^◌, true, list_beq, ◌≡◌, refl, none, some, List, [], ◌∷◌, ◌++◌, take,
  arith,
}
use pymesh.Base.Text.{codes, rstrip, rstrip_by, lstrip_by}
use pymesh.Base.Dict.{lookup, insert}
use pymesh.Base.Bytes.{Bytes, is_ascii, decode_ascii}
use pymesh.Relay.{
  relay_magic, pad, Address, Frame, empty_server, encode_frame, decode_frame, datagram_received,
  forward,
}
use pymesh.Base.Number.{int_of}
use pymesh.Base.Decimal.{all_digits, read}
use pymesh.Base.Text.{rsplit_once, strip}
use pymesh.Relay.Client.{IsAt, IsRelayed, send_relayed_packet, relayed}
use pymesh.Relay.Bounds.{IsBytes, encode_frame_bounds}
use pymesh.Relay.Frames.{decode_frame-encode_frame}
use pymesh.Relay.Forwarding.{Datagram, run, latest, lookup-run, forwarding}

decode_frame-encode_frame_example :
    (bytes : Bytes) × (encode_frame
        (codes "node_src_12345")
        (codes "node_dst_67890")
        (codes "secret")
      ≡ some bytes)
    × (decode_frame (bytes ++ [])
        ≡ some (record {
          src_id = rstrip 0 (take 32 (codes "node_src_12345"));
          dst_id = rstrip 0 (take 32 (codes "node_dst_67890"));
          payload = codes "secret";
        }))
unfolding is_ascii
decode_frame-encode_frame_example =
    decode_frame-encode_frame (codes "node_src_12345") (codes "node_dst_67890") (codes "secret") []
      refl refl (omega arith)

abbrev home : Address
home = (codes "10.0.0.1", 51820)

abbrev away : Address
away = (codes "10.0.0.2", 51820)

-- from a to b, and from b to a
abbrev hello : Bytes
hello = relay_magic ++ (pad (codes "a") ++ (pad (codes "b") ++ (0 ∷ 2 ∷ codes "hi")))

abbrev reply : Bytes
reply = relay_magic ++ (pad (codes "b") ++ (pad (codes "a") ++ (0 ∷ 2 ∷ codes "ho")))

abbrev history : List Datagram
history = (codes "noise", home) ∷ (hello, home) ∷ []

lookup-run_example :
    lookup (codes "a") (run empty_server history).node_endpoints ≡ latest (codes "a") history
lookup-run_example = lookup-run (codes "a") history

forwarding_example :
    (decode_frame reply ≡ none
      → datagram_received (run empty_server history) reply away ≡ (run empty_server history, none))
    × ((f : Frame)
        → decode_frame reply ≡ some f
        → (datagram_received (run empty_server history) reply away).1
          ≡ forward reply (latest f.dst_id (history ++ (reply, away) ∷ [])))
forwarding_example = forwarding history reply away

-- the reply is sent on to where a was seen
reply_forwarded : (datagram_received (run empty_server history) reply away).1 ≡ some (reply, home)
unfolding run datagram_received decode_frame decode_ascii pad insert lookup rstrip rstrip_by
    lstrip_by list_beq
reply_forwarded = refl

-- the relay of a client
abbrev relay : Address
relay = (codes "10.0.0.9", 3478)

relay-IsAt : IsAt (codes "10.0.0.9:3478") relay
unfolding rsplit_once int_of strip lstrip_by rstrip_by all_digits read
relay-IsAt = record { port_str = codes "3478"; parts = refl; port = refl }

relayed_example :
    IsRelayed
      (send_relayed_packet
        (λ bytes addr. true)
        (codes "10.0.0.9:3478")
        (codes "node_src")
        (codes "node_dst")
        (codes "secret"))
      relay
      []
      (codes "10.0.0.1", 4000)
      (record {
        src_id = rstrip 0 (take 32 (codes "node_src"));
        dst_id = rstrip 0 (take 32 (codes "node_dst"));
        payload = codes "secret";
      })
unfolding is_ascii
relayed_example =
    relayed (λ bytes addr. true) (codes "10.0.0.9:3478") (codes "node_src") (codes "node_dst")
      (codes "secret") relay (codes "10.0.0.1", 4000) [] relay-IsAt (λ bytes. refl) refl refl
      (omega arith)

encode_frame_bounds_example :
    (length (codes "hi") < 2 ^ 16
      → (bytes : Bytes) × (encode_frame (codes "a") (codes "b") (codes "hi") ≡ some bytes)
        × (length bytes ≡ 73 + length (codes "hi"))
        × (length bytes ≤ 65608)
        × IsBytes bytes)
    × (2 ^ 16 ≤ length (codes "hi") → encode_frame (codes "a") (codes "b") (codes "hi") ≡ none)
unfolding is_ascii
encode_frame_bounds_example =
    encode_frame_bounds (codes "a") (codes "b") (codes "hi") refl refl
      (omega arith, (omega arith, tt))
