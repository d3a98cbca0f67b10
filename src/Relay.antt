-- ===== src/Relay.antt =====
-- pymesh/relay/protocol.py and the datagram handler of pymesh/relay/server.py: frames between
-- nodes, and the server that forwards them.
pub mod Client
mod Frames
mod Bounds
mod Forwarding
mod Tests
use pymesh.Base.{
  ℕ, ◌+◌, ◌-◌, ◌*◌, ◌/◌, ◌%◌, ◌^◌, Bool, true, false, not, ◌&&◌, Option, none, some, List, [], ◌∷◌,
  ◌++◌, if◌then◌else◌, length, take, slice, replicate, filter, ltb, ◌==◌, text_eq,
}
use pymesh.Base.Text.{Text, codes, rstrip}
use pymesh.Base.Bytes.{Bytes, is_ascii, encode_ascii, decode_ascii, pack_u16, unpack_u16}
use pymesh.Base.Dict.{Dict, lookup, insert}

abbrev pub relay_magic : Bytes
relay_magic = codes "PYRELAY"

abbrev pub header_len : ℕ
header_len = 73

-- `s[:32].ljust(32, "\x00")`
unfoldable pub pad : Text → Text
pad s = take 32 s ++ replicate (32 - length (take 32 s)) 0

abbrev frame_of : Option Bytes → Option Bytes → Option Bytes → Bytes → Option Bytes
frame_of (some src) (some dst) (some len) payload =
    some (relay_magic ++ (src ++ (dst ++ (len ++ payload))))
frame_of _ _ _ payload = none

-- `none` is an exception
unfoldable pub encode_frame : Text → Text → Bytes → Option Bytes
encode_frame src_node_id dst_node_id payload =
    frame_of (encode_ascii (pad src_node_id)) (encode_ascii (pad dst_node_id))
      (pack_u16 (length payload)) payload

pub record Frame : Type 0 where
  pub src_id : Text
  pub dst_id : Text
  pub payload : Bytes

unfoldable pub decode_frame : Bytes → Option Frame
decode_frame data_ =
    if ltb (length data_) header_len
    then none
    else if not (slice data_ 0 7 == relay_magic)
    then none
    else some (record {
      src_id = rstrip 0 (decode_ascii (slice data_ 7 39));
      dst_id = rstrip 0 (decode_ascii (slice data_ 39 71));
      payload = slice data_ header_len (header_len + unpack_u16 (slice data_ 71 73));
    })

-- `RelayServerProtocol`. An address is a host and a port.
abbrev pub Address : Type 0
Address = Text × ℕ

pub record Server : Type 0 where
  pub node_endpoints : Dict Address

abbrev pub empty_server : Server
empty_server = record { node_endpoints = [] }

abbrev forward : Bytes → Option Address → Option (Bytes × Address)
forward data_ none = none
forward data_ (some addr) = some (data_, addr)

-- the new state, and the datagram that is sent on, if any
unfoldable pub datagram_received : Server → Bytes → Address → Server × Option (Bytes × Address)
datagram_received s data_ addr = elim (decode_frame data_) [
  | none ↦ (s, none)
  | some f ↦
      let endpoints = insert f.src_id addr s.node_endpoints in
      (record { node_endpoints = endpoints }, forward data_ (lookup f.dst_id endpoints))
]
