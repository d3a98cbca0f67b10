-- ===== src/Dns/Server/Upstream.antt =====
-- The query to the upstream server (pymesh/dns/server.py). Whether its socket can be opened, and
-- what comes in within the three seconds that are waited, are arguments.
use pymesh.Base.{Bool, true, false, Option, none, some, List, [], ◌∷◌}
use pymesh.Base.Bytes.{Bytes}

-- the two methods of `UpstreamClientProtocol`
pub data Incoming : Type 0 where
  datagram_received : Bytes → Incoming
  error_received : Incoming

-- the result of the future; the first method that is called sets it
unfoldable pub future_of : List Incoming → Option (Option Bytes)
future_of [] = none
future_of (datagram_received bytes ∷ later) = some (some bytes)
future_of (error_received ∷ later) = some none

pub record Upstream : Type 0 where
  pub response : Option Bytes
  pub left_open : Bool

-- Where the wait ends in an exception, `transport.close()` is passed over.
abbrev pub awaited : Option (Option Bytes) → Upstream
awaited none = record { response = none; left_open = true }
awaited (some response) = record { response = response; left_open = false }

-- `forward_upstream`
unfoldable pub forward_upstream : Bool → List Incoming → Upstream
unfolding future_of
forward_upstream false incoming = record { response = none; left_open = false }
forward_upstream true incoming = awaited (future_of incoming)
