-- ===== src/Cli/Forward/Streams/Tests.antt =====
-- A client whose first bytes are passed on.
use pymesh.Base.{refl, false, [], ◌∷◌, arith}
use pymesh.Cli.Forward.Streams.{Streams, opened, local_receives, out, Reach, here, next}
use pymesh.Cli.Forward.Streams.Order.{BothInOrder, streams-InOrder}

-- a client that sends two bytes, which are passed on
abbrev asking : Streams
asking = record opened {
  local = record {
    received = 1 ∷ 2 ∷ [];
    unread = 1 ∷ 2 ∷ [];
    written = [];
    ended = false;
    closed = false;
  };
}

abbrev asked : Streams
asked = record asking {
  local = record asking.local { unread = [] };
  remote = record asking.remote { written = 1 ∷ 2 ∷ [] };
}

run_asked : Reach opened asked
run_asked =
    next (next here (local_receives opened (1 ∷ 2 ∷ []) refl))
      (out asking (1 ∷ 2 ∷ []) [] refl refl (omega arith) refl)

streams-InOrder_example : BothInOrder asked
streams-InOrder_example = streams-InOrder run_asked
