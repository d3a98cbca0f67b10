-- ===== src/Cli/Forward/Streams/Order.antt =====
-- What the two loops of `forward_stream` (pymesh/cli/commands.py) pass on.
use mathlib.Core.List.{append_assoc}
use pymesh.Base.{◌≡◌, refl, ◌∙◌, ap, sym, true, false, ◌⊎◌, inl, inr, [], ◌++◌, arith}
use pymesh.Base.Bytes.{Bytes}
use pymesh.Cli.Forward.Streams.{
  Connection, Streams, receive, close, read_, write, opened, Step, out, out_dropped, out_end,
  out_failed, back, back_dropped, back_end, back_failed, local_receives, local_ends,
  remote_receives, remote_ends, Reach, here, next,
}

-- What was written to `w` is a beginning of what was received from `r`; while `w` is open, what is
-- missing is what was not read yet.
pub record InOrder (r w : Connection) : Type 0 where
  pub missing : Bytes
  pub all : r.received ≡ w.written ++ missing
  pub waiting : (w.closed ≡ true) ⊎ (missing ≡ r.unread)

-- a chunk is passed on
InOrder-copied :
    (r w : Connection) (chunk rest : Bytes)
    → r.unread ≡ chunk ++ rest
    → w.closed ≡ false
    → InOrder r w
    → InOrder (read_ rest r) (write chunk w)
InOrder-copied r w chunk rest e open_ i = elim i.waiting [
  | inl closed ↦ absurd (ground (arith, closed))
  | inr same ↦ record {
    missing = rest;
    all = i.all ∙ ap (λ l. w.written ++ l) (same ∙ e) ∙ sym (append_assoc w.written chunk rest);
    waiting = inr refl;
  }
]

-- a chunk is received
InOrder-received : (r w : Connection) (bytes : Bytes) → InOrder r w → InOrder (receive bytes r) w
InOrder-received r w bytes i = record {
  missing = i.missing ++ bytes;
  all = ap (λ l. l ++ bytes) i.all ∙ append_assoc w.written i.missing bytes;
  waiting = elim i.waiting [ inl closed ↦ inl closed | inr same ↦ inr (ap (λ l. l ++ bytes) same) ];
}

-- changes that pass nothing on
InOrder-closed : (r w : Connection) → InOrder r w → InOrder r (close w)
InOrder-closed r w i = record { missing = i.missing; all = i.all; waiting = inl refl }

InOrder-dropped :
    (r w : Connection) (rest : Bytes) → w.closed ≡ true → InOrder r w → InOrder (read_ rest r) w
InOrder-dropped r w rest closed i = record {
  missing = i.missing;
  all = i.all;
  waiting = inl closed;
}

-- a connection that differs in nothing that counts for the other direction
InOrder-same :
    (r r' w w' : Connection)
    → r'.received ≡ r.received
    → r'.unread ≡ r.unread
    → w'.written ≡ w.written
    → w'.closed ≡ w.closed
    → InOrder r w
    → InOrder r' w'
InOrder-same r r' w w' a b c d i = record {
  missing = i.missing;
  all = a ∙ i.all ∙ ap (λ l. l ++ i.missing) (sym c);
  waiting = elim i.waiting [ inl closed ↦ inl (d ∙ closed) | inr same ↦ inr (same ∙ sym b) ];
}

abbrev pub BothInOrder : Streams → Type 0
BothInOrder s = InOrder s.local s.remote × InOrder s.remote s.local

Step-BothInOrder : {s t : Streams} → Step s t → BothInOrder s → BothInOrder t
Step-BothInOrder (out s chunk rest p e n o) (i, j) =
    (InOrder-copied s.local s.remote chunk rest e o i, InOrder-same _ _ _ _ refl refl refl refl j)
Step-BothInOrder (out_dropped s chunk rest p e c) (i, j) =
    (InOrder-dropped s.local s.remote rest c i, InOrder-same _ _ _ _ refl refl refl refl j)
Step-BothInOrder (out_end s p e o) (i, j) =
    (InOrder-closed s.local s.remote i, InOrder-same _ _ _ _ refl refl refl refl j)
Step-BothInOrder (out_failed s p) (i, j) =
    (InOrder-closed s.local s.remote i, InOrder-same _ _ _ _ refl refl refl refl j)
Step-BothInOrder (back s chunk rest p e n o) (i, j) =
    (InOrder-same _ _ _ _ refl refl refl refl i, InOrder-copied s.remote s.local chunk rest e o j)
Step-BothInOrder (back_dropped s chunk rest p e c) (i, j) =
    (InOrder-same _ _ _ _ refl refl refl refl i, InOrder-dropped s.remote s.local rest c j)
Step-BothInOrder (back_end s p e o) (i, j) =
    (InOrder-same _ _ _ _ refl refl refl refl i, InOrder-closed s.remote s.local j)
Step-BothInOrder (back_failed s p) (i, j) =
    (InOrder-same _ _ _ _ refl refl refl refl i, InOrder-closed s.remote s.local j)
Step-BothInOrder (local_receives s bytes o) (i, j) =
    (InOrder-received s.local s.remote bytes i, InOrder-same _ _ _ _ refl refl refl refl j)
Step-BothInOrder (local_ends s) (i, j) =
    (InOrder-same _ _ _ _ refl refl refl refl i, InOrder-same _ _ _ _ refl refl refl refl j)
Step-BothInOrder (remote_receives s bytes o) (i, j) =
    (InOrder-same _ _ _ _ refl refl refl refl i, InOrder-received s.remote s.local bytes j)
Step-BothInOrder (remote_ends s) (i, j) =
    (InOrder-same _ _ _ _ refl refl refl refl i, InOrder-same _ _ _ _ refl refl refl refl j)

-- However the two loops take turns with each other and with what comes in, and whichever of them
-- fails: in each direction, what the proxy has written to one side is a beginning of what it
-- received from the other, in the order in which it came, without gaps; and until it has closed a
-- side, what is missing there is what it has not read yet.
pub streams-InOrder : {s : Streams} → Reach opened s → BothInOrder s
streams-InOrder here = (
  record { missing = []; all = refl; waiting = inr refl },
  record { missing = []; all = refl; waiting = inr refl },
)
streams-InOrder (next reach step) = Step-BothInOrder step (streams-InOrder reach)

-- Where the client ends its side, the loop to the target closes the whole connection to it: nothing
-- that the target sends afterwards is received.
received-closed :
    {s t : Streams}
    → Reach s t
    → s.remote.closed ≡ true
    → (t.remote.closed ≡ true) × (t.remote.received ≡ s.remote.received)
received-closed here c = (c, refl)
received-closed (next reach step) c = at step (received-closed reach c)
  where
    at :
        {r : Bytes} {t u : Streams}
        → Step t u
        → (t.remote.closed ≡ true) × (t.remote.received ≡ r)
        → (u.remote.closed ≡ true) × (u.remote.received ≡ r)
    at (out s chunk rest p e n o) h = h
    at (out_dropped s chunk rest p e k) h = h
    at (out_end s p e o) h = (refl, h.1)
    at (out_failed s p) h = (refl, h.1)
    at (back s chunk rest p e n o) h = h
    at (back_dropped s chunk rest p e k) h = h
    at (back_end s p e o) h = h
    at (back_failed s p) h = h
    at (local_receives s bytes o) h = h
    at (local_ends s) h = h
    at (remote_receives s bytes o) h = absurd (ground (arith, h.0))
    at (remote_ends s) h = h
