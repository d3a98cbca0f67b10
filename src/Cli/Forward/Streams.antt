-- ===== src/Cli/Forward/Streams.antt =====
-- The copying of bytes between two connections (`forward_stream` of pymesh/cli/commands.py). The
-- two loops run at the same time: a step is one pass of one of them, or something that happens
-- outside.
mod Order
mod Tests
use pymesh.Base.{
  ℕ, ◌≤◌, ◌≡◌, refl, ◌∙◌, ap, sym, Bool, true, false, ◌||◌, ◌⊎◌, inl, inr, List, [], ◌∷◌, ◌++◌,
  length, arith,
}
use pymesh.Base.Bytes.{Bytes}

-- a connection as the proxy has it: what was received in all, what of it was not read yet, and what
-- was written; whether the other side has ended, and whether the proxy has closed it
pub record Connection : Type 0 where
  pub received : Bytes
  pub unread : Bytes
  pub written : Bytes
  pub ended : Bool
  pub closed : Bool

-- the client that was accepted and the target, with the loops to the target and back
pub record Streams : Type 0 where
  pub local : Connection
  pub remote : Connection
  pub piping_out : Bool
  pub piping_back : Bool

abbrev pub receive : Bytes → Connection → Connection
receive bytes c = record c { received = c.received ++ bytes; unread = c.unread ++ bytes }

abbrev pub end_ : Connection → Connection
end_ c = record c { ended = true }

abbrev pub close : Connection → Connection
close c = record c { closed = true }

abbrev pub read_ : Bytes → Connection → Connection
read_ rest c = record c { unread = rest }

abbrev pub write : Bytes → Connection → Connection
write bytes c = record c { written = c.written ++ bytes }

abbrev pub accepted : Connection
accepted = record { received = []; unread = []; written = []; ended = false; closed = false }

-- `forward_stream` when the connection to the target is made
abbrev pub opened : Streams
opened = record { local = accepted; remote = accepted; piping_out = true; piping_back = true }

-- the other side has ended, or the proxy has closed the connection: `read` returns no bytes
abbrev pub is_over : Connection → Bool
is_over c = c.ended || c.closed

-- A pass of `pipe` reads at most 8192 bytes and writes them. At the end, or by an exception, it
-- closes the connection that it writes to. What is written to a closed connection is dropped, and a
-- connection that the proxy has closed receives nothing more.
pub data Step : Streams → Streams → Type 0 where
  out :
      (s : Streams) (chunk rest : Bytes)
      → s.piping_out ≡ true
      → s.local.unread ≡ chunk ++ rest
      → length chunk ≤ 8192
      → s.remote.closed ≡ false
      → Step s (record s { local = read_ rest s.local; remote = write chunk s.remote })
  out_dropped :
      (s : Streams) (chunk rest : Bytes)
      → s.piping_out ≡ true
      → s.local.unread ≡ chunk ++ rest
      → s.remote.closed ≡ true
      → Step s (record s { local = read_ rest s.local })
  out_end :
      (s : Streams)
      → s.piping_out ≡ true
      → s.local.unread ≡ []
      → is_over s.local ≡ true
      → Step s (record s { remote = close s.remote; piping_out = false })
  out_failed :
      (s : Streams)
      → s.piping_out ≡ true
      → Step s (record s { remote = close s.remote; piping_out = false })
  back :
      (s : Streams) (chunk rest : Bytes)
      → s.piping_back ≡ true
      → s.remote.unread ≡ chunk ++ rest
      → length chunk ≤ 8192
      → s.local.closed ≡ false
      → Step s (record s { remote = read_ rest s.remote; local = write chunk s.local })
  back_dropped :
      (s : Streams) (chunk rest : Bytes)
      → s.piping_back ≡ true
      → s.remote.unread ≡ chunk ++ rest
      → s.local.closed ≡ true
      → Step s (record s { remote = read_ rest s.remote })
  back_end :
      (s : Streams)
      → s.piping_back ≡ true
      → s.remote.unread ≡ []
      → is_over s.remote ≡ true
      → Step s (record s { local = close s.local; piping_back = false })
  back_failed :
      (s : Streams)
      → s.piping_back ≡ true
      → Step s (record s { local = close s.local; piping_back = false })
  local_receives :
      (s : Streams) (bytes : Bytes)
      → is_over s.local ≡ false
      → Step s (record s { local = receive bytes s.local })
  local_ends : (s : Streams) → Step s (record s { local = end_ s.local })
  remote_receives :
      (s : Streams) (bytes : Bytes)
      → is_over s.remote ≡ false
      → Step s (record s { remote = receive bytes s.remote })
  remote_ends : (s : Streams) → Step s (record s { remote = end_ s.remote })

pub data Reach : Streams → Streams → Type 0 where
  here : {s : Streams} → Reach s s
  next : {s t u : Streams} → Reach s t → Step t u → Reach s u
