-- ===== src/Relay/Forwarding.antt =====
-- Where the server sends a datagram, told by the datagrams before it (pymesh/relay/server.py).
use pymesh.Base.{
  ◌≡◌, refl, ◌∙◌, ap, sym, Bool, false, Option, none, some, List, [], ◌∷◌, ◌++◌, if◌then◌else◌,
  arith, ◌==◌, text_eq, Option-cases, inl, inr,
}
use pymesh.Base.Text.{Text}
use pymesh.Base.Dict.{lookup, lookup-insert}
use pymesh.Base.Bytes.{Bytes}
use pymesh.Relay.{Address, Frame, Server, empty_server, decode_frame, forward, datagram_received}

abbrev pub Datagram : Type 0
Datagram = Bytes × Address

-- the server after some datagrams
unfoldable pub run : Server → List Datagram → Server
run s [] = s
run s ((bytes, addr) ∷ rest) = run (datagram_received s bytes addr).0 rest

abbrev is_from : Text → Option Frame → Bool
is_from id none = false
is_from id (some f) = f.src_id == id

abbrev or_else : Option Address → Option Address → Option Address
or_else (some a) b = some a
or_else none b = b

-- the address of the last valid datagram with the given source
pub latest : Text → List Datagram → Option Address
latest id [] = none
latest id ((bytes, addr) ∷ rest) =
    or_else (latest id rest) (if is_from id (decode_frame bytes) then some addr else none)

or_else_assoc : (a b c : Option Address) → or_else (or_else a b) c ≡ or_else a (or_else b c)
or_else_assoc none b c = refl
or_else_assoc (some x) b c = refl

or_else-none : (a : Option Address) → or_else a none ≡ a
or_else-none none = refl
or_else-none (some x) = refl

lookup-datagram :
    (id : Text) (s : Server) (bytes : Bytes) (addr : Address)
    → lookup id (datagram_received s bytes addr).0.node_endpoints
      ≡ or_else
          (if is_from id (decode_frame bytes) then some addr else none)
          (lookup id s.node_endpoints)
unfolding datagram_received
lookup-datagram id s bytes addr = elim (Option-cases (decode_frame bytes)) [
  | inl e ↦ rw (e, datagram_received)
  | inr (f, e) ↦
      rw (e, datagram_received) (ground (arith, lookup-insert f.src_id id addr s.node_endpoints))
]

lookup-run_from :
    (id : Text) (ds : List Datagram) (s : Server)
    → lookup id (run s ds).node_endpoints ≡ or_else (latest id ds) (lookup id s.node_endpoints)
unfolding run latest
lookup-run_from id [] s = refl
lookup-run_from id ((bytes, addr) ∷ ds) s =
    lookup-run_from id ds _
    ∙ ap (or_else (latest id ds)) (lookup-datagram id s bytes addr)
    ∙ sym (or_else_assoc (latest id ds) _ _)

-- After any datagrams, valid or not, the server knows for each id the address from which the last
-- valid datagram of that source came, and nothing for other ids.
pub lookup-run :
    (id : Text) (ds : List Datagram) → lookup id (run empty_server ds).node_endpoints ≡ latest id ds
unfolding lookup
lookup-run id ds = lookup-run_from id ds empty_server ∙ or_else-none (latest id ds)

run-append :
    (ds : List Datagram) (s : Server) (bytes : Bytes) (addr : Address)
    → run s (ds ++ (bytes, addr) ∷ []) ≡ (datagram_received (run s ds) bytes addr).0
unfolding run
run-append [] s bytes addr = refl
run-append ((b, a) ∷ ds) s bytes addr = run-append ds _ bytes addr

reply-state :
    (s : Server) (bytes : Bytes) (addr : Address) (f : Frame)
    → decode_frame bytes ≡ some f
    → (datagram_received s bytes addr).1
      ≡ forward bytes (lookup f.dst_id (datagram_received s bytes addr).0.node_endpoints)
unfolding datagram_received
reply-state s bytes addr f e = rw (e, datagram_received)

-- A datagram that is no frame changes nothing and is dropped. A frame is sent on unchanged to the
-- address last seen for its destination, its own datagram included, and to nobody if there is none.
pub forwarding :
    (ds : List Datagram) (bytes : Bytes) (addr : Address)
    → (decode_frame bytes ≡ none
        → datagram_received (run empty_server ds) bytes addr ≡ (run empty_server ds, none))
      × ((f : Frame)
          → decode_frame bytes ≡ some f
          → (datagram_received (run empty_server ds) bytes addr).1
            ≡ forward bytes (latest f.dst_id (ds ++ (bytes, addr) ∷ [])))
unfolding datagram_received
forwarding ds bytes addr = (
  λ e. rw (e, datagram_received),
  λ f e.
      reply-state (run empty_server ds) bytes addr f e
      ∙ ap (forward bytes) (
          rw (← run-append ds empty_server bytes addr)
            (lookup-run f.dst_id (ds ++ (bytes, addr) ∷ []))),
)
