-- ===== src/Stun/Punch.antt =====
-- `HolePuncher.punch_hole` (pymesh/discovery/peers.py). The datagrams that come in after each
-- burst are arguments; there is one list for each burst that the time allows.
use pymesh.Base.{
  ◌≡◌, refl, ap, sym, ◌∙◌, Bool-cases, inl, inr, ltb, ℕ, Bool, ◌||◌, Option, none, some, List, [],
  ◌∷◌, ◌++◌, if◌then◌else◌, ◌==◌, text_eq, is_empty,
}
use pymesh.Base.Text.{Text, codes, starts_with, rsplit_once}
use pymesh.Base.Number.{int_of}
use pymesh.Base.Decimal.{show}
use pymesh.Base.Bytes.{Bytes}
use pymesh.Base.Result.{Result, ok, raise}

abbrev pub Address : Type 0
Address = Text × ℕ

abbrev pub probe_msg : Bytes
probe_msg = codes "PYMESH_P2P_PROBE"

abbrev pub is_probe : Bytes → Bool
is_probe data_ = data_ == probe_msg || starts_with data_ (codes "PYMESH")

abbrev pub ep_str : Address → Text
ep_str addr = addr.0 ++ b':' ∷ show addr.1

-- the endpoint that is reachable after a datagram
abbrev pub datagram_received : Option Text → Bytes × Address → Option Text
datagram_received (some ep) d = some ep
datagram_received none (data_, addr) = if is_probe data_ then some (ep_str addr) else none

unfoldable pub all_received : Option Text → List (Bytes × Address) → Option Text
all_received reachable [] = reachable
all_received reachable (d ∷ ds) = all_received (datagram_received reachable d) ds

abbrev to_port : Text → Result ℕ → List Address
to_port ip (raise e) = []
to_port ip (ok port) = if ltb 65535 port then [] else (ip, port) ∷ []

-- where a probe goes for an endpoint; one that cannot be read, or whose port is no port, is passed
-- over
unfoldable pub target_of : Text → List Address
target_of ep = elim (rsplit_once b':' ep) [ none ↦ [] | some (ip, p) ↦ to_port ip (int_of p) ]

unfoldable pub burst : List Text → List Address
unfolding target_of
burst [] = []
burst (ep ∷ endpoints) = target_of ep ++ burst endpoints

-- the bursts, as long as nothing was reachable
unfoldable pub punch_from :
    List Text → List (List (Bytes × Address)) → Option Text × List (List Address)
unfolding all_received burst
punch_from endpoints [] = (none, [])
punch_from endpoints (ds ∷ rounds) =
    let rest = punch_from endpoints rounds in
    elim (all_received none ds) [
      | some ep ↦ (some ep, burst endpoints ∷ [])
      | none ↦ (rest.0, burst endpoints ∷ rest.1)
    ]

-- what is returned, and the targets of each burst
unfoldable pub punch_hole :
    List Text → List (List (Bytes × Address)) → Option Text × List (List Address)
unfolding punch_from
punch_hole target_endpoints rounds =
    if is_empty target_endpoints then (none, []) else punch_from target_endpoints rounds

-- the endpoint of the first datagram that is a probe
unfoldable pub first_probe : List (Bytes × Address) → Option Text
first_probe [] = none
first_probe ((data_, addr) ∷ ds) =
    let rest = first_probe ds in if is_probe data_ then some (ep_str addr) else rest

-- all datagrams, one round after another
unfoldable pub in_order : List (List (Bytes × Address)) → List (Bytes × Address)
in_order [] = []
in_order (ds ∷ rounds) = ds ++ in_order rounds

all_received-some : (ep : Text) (ds : List (Bytes × Address)) → all_received (some ep) ds ≡ some ep
unfolding all_received
all_received-some ep [] = refl
all_received-some ep (d ∷ ds) = all_received-some ep ds

all_received-first : (ds : List (Bytes × Address)) → all_received none ds ≡ first_probe ds
unfolding all_received first_probe
all_received-first [] = refl
all_received-first ((data_, addr) ∷ ds) = elim (Bool-cases (is_probe data_)) [
  | inl e ↦ rw e (all_received-some (ep_str addr) ds)
  | inr e ↦ rw e (all_received-first ds)
]

abbrev or_later : Option Text → Option Text → Option Text
or_later (some ep) later = some ep
or_later none later = later

first_probe-append :
    (ds es : List (Bytes × Address))
    → first_probe (ds ++ es) ≡ or_later (first_probe ds) (first_probe es)
unfolding first_probe
first_probe-append [] es = refl
first_probe-append ((data_, addr) ∷ ds) es = elim (Bool-cases (is_probe data_)) [
  | inl e ↦ rw e refl
  | inr e ↦ rw e (first_probe-append ds es)
]

-- Of all the datagrams that come in while the bursts go on, the first that begins with the mark of the
-- program decides: its sender is returned as the endpoint that is reachable, and none if there is no
-- such datagram in time.
pub punch_from-first :
    (endpoints : List Text) (rounds : List (List (Bytes × Address)))
    → (punch_from endpoints rounds).0 ≡ first_probe (in_order rounds)
unfolding punch_from in_order
punch_from-first endpoints [] = unfold first_probe in refl
punch_from-first endpoints (ds ∷ rounds) =
    at (all_received none ds)
    ∙ ap (λ o. or_later o (punch_from endpoints rounds).0) (all_received-first ds)
    ∙ ap (or_later (first_probe ds)) (punch_from-first endpoints rounds)
    ∙ sym (first_probe-append ds (in_order rounds))
  where
    at :
        (o : Option Text)
        → (elim o as (λ _. Option Text × List (List Address)) [
          | some ep ↦ (some ep, burst endpoints ∷ [])
          | none ↦
              ((punch_from endpoints rounds).0, burst endpoints ∷ (punch_from endpoints rounds).1)
        ]).0
          ≡ or_later o (punch_from endpoints rounds).0
    at none = refl
    at (some ep) = refl
