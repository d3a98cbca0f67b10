-- ===== src/Daemon/Recovery.antt =====
-- How a daemon comes in step with its controller after failures (pymesh/daemon/lifecycle.py).
use mathlib.Core.Option.{some-injective}
use pymesh.Base.{ℕ, ◌≡◌, refl, ◌∙◌, ap, sym, true, some, List, [], ◌∷◌, ◌++◌, arith, inl, inr}
use pymesh.Base.Text.{Text}
use pymesh.Base.Result.{ok}
use pymesh.Identity.{NodeIdentity, IdentityFile, load_identity}
use pymesh.Controller.Peers.{NetworkConfigResponse}
use pymesh.Daemon.{World, Daemon, Heard, config, start, sync_with_controller}
use pymesh.Daemon.Rounds.{IsInStep, settled, round-IsInStep, round-state}
use pymesh.Daemon.Life.{round-cases, round-running}

-- rounds one after another
unfoldable pub rounds : World → List Heard → Daemon → Daemon
rounds w [] d = d
rounds w (h ∷ hs) d = rounds w hs (sync_with_controller w h d).0

-- a daemon that goes on asking its controller
pub record IsAsking (url : Text) (d : Daemon) : Type 0 where
  pub running : d.running ≡ true
  pub looping : d.looping ≡ true
  pub asked : (i : NodeIdentity) × (d.state.identity ≡ some i) × (i.controller_url ≡ some url)

settled-controller_url :
    (i : NodeIdentity) (c : NetworkConfigResponse) → (settled i c).controller_url ≡ i.controller_url
settled-controller_url i c = ground arith

round-looping :
    (w : World) (h : Heard) (d : Daemon) → (sync_with_controller w h d).0.looping ≡ d.looping
round-looping w h d = elim (round-cases w h d d.state.identity refl) [
  | inl e ↦ rw e refl
  | inr (c, a) ↦ rw (round-state w h d c a) refl
]

round-IsAsking :
    (w : World) (h : Heard) (d : Daemon) (url : Text)
    → IsAsking url d
    → IsAsking url (sync_with_controller w h d).0
round-IsAsking w h d url k = elim (round-cases w h d d.state.identity refl) [
  | inl e ↦ rw e k
  | inr (c, a) ↦ record {
    running = (round-running w h d).0 ∙ k.running;
    looping = round-looping w h d ∙ k.looping;
    asked = (
      settled a.identity c,
      ap (λ (e : Daemon). e.state.identity) (round-state w h d c a),
      settled-controller_url a.identity c
          ∙ ap (λ (j : NodeIdentity). j.controller_url)
              (some-injective _ _ (sym a.known ∙ k.asked.1))
          ∙ k.asked.2,
    );
  }
]

-- A round that hears a configuration, with any rounds before it, leaves an asking daemon in step.
rounds-IsInStep :
    (w : World) (url : Text) (x : ℕ) (h : Heard) (c : NetworkConfigResponse)
    → h.posted ≡ true
    → h.fetched ≡ config c
    → (hs : List Heard) (d : Daemon) → IsAsking (x ∷ url) d
    → IsInStep c (rounds w (hs ++ h ∷ []) d) × IsAsking (x ∷ url) (rounds w (hs ++ h ∷ []) d)
unfolding rounds
rounds-IsInStep w url x h c e e' [] d k = (
  round-IsInStep w h d c (record {
    identity = k.asked.0;
    known = k.asked.1;
    url_head = x;
    url_tail = url;
    joined = k.asked.2;
    posted = e;
    fetched = e';
  }),
  round-IsAsking w h d (x ∷ url) k,
)
rounds-IsInStep w url x h c e e' (h' ∷ hs) d k =
    rounds-IsInStep w url x h c e e' hs _ (round-IsAsking w h' d (x ∷ url) k)

start-IsAsking :
    (w : World) (files : List IdentityFile) (nat_type : Text) (d : Daemon) (i : NodeIdentity)
    (url : Text)
    → load_identity files ≡ ok (some i)
    → i.controller_url ≡ some url
    → IsAsking url (start w files nat_type d).0
unfolding start
start-IsAsking w files nat_type d i url e e' =
    rw e (record { running = refl; looping = refl; asked = (i, refl, e') })

-- A daemon that is started with an identity that names a controller comes in step with
-- the controller whatever went wrong before: after any rounds, failed ones included, one round in
-- which the heartbeat is posted and a configuration comes back is enough. The daemon still runs and
-- still asks the same controller then.
pub start-recovers :
    (w : World) (files : List IdentityFile) (nat_type : Text) (d : Daemon) (i : NodeIdentity)
    (x : ℕ) (url : Text)
    → load_identity files ≡ ok (some i)
    → i.controller_url ≡ some (x ∷ url)
    → (before : List Heard) (h : Heard) (c : NetworkConfigResponse) → h.posted ≡ true
    → h.fetched ≡ config c
    → IsInStep c (rounds w (before ++ h ∷ []) (start w files nat_type d).0)
      × IsAsking (x ∷ url) (rounds w (before ++ h ∷ []) (start w files nat_type d).0)
start-recovers w files nat_type d i x url e e' before h c posted fetched =
    rounds-IsInStep w url x h c posted fetched before (start w files nat_type d).0
      (start-IsAsking w files nat_type d i (x ∷ url) e e')
