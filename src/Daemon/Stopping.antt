-- ===== src/Daemon/Stopping.antt =====
-- A daemon that is stopped (pymesh/daemon/lifecycle.py).
use pymesh.Base.{◌≡◌, refl, false, Bool-cases, inl, inr}
use pymesh.Dns.Server.Sockets
use pymesh.Dns.Server.Sockets.{Socket}
use pymesh.Daemon.{World, Daemon, stop}
use pymesh.Daemon.Life.{Phase, waiting, Step, begin, finish, halt, Reach, here, after}

is_open-stop : (s : Socket) → (Sockets.stop s).is_open ≡ false
unfolding Sockets.stop
is_open-stop s = elim (Bool-cases s.is_open) [
  | inl e ↦ rw (e, Sockets.stop) refl
  | inr e ↦ rw (e, Sockets.stop) refl
]

-- what a stopped daemon keeps
pub record Stays (d d' : Daemon) (ph : Phase) : Type 0 where
  pub phase : ph ≡ waiting
  pub stopped : (d'.running ≡ false) × (d'.state.is_running ≡ false)
  pub identity : d'.state.identity ≡ d.state.identity
  pub config : d'.state.config ≡ d.state.config
  pub peers : d'.state.peers ≡ d.state.peers
  pub last_sync : d'.state.last_sync ≡ d.state.last_sync
  pub dns_records : d'.dns_records ≡ d.dns_records
  pub closed : d'.dns_server.is_open ≡ false

Step-Stays :
    (w : World) (d d₁ d₂ : Daemon) (ph₁ ph₂ : Phase)
    → Step w d₁ ph₁ d₂ ph₂
    → Stays d d₁ ph₁
    → Stays d d₂ ph₂
unfolding stop
Step-Stays w d _ _ _ _ (begin d₁ e e') k = let off = k.stopped.0 in cc
Step-Stays w d _ _ _ _ (finish d₁ h) k = let p = k.phase in cc
Step-Stays w d _ _ _ _ (halt d₁ ph) k = record {
  phase = refl;
  stopped = (refl, refl);
  identity = k.identity;
  config = k.config;
  peers = k.peers;
  last_sync = k.last_sync;
  dns_records = k.dns_records;
  closed = is_open-stop d₁.dns_server;
}

Reach-Stays :
    (w : World) (d d₀ d' : Daemon) (ph₀ ph : Phase)
    → Reach w d₀ ph₀ d' ph
    → Stays d d₀ ph₀
    → Stays d d' ph
Reach-Stays w d _ _ _ _ (here _ _) k = k
Reach-Stays w d _ _ _ _ (after d₀ ph₀ d₁ ph₁ d₂ ph₂ before s) k =
    Step-Stays w d d₁ d₂ ph₁ ph₂ s (Reach-Stays w d d₀ d₁ ph₀ ph₁ before k)

-- A daemon that is stopped between two rounds stays so: whatever steps follow, none is a round, and
-- the identity, the configuration, the peers and the records are those that it had when it stopped,
-- and its resolver has no transport.
pub stop-Stays :
    (w : World) (d d' : Daemon) (ph : Phase) → Reach w (stop w d) waiting d' ph → Stays d d' ph
unfolding stop
stop-Stays w d d' ph r = Reach-Stays w d (stop w d) d' waiting ph r (record {
  phase = refl;
  stopped = (refl, refl);
  identity = refl;
  config = refl;
  peers = refl;
  last_sync = refl;
  dns_records = refl;
  closed = is_open-stop d.dns_server;
})
