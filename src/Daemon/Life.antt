-- ===== src/Daemon/Life.antt =====
-- The life of a daemon (pymesh/daemon/lifecycle.py, pymesh/daemon/main.py): its rounds, and the
-- stops that may come between them or in the middle of one, which is then given up.
use mathlib.Core.Path.{subst}
use pymesh.Base.{
  ◌≡◌, refl, ◌∙◌, sym, Bool, true, false, Option, none, some, List, [], ◌∷◌, ◌⊎◌, inl, inr,
}
use pymesh.Base.Text.{Text}
use pymesh.Base.Result.{Result, ok, raise}
use pymesh.Identity.{NodeIdentity, IdentityFile, load_identity}
use pymesh.Controller.Peers.{NetworkConfigResponse}
use pymesh.Daemon.{
  World, Daemon, Heard, Fetched, config, unreachable, refused, start, stop, new_daemon, started,
  sync_with_controller, mark_running,
}
use pymesh.Daemon.Rounds.{IsInStep, Answered, round-IsInStep, round-state}

-- Is the loop in the middle of a round, or does it wait for the next one?
pub data Phase : Type 0 where
  waiting : Phase
  syncing : Phase

-- A round begins only while the daemon runs, and ends with what it heard. `stop` is called when the
-- process ends: it ends the waiting, and a round that has begun is cancelled, where it waits for
-- the controller and has changed nothing yet.
pub data Step (w : World) : Daemon → Phase → Daemon → Phase → Type 0 where
  begin : (d : Daemon) → d.running ≡ true → d.looping ≡ true → Step w d waiting d syncing
  finish : (d : Daemon) (h : Heard) → Step w d syncing (sync_with_controller w h d).0 waiting
  halt : (d : Daemon) (ph : Phase) → Step w d ph (stop w d) waiting

pub data Reach (w : World) : Daemon → Phase → Daemon → Phase → Type 0 where
  here : (d : Daemon) (ph : Phase) → Reach w d ph d ph
  after :
      (d₀ : Daemon) (ph₀ : Phase) (d₁ : Daemon) (ph₁ : Phase) (d₂ : Daemon) (ph₂ : Phase)
      → Reach w d₀ ph₀ d₁ ph₁
      → Step w d₁ ph₁ d₂ ph₂
      → Reach w d₀ ph₀ d₂ ph₂

-- in step with the configuration that was stored, or still as it was made
abbrev pub Synced : Daemon → Option NetworkConfigResponse → Type 0
Synced d none = (d.state.peers ≡ []) × (d.dns_records ≡ []) × (d.state.last_sync ≡ none)
Synced d (some c) = IsInStep c d

pub record IsConsistent (d : Daemon) : Type 0 where
  pub flagged : d.state.is_running ≡ d.running
  pub synced : Synced d d.state.config

with_url-cases :
    (w : World) (h : Heard) (d : Daemon) (i : NodeIdentity) (url : Option Text) (posted : Bool)
    (f : Fetched)
    → d.state.identity ≡ some i
    → i.controller_url ≡ url
    → h.posted ≡ posted
    → h.fetched ≡ f
    → ((sync_with_controller w h d).0 ≡ d) ⊎ ((c : NetworkConfigResponse) × Answered d h c)
unfolding sync_with_controller
with_url-cases w h d i none posted f known joined e e' = inl (rw (known) (rw joined refl))
with_url-cases w h d i (some []) posted f known joined e e' = inl (rw known (rw joined refl))
with_url-cases w h d i (some (x ∷ t)) false f known joined e e' =
    inl (rw known (rw joined (rw e refl)))
with_url-cases w h d i (some (x ∷ t)) true unreachable known joined e e' =
    inl (rw known (rw joined (rw e (rw e' refl))))
with_url-cases w h d i (some (x ∷ t)) true refused known joined e e' =
    inl (rw known (rw joined (rw e (rw e' refl))))
with_url-cases w h d i (some (x ∷ t)) true (config c) known joined e e' = inr (
  c,
  record {
    identity = i;
    known = known;
    url_head = x;
    url_tail = t;
    joined = joined;
    posted = e;
    fetched = e';
  },
)

-- a round changes nothing, or the controller answers it
pub round-cases :
    (w : World) (h : Heard) (d : Daemon) (o : Option NodeIdentity)
    → d.state.identity ≡ o
    → ((sync_with_controller w h d).0 ≡ d) ⊎ ((c : NetworkConfigResponse) × Answered d h c)
unfolding sync_with_controller
round-cases w h d none e = inl (rw e refl)
round-cases w h d (some i) e =
    with_url-cases w h d i i.controller_url h.posted h.fetched e refl refl refl

-- no round changes whether the daemon runs
pub round-running :
    (w : World) (h : Heard) (d : Daemon)
    → ((sync_with_controller w h d).0.running ≡ d.running)
      × ((sync_with_controller w h d).0.state.is_running ≡ d.state.is_running)
round-running w h d = elim (round-cases w h d d.state.identity refl) [
  | inl e ↦ rw e (refl, refl)
  | inr (c, a) ↦ rw (round-state w h d c a) (refl, refl)
]

Synced-IsInStep : (d : Daemon) (c : NetworkConfigResponse) → IsInStep c d → Synced d d.state.config
Synced-IsInStep d c k = subst (Synced d) (sym k.configured) k

round-IsConsistent :
    (w : World) (h : Heard) (d : Daemon)
    → IsConsistent d
    → IsConsistent (sync_with_controller w h d).0
round-IsConsistent w h d k = elim (round-cases w h d d.state.identity refl) [
  | inl e ↦ rw e k
  | inr (c, a) ↦ record {
    flagged = (round-running w h d).1 ∙ k.flagged ∙ sym (round-running w h d).0;
    synced = Synced-IsInStep _ c (round-IsInStep w h d c a);
  }
]

Synced-stop :
    (w : World) (d : Daemon) (o : Option NetworkConfigResponse) → Synced d o → Synced (stop w d) o
unfolding stop
Synced-stop w d none k = k
Synced-stop w d (some c) k = record {
  configured = k.configured;
  peered = k.peered;
  resolving = k.resolving;
  addressed = k.addressed;
}

stop-IsConsistent : (w : World) (d : Daemon) → IsConsistent d → IsConsistent (stop w d)
unfolding stop
stop-IsConsistent w d k = record {
  flagged = refl;
  synced = Synced-stop w d d.state.config k.synced;
}

start-IsConsistent :
    (w : World) (files : List IdentityFile) (nat_type : Text) (hosts_file : Option Text)
    → IsConsistent (start w files nat_type (new_daemon hosts_file)).0
unfolding start new_daemon
start-IsConsistent w files nat_type hosts_file = at (load_identity files)
  where
    at :
        (r : Result (Option NodeIdentity))
        → IsConsistent (started w nat_type (mark_running true (new_daemon hosts_file)) r).0
    at (raise e) = record { flagged = refl; synced = (refl, refl, refl) }
    at (ok none) = record { flagged = refl; synced = (refl, refl, refl) }
    at (ok (some i)) = record { flagged = refl; synced = (refl, refl, refl) }

Step-IsConsistent :
    (w : World) (d d' : Daemon) (ph ph' : Phase)
    → Step w d ph d' ph'
    → IsConsistent d
    → IsConsistent d'
Step-IsConsistent w _ _ _ _ (begin d e e') k = k
Step-IsConsistent w _ _ _ _ (finish d h) k = round-IsConsistent w h d k
Step-IsConsistent w _ _ _ _ (halt d ph) k = stop-IsConsistent w d k

Reach-IsConsistent :
    (w : World) (d d' : Daemon) (ph ph' : Phase)
    → Reach w d ph d' ph'
    → IsConsistent d
    → IsConsistent d'
Reach-IsConsistent w _ _ _ _ (here d ph) k = k
Reach-IsConsistent w _ _ _ _ (after d ph d₁ ph₁ d₂ ph₂ before s) k =
    Step-IsConsistent w d₁ d₂ ph₁ ph₂ s (Reach-IsConsistent w d d₁ ph ph₁ before k)

-- However a daemon that was started comes to a state, by rounds that succeed or fail and by stops
-- between them and in the middle of them, which give up the round: `is_running` is the flag that its loop reads. While no
-- configuration was fetched there are no peers, no records and no time of a round. Once one was,
-- the daemon is in step with it: the peers are those of the configuration, the resolver has
-- the records of these peers, and the identity has the addresses of the configuration.
pub life-IsConsistent :
    (w : World) (files : List IdentityFile) (nat_type : Text) (hosts_file : Option Text)
    (d : Daemon) (ph : Phase)
    → Reach w (start w files nat_type (new_daemon hosts_file)).0 waiting d ph
    → IsConsistent d
life-IsConsistent w files nat_type hosts_file d ph r =
    Reach-IsConsistent w _ d waiting ph r (start-IsConsistent w files nat_type hosts_file)
