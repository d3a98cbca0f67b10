-- ===== src/Cli/Main/Laws.antt =====
-- What the commands do to the file of the identity, and without one (pymesh/cli).
use pymesh.Base.{
  ℕ, ◌≢◌, sym, ◌∙◌, ◌≡◌, refl, Bool, Option, none, some, List, [], ◌∷◌, ◌⊎◌, inl, inr, Option-cases,
}
use pymesh.Base.Text.{Text}
use pymesh.Base.Result.{Result, ok, raise, Exception}
use pymesh.Identity.{
  NodeIdentity, IdentityFile, missing, unreadable, stored, Saving, not_opened, cut_short,
  not_protected,
}
use pymesh.Controller.Nodes.{NodeRegistrationResponse}
use pymesh.Controller.Peers.{NetworkConfigResponse}
use pymesh.Controller.Views.{NodeView}
use pymesh.Cli.{
  asks_nodes, address_of, Reply, failed, refused, answered, Effect, Run, given, with_identity,
  with_controller, with_url, done, no_controller,
}
use pymesh.Cli.Join.{
  asking, joined, handle_join, handle_route_add, handle_tld_publish, handle_cr_peer,
}
use pymesh.Cli.Show.{
  handle_status, handle_nodes, handle_netcheck, handle_ping, handle_ssh, handle_key, handle_up,
  handle_down, handle_tld_list, handle_cr_status,
}
use pymesh.Cli.Forward.{
  announce, forward_to, proxied, parse_ports, bind_from, handle_forward, handle_dns_server,
}
use pymesh.Cli.Main.{
  Subcommand, join, up, down, status, nodes, peers, ping, ssh, netcheck, topology, key, identity,
  forward, route_add, tld_publish, tld_list, cr_peer, cr_status, dns_server, Around, dispatch,
}

with_identity-file :
    (file : IdentityFile) (k : NodeIdentity → Run)
    → ((i : NodeIdentity) → (k i).file ≡ stored i)
    → (with_identity file k).file ≡ file
unfolding with_identity
with_identity-file missing k h = refl
with_identity-file unreadable k h = refl
with_identity-file (stored i) k h = h i

with_controller-file :
    (file : IdentityFile) (k : NodeIdentity → Text → List Effect)
    → (with_controller file k).file ≡ file
unfolding with_controller
with_controller-file file k = with_identity-file file _ (λ i. at i (given i.controller_url))
  where
    at :
        (i : NodeIdentity) (url : Option Text)
        → (elim url as (λ _. Run) [
          | none ↦ done i (no_controller ∷ [])
          | some u ↦ done i (k i u)
        ]).file
          ≡ stored i
    at i none = refl
    at i (some url) = refl

with_url-file :
    (file : IdentityFile) (before : List Effect) (k : Option Text → Run)
    → ((url : Option Text) → (k url).file ≡ file)
    → (with_url file before k).file ≡ file
unfolding with_url
with_url-file missing before k h = refl
with_url-file unreadable before k h = h none
with_url-file (stored i) before k h = h (given i.controller_url)

proxied-file :
    (file : IdentityFile) (asked : List Effect) (says : Option ℕ → List Effect)
    (r : Result (Option ℕ))
    → (proxied file asked says r).file ≡ file
proxied-file file asked says (raise e) = refl
proxied-file file asked says (ok bound) = refl

forward_to-file :
    (binds : ℕ → Bool) (target : Text) (listed : Reply (List NodeView)) (file : IdentityFile)
    (ports : Result (ℕ × ℕ))
    → (forward_to binds target listed file ports).file ≡ file
forward_to-file binds target listed file (raise e) = refl
forward_to-file binds target listed file (ok (local, remote)) = with_url-file file [] _ (λ url.
    proxied-file file (asks_nodes url) (announce target (address_of url target listed) local remote)
      (bind_from binds 100 local))

handle_status-file :
    (served : Reply NetworkConfigResponse) (file : IdentityFile)
    → (handle_status served file).file ≡ file
unfolding handle_status
handle_status-file served file = with_identity-file file _ (λ i.
    elim (Option-cases (given i.controller_url)) [ inl e ↦ rw e refl | inr (url, e) ↦ rw e refl ])

handle_forward-file :
    (binds : ℕ → Bool) (target ports : Text) (listed : Reply (List NodeView)) (file : IdentityFile)
    → (handle_forward binds target ports listed file).file ≡ file
unfolding handle_forward
handle_forward-file binds target ports listed file =
    forward_to-file binds target listed file (parse_ports ports)

handle_dns_server-file :
    (host : Text) (port : ℕ) (url : Option Text) (file : IdentityFile)
    → (handle_dns_server host port url file).0.file ≡ file
unfolding handle_dns_server with_identity
handle_dns_server-file host port none file = at file
  where
    at : (file : IdentityFile) → (handle_dns_server host port none file).0.file ≡ file
    at missing = refl
    at unreadable = refl
    at (stored i) = refl
handle_dns_server-file host port (some []) file = at file
  where
    at : (file : IdentityFile) → (handle_dns_server host port (some []) file).0.file ≡ file
    at missing = refl
    at unreadable = refl
    at (stored i) = refl
handle_dns_server-file host port (some (c ∷ url)) file = refl

-- The identity is the one that was made, for this controller, with the id and the addresses that it
-- was answered.
pub record IsJoined (url : Text) (token : Option Text) (made : NodeIdentity)
    (answer : NodeRegistrationResponse) (i : NodeIdentity) : Type 0 where
  pub node_id : i.node_id ≡ answer.node_id
  pub mesh_ipv4 : i.mesh_ipv4 ≡ some answer.mesh_ipv4
  pub mesh_ipv6 : i.mesh_ipv6 ≡ some answer.mesh_ipv6
  pub controller_url : i.controller_url ≡ some url
  pub auth_token : i.auth_token ≡ token
  pub hostname : i.hostname ≡ made.hostname
  pub wg_private_key : i.wg_private_key ≡ made.wg_private_key
  pub wg_public_key : i.wg_public_key ≡ made.wg_public_key
  pub identity_private_key : i.identity_private_key ≡ made.identity_private_key
  pub identity_public_key : i.identity_public_key ≡ made.identity_public_key
  pub listen_port : i.listen_port ≡ made.listen_port

-- the command does not join
abbrev pub Stays : Subcommand → Type 0
Stays (join url token hostname) = ⊥
Stays _ = Unit

-- what a command makes of the file
pub data Leaves (w : Around) (file : IdentityFile) : Subcommand → IdentityFile → Type 0 where
  -- it does not join
  kept :
      {cmd : Subcommand} {after : IdentityFile} → Stays cmd → after ≡ file → Leaves w file cmd after
  -- it joins, and no identity could be made, the controller did not accept it, or the file could
  -- not be opened
  not_written :
      {url : Text} {token hostname : Option Text}
      → ((e : Exception) × (w.create_new hostname ≡ raise e))
        ⊎ (((r : NodeRegistrationResponse) → w.registered ≢ answered r)
            ⊎ ((e : Text) × (w.saving ≡ not_opened e)))
      → Leaves w file (join url token hostname) file
  -- it joins, and the identity was written, whether the mode of the file could be set or not
  written :
      {url : Text} {token hostname : Option Text} {made i : NodeIdentity}
      {answer : NodeRegistrationResponse}
      → w.create_new hostname ≡ ok made
      → w.registered ≡ answered answer
      → (w.saving ≡ Saving.done) ⊎ ((e : Text) × (w.saving ≡ not_protected e))
      → IsJoined url token made answer i
      → Leaves w file (join url token hostname) (stored i)
  -- it joins, and the writing was cut short
  spoiled :
      {url : Text} {token hostname : Option Text} {made : NodeIdentity}
      {answer : NodeRegistrationResponse} {e : Text}
      → w.create_new hostname ≡ ok made
      → w.registered ≡ answered answer
      → w.saving ≡ cut_short e
      → Leaves w file (join url token hostname) unreadable

joined-IsJoined :
    (url : Text) (token : Option Text) (made : NodeIdentity) (r : NodeRegistrationResponse)
    → IsJoined url token made r (joined r (asking url token made))
joined-IsJoined url token made r = record {
  node_id = refl;
  mesh_ipv4 = refl;
  mesh_ipv6 = refl;
  controller_url = refl;
  auth_token = refl;
  hostname = refl;
  wg_private_key = refl;
  wg_public_key = refl;
  identity_private_key = refl;
  identity_public_key = refl;
  listen_port = refl;
}

module _ (w : Around) (file : IdentityFile) (url : Text) (token hostname : Option Text) where
  saved-Leaves :
      (made : NodeIdentity) (r : NodeRegistrationResponse) (s : Saving)
      → w.create_new hostname ≡ ok made
      → w.registered ≡ answered r
      → w.saving ≡ s
      → Leaves w file
          (join url token hostname)
          (handle_join url token (ok made) (answered r) s file).file
  unfolding handle_join
  saved-Leaves made r Saving.done c a e = written c a (inl e) (joined-IsJoined url token made r)
  saved-Leaves made r (not_opened x) c a e = not_written (inr (inr (x, e)))
  saved-Leaves made r (cut_short x) c a e = spoiled c a e
  saved-Leaves made r (not_protected x) c a e =
      written c a (inr (x, e)) (joined-IsJoined url token made r)

  join-Leaves :
      (new : Result NodeIdentity) (reply : Reply NodeRegistrationResponse)
      → w.create_new hostname ≡ new
      → w.registered ≡ reply
      → Leaves w file (join url token hostname) (handle_join url token new reply w.saving file).file
  unfolding handle_join
  join-Leaves (raise x) reply c a = not_written (inl (x, c))
  join-Leaves (ok made) (failed x) c a = not_written (inr (inl (λ r e. refused_one (sym a ∙ e))))
    where
      refused_one : {r : NodeRegistrationResponse} → failed x ≡ answered r → ⊥
      refused_one e = cc
  join-Leaves (ok made) (refused code x) c a =
      not_written (inr (inl (λ r e. refused_one (sym a ∙ e))))
    where
      refused_one : {r : NodeRegistrationResponse} → refused code x ≡ answered r → ⊥
      refused_one e = cc
  join-Leaves (ok made) (answered r) c a = saved-Leaves made r w.saving c a refl

-- What a command makes of the file of the identity, whatever it is and whatever is answered. A command
-- that does not join leaves it. A join leaves it if no identity is made, the controller does not
-- accept the node, or the file cannot be opened. A join that is accepted and whose identity is
-- written leaves the new identity, for this controller, with the id and the addresses of the
-- answer and with the keys that were made, also if the mode of the file cannot be set. A join that
-- is accepted and whose writing is cut short leaves no identity that can be read.
pub dispatch-file :
    (cmd : Subcommand) (w : Around) (file : IdentityFile)
    → Leaves w file cmd (dispatch cmd w file).file
unfolding dispatch handle_nodes handle_ping handle_ssh handle_netcheck handle_key handle_up
    handle_down handle_route_add handle_tld_publish handle_tld_list handle_cr_peer handle_cr_status
dispatch-file (join url token hostname) w file =
    join-Leaves w file url token hostname (w.create_new hostname) w.registered refl refl
dispatch-file up w file = kept tt (with_identity-file file _ (λ i. refl))
dispatch-file down w file = kept tt refl
dispatch-file status w file = kept tt (handle_status-file w.served file)
dispatch-file nodes w file = kept tt (with_controller-file file _)
dispatch-file peers w file = kept tt (handle_status-file w.served file)
dispatch-file (ping target) w file = kept tt (with_url-file file _ _ (λ url. refl))
dispatch-file (ssh target) w file = kept tt (with_identity-file file _ (λ i. refl))
dispatch-file netcheck w file = kept tt refl
dispatch-file topology w file = kept tt (with_controller-file file _)
dispatch-file key w file = kept tt (with_identity-file file _ (λ i. refl))
dispatch-file identity w file = kept tt (with_identity-file file _ (λ i. refl))
dispatch-file (forward target ports) w file =
    kept tt (handle_forward-file w.binds target ports w.listed file)
dispatch-file (route_add subnet via) w file = kept tt (with_controller-file file _)
dispatch-file (tld_publish name info desc) w file = kept tt (with_controller-file file _)
dispatch-file tld_list w file = kept tt (with_controller-file file _)
dispatch-file (cr_peer url) w file = kept tt (with_controller-file file _)
dispatch-file cr_status w file = kept tt (with_controller-file file _)
dispatch-file (dns_server host port url) w file = kept tt (handle_dns_server-file _ _ url file)
