-- ===== src/Controller/Requests/Kept.antt =====
-- The handlers of pymesh/controller/api.py that leave the nodes alone keep the tables sound.
use pymesh.Base.{
  ℕ, ◌≡◌, refl, Bool, true, false, not, Option, none, some, ◌++◌, if◌then◌else◌, ◌==◌, nat_eq,
  text_eq, find?, All-filter, Bool-cases, inl, inr,
}
use pymesh.Base.Text.{Text, codes, rstrip}
use pymesh.Base.Result.{handshake_failed}
use pymesh.Tld.{clean_tld, validate_tld_name}
use pymesh.Tld.Laws.{validate_tld_name_iff}
use pymesh.Controller.Models.{
  Database, SubnetRoute, AclRule, AuthToken, TldRegistry, FederatedController, route_clash,
  rule_clash, token_clash, tld_clash, controller_clash,
}
use pymesh.Controller.Action.{Action, pure, fail, modify, ◌>>=◌, update_rows, All-update_rows}
use pymesh.Controller.Auth.{
  accept, new_token, add_token, has_token, count_use, used_up, validate_token, create_token,
}
use pymesh.Controller.Nodes.{Env}
use pymesh.Controller.Rules.{AclRuleModel, new_rule, rule_model, add_rule, create_acl_rule}
use pymesh.Controller.Routes.{
  SubnetRouteModel, new_route, route_model, add_row, add_route, delete_route,
}
use pymesh.Controller.Registry.{
  save_controller, save_tld, published, Payload, Response, is_tld, describe, new_tld, add_tld,
  publish_tld, has_url, set_peered, new_controller, add_controller, register_controller,
  peer_controller,
}
use pymesh.Controller.Views.{create_join_token, peer_cr_controller}
use pymesh.Controller.Requests.Keys.{insert_row-Keyed, Keyed-filter, Keyed-update_rows}
use pymesh.Controller.Requests.Sound.{
  network_id, IsTldName, IsSound, same_text, controller_clash-symmetric, IsSound-tokens,
  IsSound-routes, IsSound-acl_rules, IsSound-tlds, IsSound-controllers, Keeps, bind-Keeps,
  stored-IsSound, snoc-All,
}

module _ (env : Env) where
  add_token-Keeps : (t : AuthToken) → Keeps env (add_token t)
  add_token-Keeps t db s =
      stored-IsSound env _ (λ rows. record db { tokens = rows }) db s
        (λ rows e. IsSound-tokens s (
          insert_row-Keyed token_clash db.tokens rows t (λ a b. same_text a.token b.token) e
            s.tokens))

  pub create_join_token-Keeps :
      (token description : Text) (now : ℕ) → Keeps env (create_join_token token description now)
  unfolding create_join_token create_token
  create_join_token-Keeps token description now =
      bind-Keeps env (create_token token (codes "default") description none now)
        (λ token. pure (token, codes "/join?token=" ++ token))
        (bind-Keeps env (add_token (new_token token (codes "default") description none now))
          (λ _. pure token) (add_token-Keeps _) (λ _ db s. s))
        (λ _ db s. s)

  pub validate_token-Keeps : (token : Text) → Keeps env (validate_token token)
  unfolding validate_token ◌>>=◌
  validate_token-Keeps token db s = found (find? (has_token token) db.tokens)
    where
      counting : Database → Database
      counting d = record d { tokens = update_rows (has_token token) count_use d.tokens }

      counted :
          (b : Bool)
          → IsSound env ((if b then pure false else (modify counting >>= λ _. pure true)) db).1
      counted true = s
      counted false = IsSound-tokens s (
          Keyed-update_rows token_clash count_use (λ a b. refl) (λ a b. refl) (has_token token)
            db.tokens s.tokens)

      found : (o : Option AuthToken) → IsSound env (accept token o db).1
      found none = s
      found (some t) = counted (used_up t)

  add_rule-Keeps : (r : AclRule) → r.network_id ≡ network_id → Keeps env (add_rule r)
  add_rule-Keeps r same db s =
      stored-IsSound env _ (λ rows. record db { acl_rules = rows }) db s
        (λ rows e.
          IsSound-acl_rules s
            (insert_row-Keyed rule_clash db.acl_rules rows r (λ a b. same_text a.id b.id) e s.rules)
            (snoc-All env _ rule_clash db.acl_rules rows r e s.rule_networks same))

  pub create_acl_rule-Keeps :
      (rule : AclRuleModel) (uuid : Text) (now : ℕ) → Keeps env (create_acl_rule rule uuid now)
  unfolding create_acl_rule
  create_acl_rule-Keeps rule uuid now =
      bind-Keeps env (add_rule (new_rule rule uuid now))
        (λ _. pure (rule_model (new_rule rule uuid now))) (add_rule-Keeps _ refl) (λ _ db s. s)

  add_row-Keeps : (r : SubnetRoute) → r.network_id ≡ network_id → Keeps env (add_row r)
  unfolding add_row
  add_row-Keeps r same db s =
      stored-IsSound env _ (λ rows. record db { routes = rows }) db s
        (λ rows e.
          IsSound-routes s
            (insert_row-Keyed route_clash db.routes rows r (λ a b. same_text a.id b.id) e s.routes)
            (snoc-All env _ route_clash db.routes rows r e s.route_networks same))

  pub add_route-Keeps :
      (route : SubnetRouteModel) (uuid : Text) (now : ℕ) → Keeps env (add_route route uuid now)
  unfolding add_route
  add_route-Keeps route uuid now =
      bind-Keeps env (add_row (new_route route uuid now))
        (λ _. pure (route_model (new_route route uuid now))) (add_row-Keeps _ refl) (λ _ db s. s)

  pub delete_route-Keeps : (route_id : Text) → Keeps env (delete_route route_id)
  unfolding delete_route
  delete_route-Keeps route_id db s =
      IsSound-routes s (Keyed-filter route_clash _ db.routes s.routes)
        (All-filter _ _ db.routes s.route_networks)

  pub register_controller-Keeps :
      (url : Text) (payload : Payload) (uuid : Text) (now : ℕ)
      → Keeps env (register_controller url payload uuid now)
  unfolding register_controller add_controller
  register_controller-Keeps url payload uuid now db s = found (find? (has_url url) db.controllers)
    where
      found :
          (o : Option FederatedController)
          → IsSound env (save_controller url payload uuid now o db).1
      found none =
          stored-IsSound env _ (λ rows. record db { controllers = rows }) db s
            (λ rows e. IsSound-controllers s (
              insert_row-Keyed controller_clash db.controllers rows
                (new_controller url payload uuid now) controller_clash-symmetric e s.controllers))
      found (some c) = IsSound-controllers s (
          Keyed-update_rows controller_clash set_peered (λ a b. refl) (λ a b. refl) (has_url url)
            db.controllers s.controllers)

  peer_controller-Keeps :
      (url : Text) (resp : Response) (uuid : Text) (now : ℕ)
      → Keeps env (peer_controller url resp uuid now)
  unfolding peer_controller
  peer_controller-Keeps url resp uuid now db s = answered (not (resp.status_code == 200))
    where
      done : Action Payload
      done = register_controller (rstrip b'/' url) resp.body uuid now >>= λ _. pure resp.body

      answered : (b : Bool) → IsSound env ((if b then fail handshake_failed else done) db).1
      answered true = s
      answered false =
          bind-Keeps env (register_controller (rstrip b'/' url) resp.body uuid now)
            (λ _. pure resp.body) (register_controller-Keeps (rstrip b'/' url) resp.body uuid now)
            (λ _ db s. s) db s

  pub peer_cr_controller-Keeps :
      (url : Text) (resp : Response) (uuid : Text) (now : ℕ)
      → Keeps env (peer_cr_controller url resp uuid now)
  unfolding peer_cr_controller
  peer_cr_controller-Keeps url resp uuid now =
      bind-Keeps env (peer_controller url resp uuid now) (λ result. pure (url, result))
        (peer_controller-Keeps url resp uuid now) (λ _ db s. s)

  save_tld-Keeps :
      (name d p : Text) (now : ℕ) (o : Option TldRegistry)
      → IsTldName name
      → Keeps env (save_tld name d p now o)
  unfolding add_tld
  save_tld-Keeps name d p now none w db s =
      stored-IsSound env _ (λ rows. record db { tlds = rows }) db s
        (λ rows e.
          IsSound-tlds s
            (insert_row-Keyed tld_clash db.tlds rows (new_tld name d p now)
              (λ a b. same_text a.name b.name) e s.tlds)
            (snoc-All env _ tld_clash db.tlds rows (new_tld name d p now) e s.names w))
  save_tld-Keeps name d p now (some t) w db s =
      IsSound-tlds s
        (Keyed-update_rows tld_clash (describe d p) (λ a b. refl) (λ a b. refl) (is_tld name)
          db.tlds s.tlds)
        (All-update_rows (is_tld name) (describe d p) db.tlds (λ t q. q) s.names)

  pub publish_tld-Keeps : (name d p : Text) (now : ℕ) → Keeps env (publish_tld name d p now)
  unfolding publish_tld
  publish_tld-Keeps name d p now db s = elim (Bool-cases (validate_tld_name name)) [
    | inr e ↦ rw e s
    | inl e ↦ rw e (
        bind-Keeps env (save_tld (clean_tld name) d p now (find? (is_tld (clean_tld name)) db.tlds))
          (λ _. pure (published (clean_tld name) d))
          (save_tld-Keeps (clean_tld name) d p now _ ((validate_tld_name_iff name).0 e))
          (λ _ db s. s) db s)
  ]
