-- ===== src/Controller/Auth.antt =====
-- pymesh/controller/auth.py: join tokens. The random token is an argument.
pub mod Uses
use pymesh.Base.{
  ℕ, ◌+◌, Bool, true, false, Option, none, some, List, [], ◌∷◌, if◌then◌else◌, ◌==◌, text_eq, find?,
  leb,
}
use pymesh.Base.Text.{Text, codes}
use pymesh.Base.Result.{Result, ok, raise}
use pymesh.Controller.Models.{Database, AuthToken, token_clash}
use pymesh.Controller.Action.{
  Action, pure, fail, lift, select, modify, ◌>>=◌, ◌>>◌, insert_row, update_rows,
}

-- an INSERT into `auth_tokens`
abbrev pub add_token : AuthToken → Action (Unit {0})
add_token t db = elim (insert_row token_clash t db.tokens) [
  | ok rows ↦ (ok tt, record db { tokens = rows })
  | raise e ↦ (raise e, db)
]

abbrev pub new_token : Text → Text → Text → Option ℕ → ℕ → AuthToken
new_token token_str network_id description max_uses now = record {
  token = token_str;
  network_id = network_id;
  description = description;
  used_count = 0;
  max_uses = max_uses;
  expires_at = none;
  created_at = now;
}

unfoldable pub create_token : Text → Text → Text → Option ℕ → ℕ → Action Text
unfolding ◌>>=◌
create_token token_str network_id description max_uses now = do
  add_token (new_token token_str network_id description max_uses now)
  pure token_str

-- `token_obj.max_uses is not None and token_obj.used_count >= token_obj.max_uses`
unfoldable pub used_up : AuthToken → Bool
used_up t = elim t.max_uses [ none ↦ false | some m ↦ leb m t.used_count ]

abbrev pub has_token : Text → AuthToken → Bool
has_token token_str t = t.token == token_str

abbrev pub count_use : AuthToken → AuthToken
count_use t = record t { used_count = t.used_count + 1 }

abbrev pub accept : Text → Option AuthToken → Action Bool
accept token_str none = pure false
accept token_str (some t) = if used_up t then pure false else do
  modify (λ db. record db { tokens = update_rows (has_token token_str) count_use db.tokens })
  pure true

unfoldable pub validate_token : Text → Action Bool
unfolding ◌>>=◌
validate_token token_str = do
  token_obj ← select (λ db. find? (has_token token_str) db.tokens)
  accept token_str token_obj
