-- ===== src/Controller/Models.antt =====
-- pymesh/storage/models.py: the rows of each table, and the tables as the state of the controller.
-- A time is a number, and a table is the list of its rows in the order of insertion.
use pymesh.Base.{ℕ, Bool, ◌||◌, Option, List, [], ◌==◌, text_eq}
use pymesh.Base.Text.{Text}

pub record Network : Type 0 where
  pub id : Text
  pub name : Text
  pub ipv4_prefix : Text
  pub ipv6_prefix : Text
  pub dns_domain : Text
  pub created_at : ℕ

pub record NodeModel : Type 0 where
  pub id : Text
  pub network_id : Text
  pub hostname : Text
  pub mesh_ipv4 : Text
  pub mesh_ipv6 : Text
  pub wireguard_public_key : Text
  pub identity_public_key : Text
  pub listen_port : ℕ
  pub os : Text
  pub version : Text
  pub endpoints : List Text
  pub tags : List Text
  pub online : Bool
  pub nat_type : Text
  pub last_seen : ℕ
  pub created_at : ℕ

pub record SubnetRoute : Type 0 where
  pub id : Text
  pub network_id : Text
  pub prefix : Text
  pub via_node_id : Text
  pub advertised_by : Text
  pub enabled : Bool
  pub created_at : ℕ

pub record AclRule : Type 0 where
  pub id : Text
  pub network_id : Text
  pub source : Text
  pub destination : Text
  pub action : Text
  pub ports : List ℕ
  pub protocols : List Text
  pub created_at : ℕ

pub record AuthToken : Type 0 where
  pub token : Text
  pub network_id : Text
  pub description : Text
  pub used_count : ℕ
  pub max_uses : Option ℕ
  pub expires_at : Option ℕ
  pub created_at : ℕ

pub record TldRegistry : Type 0 where
  pub name : Text
  pub description : Text
  pub publisher_info : Text
  pub publisher_node_id : Text
  pub created_at : ℕ

pub record FederatedController : Type 0 where
  pub id : Text
  pub url : Text
  pub hostname : Text
  pub public_key : Text
  pub status : Text
  pub last_synced : ℕ
  pub created_at : ℕ

pub record Database : Type 0 where
  pub networks : List Network
  pub nodes : List NodeModel
  pub routes : List SubnetRoute
  pub acl_rules : List AclRule
  pub tokens : List AuthToken
  pub tlds : List TldRegistry
  pub controllers : List FederatedController

abbrev pub empty_database : Database
empty_database = record {
  networks = [];
  nodes = [];
  routes = [];
  acl_rules = [];
  tokens = [];
  tlds = [];
  controllers = [];
}

-- Two rows that the table's primary key and unique columns forbid together.
abbrev pub network_clash : Network → Network → Bool
network_clash a b = a.id == b.id || a.name == b.name

abbrev pub node_clash : NodeModel → NodeModel → Bool
node_clash a b = a.id == b.id || (a.mesh_ipv4 == b.mesh_ipv4 || a.mesh_ipv6 == b.mesh_ipv6)

abbrev pub route_clash : SubnetRoute → SubnetRoute → Bool
route_clash a b = a.id == b.id

abbrev pub rule_clash : AclRule → AclRule → Bool
rule_clash a b = a.id == b.id

abbrev pub token_clash : AuthToken → AuthToken → Bool
token_clash a b = a.token == b.token

abbrev pub tld_clash : TldRegistry → TldRegistry → Bool
tld_clash a b = a.name == b.name

abbrev pub controller_clash : FederatedController → FederatedController → Bool
controller_clash a b = a.id == b.id || a.url == b.url
