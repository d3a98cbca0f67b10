-- ===== src/Identity/Tests.antt =====
-- Keys whose bytes are their random bytes, and a signature that is the payload.
use pymesh.Base.{◌≡◌, refl, true, none, some, [], ◌∷◌, text_eq, ◌==◌, eq_refl}
use pymesh.Base.Text.{Text, codes}
use pymesh.Base.Bytes.{Bytes}
use pymesh.Base.Decimal
use pymesh.Base.Result.{ok}
use pymesh.Controller.Nodes.{Env}
use pymesh.Identity.{NodeIdentity, Machine, create_new}
use pymesh.Identity.Keys.{
  Crypto, generate_keypair, sign_payload, verify_signature, create_new-signs,
}

abbrev plain : Crypto
plain = record {
  Private = Bytes;
  Public = Bytes;
  generate = λ random. random;
  public_key = λ k. k;
  private_bytes = λ k. k;
  public_bytes = λ k. k;
  from_private_bytes = λ bytes. some bytes;
  from_public_bytes = λ bytes. some bytes;
  sign = λ k m. m;
  verify = λ k s m. s == m;
  b64encode = λ bytes. bytes;
  b64decode = λ s. some s;
  private_read = λ k. refl;
  public_read = λ k. refl;
  b64_read = λ bytes. refl;
  signed = λ k m. eq_refl m;
}

abbrev env : Env
env = record {
  v6 = record {
    parse_network = λ s. some 0;
    show = Decimal.show;
    show_injective = λ m n _ _ e. Decimal.show-injective m n e;
  };
  b64decode = λ s. some s;
  sha256_hexdigest = λ s. s;
}

abbrev machine : Machine
machine = record { hostname = codes "laptop"; platform = codes "linux" }

create_new-signs_example :
    (i : NodeIdentity) × (signature : Text) × (create_new env machine
        (generate_keypair plain (1 ∷ 2 ∷ []))
        (generate_keypair plain (3 ∷ []))
        (codes "0.1.0")
        none
        51820
      ≡ ok i)
    × (i.node_id ≡ 1 ∷ 2 ∷ [])
    × (sign_payload plain i.identity_private_key (7 ∷ []) ≡ ok signature)
    × (verify_signature plain i.identity_public_key signature (7 ∷ []) ≡ true)
create_new-signs_example =
    create_new-signs plain plain env machine (codes "0.1.0") none 51820 (1 ∷ 2 ∷ []) (3 ∷ [])
      (7 ∷ []) refl
