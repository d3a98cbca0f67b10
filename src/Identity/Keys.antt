-- ===== src/Identity/Keys.antt =====
-- pymesh/identity/keys.py and pymesh/identity/certificates.py: key pairs and signatures. What the
-- package `cryptography` and base64 do is a parameter.
use pymesh.Base.{ℕ, ◌≡◌, refl, Bool, true, false, Option, none, some}
use pymesh.Base.Text.{Text}
use pymesh.Base.Bytes.{Bytes}
use pymesh.Base.Result.{Result, ok, raise, ◌>>=◌, bad_key}
use pymesh.Controller.Nodes.{Env, derive_node_id}
use pymesh.Identity.{NodeIdentity, KeyPair, Machine, new_identity, create_new}

-- A private key is made of the random bytes of its generation. `none` of a reader is an exception.
pub record Crypto : Type 1 where
  pub Private : Type 0
  pub Public : Type 0
  pub generate : Bytes → Private
  pub public_key : Private → Public
  pub private_bytes : Private → Bytes
  pub public_bytes : Public → Bytes
  pub from_private_bytes : Bytes → Option Private
  pub from_public_bytes : Bytes → Option Public
  pub sign : Private → Bytes → Bytes
  pub verify : Public → Bytes → Bytes → Bool
  pub b64encode : Bytes → Text
  pub b64decode : Text → Option Bytes
  -- a key and a text are read back, and a signature made with a key is valid for its public key
  pub private_read : (k : Private) → from_private_bytes (private_bytes k) ≡ some k
  pub public_read : (k : Public) → from_public_bytes (public_bytes k) ≡ some k
  pub b64_read : (bytes : Bytes) → b64decode (b64encode bytes) ≡ some bytes
  pub signed : (k : Private) (m : Bytes) → verify (public_key k) (sign k m) m ≡ true

module _ (c : Crypto) where
  -- `KeyManager.generate_ed25519_keypair`; `generate_wireguard_keypair` is the same over the keys
  -- of X25519
  unfoldable pub generate_keypair : Bytes → KeyPair
  generate_keypair random =
      let private_key : c.Private = c.generate random in
      record {
        private_key = c.b64encode (c.private_bytes private_key);
        public_key = c.b64encode (c.public_bytes (c.public_key private_key));
      }

  abbrev or_bad {ℓ} : {A : Type ℓ} → Option A → Result A
  or_bad none = raise bad_key
  or_bad (some a) = ok a

  unfoldable pub sign_payload : Text → Bytes → Result Text
  sign_payload private_key_b64 data_ = or_bad (c.b64decode private_key_b64) >>= λ priv_bytes.
      or_bad (c.from_private_bytes priv_bytes) >>= λ private_key.
      ok (c.b64encode (c.sign private_key data_))

  -- an exception on the way is a `False`
  unfoldable pub verify_signature : Text → Text → Bytes → Bool
  verify_signature public_key_b64 signature_b64 data_ = elim (c.b64decode public_key_b64) [
    | none ↦ false
    | some pub_bytes ↦ elim (c.b64decode signature_b64) [
      | none ↦ false
      | some sig_bytes ↦ elim (c.from_public_bytes pub_bytes) [
        | none ↦ false
        | some public_key ↦ c.verify public_key sig_bytes data_
      ]
    ]
  ]

  -- A payload that is signed with the private key of a generated pair is signed without an error,
  -- and the signature is accepted with the public key of the pair, as base64 texts all of them.
  pub verify_signature-sign_payload :
      (random data_ : Bytes)
      → (signature : Text) × (sign_payload (generate_keypair random).private_key data_
          ≡ ok signature)
        × (verify_signature (generate_keypair random).public_key signature data_ ≡ true)
  unfolding generate_keypair sign_payload verify_signature
  verify_signature-sign_payload random data_ =
      let k : c.Private = c.generate random in
      (
        c.b64encode (c.sign k data_),
        rw (c.b64_read (c.private_bytes k), c.private_read k) refl,
        rw
            (
              verify_signature,
              c.b64_read (c.public_bytes (c.public_key k)),
              c.b64_read (c.sign k data_),
              c.public_read (c.public_key k),
            )
            (c.signed k data_),
      )

-- A new identity can always be made of two generated pairs: its id is the digest of the bytes of its
-- Ed25519 key, and what it signs is accepted with the public key that it shows. The condition is
-- that the decoding that the ids are made with is that of the keys.
pub create_new-signs :
    (ed25519 x25519 : Crypto) (env : Env) (machine : Machine) (version : Text)
    (hostname : Option Text) (listen_port : ℕ) (random random' data_ : Bytes)
    → env.b64decode ≡ ed25519.b64decode
    → (i : NodeIdentity) × (signature : Text) × (create_new env machine
          (generate_keypair ed25519 random)
          (generate_keypair x25519 random')
          version
          hostname
          listen_port
        ≡ ok i)
      × (i.node_id
          ≡ env.sha256_hexdigest
              (ed25519.public_bytes (ed25519.public_key (ed25519.generate random))))
      × (sign_payload ed25519 i.identity_private_key data_ ≡ ok signature)
      × (verify_signature ed25519 i.identity_public_key signature data_ ≡ true)
unfolding create_new generate_keypair derive_node_id
create_new-signs e x env machine version hostname listen_port random random' data_ same =
    let (signature, made, valid) = verify_signature-sign_payload e random data_ in
    (
      new_identity machine
          (env.sha256_hexdigest (e.public_bytes (e.public_key (e.generate random))))
          (generate_keypair e random) (generate_keypair x random') version hostname listen_port,
      signature,
      rw (same, derive_node_id, e.b64_read (e.public_bytes (e.public_key (e.generate random))))
          refl,
      refl,
      made,
      valid,
    )
