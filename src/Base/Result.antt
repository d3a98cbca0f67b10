-- ===== src/Base/Result.antt =====
-- What a function that may raise returns: a value or the exception.
use Prim.Native.Nat.{ℕ}

pub data Exception : Type 0 where
  -- the pool of addresses is exhausted (RuntimeError)
  exhausted : Exception
  -- a text that is no address or network, or an address out of range (AddressValueError)
  bad_address : Exception
  -- a key that base64 cannot decode (binascii.Error)
  bad_key : Exception
  -- no row for a node (ValueError)
  node_not_found : Exception
  -- a primary key or a unique column is taken (IntegrityError)
  integrity : Exception
  -- the handshake with a remote controller failed (RuntimeError)
  handshake_failed : Exception
  -- a file that is not what it should be (JSONDecodeError, ValidationError)
  bad_file : Exception
  -- a text that `int` does not take (ValueError), and a port that is no port (OverflowError)
  bad_number : Exception
  bad_port : Exception
  -- a method of None (AttributeError)
  no_attribute : Exception
  -- HTTPException with its status code
  http : ℕ → Exception

pub data Result {ℓ} (A : Type ℓ) : Type ℓ where
  ok : A → Result A
  raise : Exception → Result A

infixl 5 ◌>>=◌
abbrev pub ◌>>=◌ {ℓ κ} : {A : Type ℓ} {B : Type κ} → Result A → (A → Result B) → Result B
ok a >>= f = f a
raise e >>= f = raise e
