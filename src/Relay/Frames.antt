-- ===== src/Relay/Frames.antt =====
-- A frame that was encoded decodes to what went in (pymesh/relay/protocol.py).
use mathlib.Core.List.{append-nil, append_assoc, reverse-append}
use mathlib.Core.Path.{ap₂}
use pymesh.Base.{
  list_beq, ℕ, zero, suc, ◌+◌, ◌-◌, ◌/◌, ◌%◌, ◌^◌, ◌<◌, ◌≡◌, refl, ◌∙◌, ap, Bool, true, false, some,
  [], ◌∷◌, ◌++◌, length, take, drop, slice, replicate, ltb, lt→ltb, length-append, length-take,
  length-replicate, take-append, arith,
}
use pymesh.Base.Text.{Text, rstrip, rstrip_by, lstrip_by}
use pymesh.Base.Bytes.{Bytes, is_ascii, decode_ascii, decode_ascii_lem, unpack_u16}
use pymesh.Relay.{relay_magic, header_len, pad, encode_frame, decode_frame}

ap₃ {ℓ} :
    {A B C : Type 0} {D : Type ℓ} (f : A → B → C → D) {a a' : A} {b b' : B} {c c' : C}
    → a ≡ a'
    → b ≡ b'
    → c ≡ c'
    → f a b c ≡ f a' b' c'
ap₃ f p q r = λ i. f (p i) (q i) (r i)

module _ (p : ℕ → Bool) where
  rstrip_by-snoc : (s : Text) (c : ℕ) → p c ≡ true → rstrip_by p (s ++ c ∷ []) ≡ rstrip_by p s
  unfolding rstrip_by lstrip_by
  rstrip_by-snoc s c h = simp (reverse-append, h)

rstrip-padding : (s : Text) (k : ℕ) → rstrip 0 (s ++ replicate k 0) ≡ rstrip 0 s
unfolding rstrip
rstrip-padding s zero = rw append-nil
rstrip-padding s (suc k) =
    rw (← append_assoc s (0 ∷ []) (replicate k 0))
      (rstrip-padding (s ++ 0 ∷ []) k ∙ rstrip_by-snoc _ s 0 refl)

-- Padding is undone by stripping; of a long id the first 32 characters are left.
pub rstrip-pad : (s : Text) → rstrip 0 (pad s) ≡ rstrip 0 (take 32 s)
unfolding pad
rstrip-pad s = rstrip-padding (take 32 s) (32 - length (take 32 s))

pub length-pad : (s : Text) → length (pad s) ≡ 32
unfolding pad
length-pad s = rw length-append (rw length-replicate (omega (arith, length-take 32 s)))

is_ascii-append : (s t : Text) → is_ascii s ≡ true → is_ascii t ≡ true → is_ascii (s ++ t) ≡ true
unfolding is_ascii
is_ascii-append [] t hs ht = ht
is_ascii-append (c ∷ s) t hs ht = ground (arith, is_ascii-append s t)

is_ascii-take : (n : ℕ) (s : Text) → is_ascii s ≡ true → is_ascii (take n s) ≡ true
unfolding is_ascii
is_ascii-take zero s h = refl
is_ascii-take (suc n) [] h = refl
is_ascii-take (suc n) (c ∷ s) h = ground (arith, is_ascii-take n s)

is_ascii-replicate : (n : ℕ) → is_ascii (replicate n 0) ≡ true
unfolding is_ascii
is_ascii-replicate zero = refl
is_ascii-replicate (suc n) = is_ascii-replicate n

pub is_ascii-pad : (s : Text) → is_ascii s ≡ true → is_ascii (pad s) ≡ true
unfolding pad
is_ascii-pad s h = is_ascii-append _ _ (is_ascii-take 32 s h) (is_ascii-replicate _)

abbrev pub frame : Bytes → Bytes → Bytes → Bytes → Bytes
frame src dst payload rest =
    relay_magic
    ++ (src ++ (dst ++ (length payload / 256 ∷ length payload % 256 ∷ (payload ++ rest))))

pub encode_frame-frame :
    (src dst : Text) (payload : Bytes)
    → is_ascii src ≡ true
    → is_ascii dst ≡ true
    → length payload < 2 ^ 16
    → encode_frame src dst payload ≡ some (frame (pad src) (pad dst) payload [])
unfolding encode_frame
encode_frame-frame src dst payload hs hd hp =
    rw (is_ascii-pad src hs, is_ascii-pad dst hd, lt→ltb _ _ hp, append-nil)

take-exact : (n : ℕ) (xs ys : Bytes) → length xs ≡ n → take n (xs ++ ys) ≡ xs
take-exact n xs ys h = rw (← h) (take-append xs ys)

drop-exact : (m k : ℕ) (xs ys : Bytes) → length xs + k ≡ m → drop m (xs ++ ys) ≡ drop k ys
drop-exact m k [] ys h = ap (λ n. drop n ys) (omega arith)
drop-exact zero k (x ∷ xs) ys h = absurd (omega arith)
drop-exact (suc m) k (x ∷ xs) ys h = drop-exact m k xs ys (omega arith)

decode_frame-parts :
    (d a b payload : Bytes)
    → ltb (length d) header_len ≡ false
    → slice d 0 7 ≡ relay_magic
    → slice d 7 39 ≡ a
    → slice d 39 71 ≡ b
    → slice d header_len (header_len + unpack_u16 (slice d 71 73)) ≡ payload
    → decode_frame d
      ≡ some (record {
        src_id = rstrip 0 (decode_ascii a);
        dst_id = rstrip 0 (decode_ascii b);
        payload = payload;
      })
unfolding decode_frame list_beq
decode_frame-parts d a b payload long magic src dst body =
    rw (long, magic)
      (ap₃
        (λ x y z. some (record {
          src_id = rstrip 0 (decode_ascii x);
          dst_id = rstrip 0 (decode_ascii y);
          payload = z;
        }))
        src dst body)

module _ (a b payload rest : Bytes) (la : length a ≡ 32) (lb : length b ≡ 32) where
  abbrev whole : Bytes
  whole = frame a b payload rest

  abbrev tail : Bytes
  tail = length payload / 256 ∷ length payload % 256 ∷ (payload ++ rest)

  length-whole : ltb (length whole) header_len ≡ false
  length-whole = ground (arith, length-append a (b ++ tail), length-append b tail)

  src_part : slice whole 7 39 ≡ a
  src_part = take-exact 32 a _ la

  dst_part : slice whole 39 71 ≡ b
  dst_part = ap (take 32) (drop-exact 32 0 a _ (omega arith)) ∙ take-exact 32 b _ lb

  tail_part : drop 71 whole ≡ tail
  tail_part = drop-exact 64 32 a (b ++ tail) (omega arith) ∙ drop-exact 32 0 b tail (omega arith)

  rest_part : drop 73 whole ≡ payload ++ rest
  rest_part = drop-exact 66 34 a (b ++ tail) (omega arith) ∙ drop-exact 34 2 b tail (omega arith)

  payload_len : length payload < 2 ^ 16 → unpack_u16 (slice whole 71 73) ≡ length payload
  payload_len small = ap (λ l. unpack_u16 (take 2 l)) tail_part ∙ omega arith

  payload_part : (n : ℕ) → n ≡ length payload → slice whole header_len (header_len + n) ≡ payload
  payload_part n e =
      ap (take (header_len + n - header_len)) rest_part ∙ take-exact _ payload rest (omega arith)

  decode_frame-frame :
      length payload < 2 ^ 16
      → is_ascii a ≡ true
      → is_ascii b ≡ true
      → decode_frame whole
        ≡ some (record { src_id = rstrip 0 a; dst_id = rstrip 0 b; payload = payload })
  decode_frame-frame small ha hb =
      decode_frame-parts whole a b payload length-whole refl src_part dst_part
        (payload_part _ (payload_len small))
      ∙ ap₂ (λ x y. some (record { src_id = rstrip 0 x; dst_id = rstrip 0 y; payload = payload }))
          (decode_ascii_lem a ha) (decode_ascii_lem b hb)

-- A frame that was encoded from ASCII ids and at most 65535 bytes decodes to the payload and to
-- the first 32 characters of each id, without zeros at their ends; whatever bytes follow it in the
-- datagram are ignored.
pub decode_frame-encode_frame :
    (src dst : Text) (payload rest : Bytes)
    → is_ascii src ≡ true
    → is_ascii dst ≡ true
    → length payload < 2 ^ 16
    → (bytes : Bytes) × (encode_frame src dst payload ≡ some bytes)
      × (decode_frame (bytes ++ rest)
          ≡ some (record {
            src_id = rstrip 0 (take 32 src);
            dst_id = rstrip 0 (take 32 dst);
            payload = payload;
          }))
decode_frame-encode_frame src dst payload rest hs hd hp = (
  frame (pad src) (pad dst) payload [],
  encode_frame-frame src dst payload hs hd hp,
  simp (append-nil, append_assoc)
      (decode_frame-frame (pad src) (pad dst) payload rest (length-pad src) (length-pad dst) hp
          (is_ascii-pad src hs) (is_ascii-pad dst hd)
        ∙ simp rstrip-pad),
)
