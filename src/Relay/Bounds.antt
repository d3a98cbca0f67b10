-- ===== src/Relay/Bounds.antt =====
-- How large a frame is (pymesh/relay/protocol.py).
use pymesh.Base.{
  ◌+◌, ◌^◌, ◌≤◌, ◌<◌, ◌≡◌, refl, true, false, none, some, [], ◌∷◌, ◌++◌, length, length-append, ltb,
  All, arith,
}
use pymesh.Base.Text.{Text}
use pymesh.Base.Bytes.{Bytes, is_ascii}
use pymesh.Relay.{relay_magic, pad, encode_frame}
use pymesh.Relay.Frames.{length-pad, is_ascii-pad, frame, encode_frame-frame}

abbrev pub IsBytes : Bytes → Type 0
IsBytes = All (λ b. b < 256)

IsBytes-append : (xs ys : Bytes) → IsBytes xs → IsBytes ys → IsBytes (xs ++ ys)
IsBytes-append [] ys hx hy = hy
IsBytes-append (x ∷ xs) ys (h, hx) hy = (h, IsBytes-append xs ys hx hy)

IsBytes-ascii : (s : Text) → is_ascii s ≡ true → IsBytes s
unfolding is_ascii
IsBytes-ascii [] h = tt
IsBytes-ascii (c ∷ s) h =
    let low : c < 128 = ground arith in (omega (arith, low), IsBytes-ascii s (ground arith))

length-frame :
    (a b payload : Bytes)
    → length a ≡ 32
    → length b ≡ 32
    → length (frame a b payload []) ≡ 73 + length payload
length-frame a b payload la lb =
    rw (length-append, length-append, length-append, length-append, la, lb) (omega arith)

frame-IsBytes :
    (a b payload : Bytes)
    → IsBytes a
    → IsBytes b
    → IsBytes payload
    → length payload < 2 ^ 16
    → IsBytes (frame a b payload [])
unfolding is_ascii
frame-IsBytes a b payload ha hb hp small =
    IsBytes-append relay_magic _ (IsBytes-ascii relay_magic refl) (
      IsBytes-append a _ ha (
        IsBytes-append b _ hb
          (omega (arith, small), (omega arith, IsBytes-append payload [] hp tt))))

-- With ASCII ids, a payload of at most 65535 bytes makes a frame of 73 bytes more, so of at most
-- 65608, each of them a byte; a longer payload makes no frame.
pub encode_frame_bounds :
    (src dst : Text) (payload : Bytes)
    → is_ascii src ≡ true
    → is_ascii dst ≡ true
    → IsBytes payload
    → (length payload < 2 ^ 16
        → (bytes : Bytes) × (encode_frame src dst payload ≡ some bytes)
          × (length bytes ≡ 73 + length payload)
          × (length bytes ≤ 65608)
          × IsBytes bytes)
      × (2 ^ 16 ≤ length payload → encode_frame src dst payload ≡ none)
unfolding encode_frame
encode_frame_bounds src dst payload hs hd hp = (
  λ small.
      let size = length-frame (pad src) (pad dst) payload (length-pad src) (length-pad dst) in
      (
        frame (pad src) (pad dst) payload [],
        encode_frame-frame src dst payload hs hd small,
        size,
        omega (arith, size, small),
        frame-IsBytes (pad src) (pad dst) payload (IsBytes-ascii (pad src) (is_ascii-pad src hs))
            (IsBytes-ascii (pad dst) (is_ascii-pad dst hd)) hp small,
      ),
  λ large.
      let long : ltb (length payload) (2 ^ 16) ≡ false = ground (arith, large) in
      rw (is_ascii-pad src hs, is_ascii-pad dst hd, long) refl,
)
