-- ===== src/Stun/Request.antt =====
-- `STUNClient.get_mapped_address` (pymesh/discovery/stun.py): the request and what becomes of the answer.
use pymesh.Base.{ℕ, ◌/◌, ◌%◌, ◌^◌, Option, none, some, List, [], ◌∷◌, ◌++◌, slice}
use pymesh.Base.Text.{Text}
use pymesh.Base.Bytes.{Bytes}
use pymesh.Stun.{Mapped, magic_cookie, unpack_u32, parse_stun_response}

-- four bytes, the highest first
abbrev pub pack_u32 : ℕ → Bytes
pack_u32 n = n / 256 ^ 3 % 256 ∷ n / 256 ^ 2 % 256 ∷ n / 256 % 256 ∷ n % 256 ∷ []

-- the message type, the length 0, the magic cookie and the transaction id
unfoldable pub header_of : Bytes → Bytes
header_of trans_id =
    (0 ∷ 1 ∷ 0 ∷ 0 ∷ pack_u32 magic_cookie)
    ++ (pack_u32 (unpack_u32 (slice trans_id 0 4))
        ++ (pack_u32 (unpack_u32 (slice trans_id 4 8))
            ++ pack_u32 (unpack_u32 (slice trans_id 8 12))))

abbrev pub reply_to : Option Bytes → Option Mapped
reply_to none = none
reply_to (some data_) = parse_stun_response data_

-- The datagram that is sent and where, and the result. `infos` are the addresses of the server, none
-- where looking them up raises; `response` is the first datagram in time. An exception gives None.
unfoldable pub get_mapped_address :
    Bytes → Option (List (Text × ℕ)) → Option Bytes → Option (Bytes × (Text × ℕ)) × Option Mapped
unfolding header_of
get_mapped_address trans_id none response = (none, none)
get_mapped_address trans_id (some []) response = (none, none)
get_mapped_address trans_id (some (target_addr ∷ infos)) response =
    (some (header_of trans_id, target_addr), reply_to response)
