-- ===== src/Swarm/Encoding.antt =====
-- src/network/actor.rs: requests and responses inside the post-quantum envelope. Whether bytes are
-- UTF-8 is a parameter.
use nexus_net.Base.{
  ℕ, ◌/◌, ◌%◌, ◌^◌, Bool-cases, inl, inr, ◌<◌, ◌==◌, ◌≡◌, Bool, true, false, not, Option, none,
  some, List, [], ◌∷◌, ◌++◌, Name, length, take, drop, ltb, if◌then◌else◌, arith, length-append,
}
use nexus_net.Sidecar.Codec.{u32_be, from_u32_be}
use nexus_net.Sidecar.Roundtrip.{take-append, drop-append}
use nexus_net.Dispatcher.Types.{Response}
use nexus_net.Swarm.Types.{Request}

unfoldable pub encode_request : Request → List ℕ
encode_request req = u32_be (length req.service) ++ (req.service ++ req.payload)

-- `usize` has 64 bits, so that the end of the name does not overflow.
unfoldable pub decode_request : (Name → Bool) → List ℕ → Option Request
decode_request is_utf8 (a ∷ b ∷ c ∷ d ∷ rest) =
    let len = from_u32_be a b c d in
    if ltb (length rest) len
    then none
    else (if is_utf8 (take len rest)
        then some (record { service = take len rest; payload = drop len rest })
        else none)
decode_request is_utf8 _ = none

abbrev success_byte : Bool → ℕ
success_byte true = 1
success_byte false = 0

unfoldable pub encode_response : Response → List ℕ
encode_response resp = success_byte resp.success ∷ resp.data'

unfoldable pub decode_response : List ℕ → Option Response
decode_response [] = none
decode_response (success ∷ data') = some (record { success = not (success == 0); data' = data' })

from_u32_be-u32_be :
    (n : ℕ)
    → n < 2 ^ 32
    → from_u32_be (n / 16_777_216 % 256) (n / 65536 % 256) (n / 256 % 256) (n % 256) ≡ n
from_u32_be-u32_be n h = omega (arith, h)

-- A request whose service has less than 4 GiB of valid UTF-8 is decoded as it was encoded.
pub decode_request-encode_request :
    (is_utf8 : Name → Bool) (req : Request)
    → is_utf8 req.service ≡ true
    → length req.service < 2 ^ 32
    → decode_request is_utf8 (encode_request req) ≡ some req
unfolding decode_request encode_request u32_be
decode_request-encode_request is_utf8 req valid small = ground (
  arith,
  from_u32_be-u32_be (length req.service) small,
  take-append req.service req.payload,
  drop-append req.service req.payload,
  length-append req.service req.payload,
)

pub decode_response-encode_response :
    (resp : Response) → decode_response (encode_response resp) ≡ some resp
unfolding decode_response encode_response
decode_response-encode_response resp = elim (Bool-cases resp.success) [
  | inl good ↦ ground arith
  | inr bad ↦ ground arith
]
