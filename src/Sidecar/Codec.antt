-- ===== src/Sidecar/Codec.antt =====
-- `encode_frame`, `decode_frame` and `SidecarCodec`.
use nexus_net.Base.{
  ℕ, ◌+◌, ◌*◌, ◌/◌, ◌%◌, ◌^◌, Option, none, some, List, [], ◌∷◌, ◌++◌, Name, Result, ok, err, ltb,
  length, take, drop, if◌then◌else◌,
}
use nexus_net.Sidecar.Message.{Message}

abbrev pub max_frame : ℕ
max_frame = 16 * 2 ^ 20

-- The errors that the codec itself makes; an error of `encode` or `decode` is its text.
pub data FrameError : Type 0 where
  too_large : ℕ → FrameError
  encode_error decode_error : Name → FrameError

-- ciborium on messages.
pub record Cbor : Type 0 where
  pub encode : Message → Result Name (List ℕ)
  pub decode : List ℕ → Result Name Message

-- `(n as u32).to_be_bytes()`
unfoldable pub u32_be : ℕ → List ℕ
u32_be n = n / 16_777_216 % 256 ∷ n / 65536 % 256 ∷ n / 256 % 256 ∷ n % 256 ∷ []

-- `u32::from_be_bytes`
abbrev pub from_u32_be : ℕ → ℕ → ℕ → ℕ → ℕ
from_u32_be a b c d = ((a * 256 + b) * 256 + c) * 256 + d

abbrev pub frame_of : List ℕ → Result FrameError (List ℕ)
frame_of body =
    if ltb max_frame (length body)
    then err (too_large (length body))
    else ok (u32_be (length body) ++ body)

-- `.map(Some)` and `map_err` of the decoder.
abbrev pub decoded : Result Name Message → Result FrameError Message
decoded (ok message) = ok message
decoded (err error) = err (decode_error error)

abbrev pub map_some : Result FrameError Message → Result FrameError (Option Message)
map_some (ok message) = ok (some message)
map_some (err error) = err error

module _ (cbor : Cbor) where
  unfoldable pub encode_frame : Message → Result FrameError (List ℕ)
  encode_frame message = elim (cbor.encode message) [
    | err error ↦ err (encode_error error)
    | ok body ↦ frame_of body
  ]

  unfoldable pub decode_frame : List ℕ → Result FrameError Message
  decode_frame body =
      if ltb max_frame (length body)
      then err (too_large (length body))
      else decoded (cbor.decode body)

  -- `Decoder::decode`: the buffer after the call, with the result.
  unfoldable pub decode : List ℕ → List ℕ × Result FrameError (Option Message)
  decode (a ∷ b ∷ c ∷ d ∷ rest) =
      let len = from_u32_be a b c d in
      if ltb max_frame len
      then (a ∷ b ∷ c ∷ d ∷ rest, err (too_large len))
      else if ltb (4 + length rest) (4 + len)
      then (a ∷ b ∷ c ∷ d ∷ rest, ok none)
      else (drop len rest, map_some (decode_frame (take len rest)))
  decode src = (src, ok none)

  -- `Encoder::encode`: the buffer after the call.
  unfoldable pub encode : Message → List ℕ → Result FrameError (List ℕ)
  encode message dst = elim (encode_frame message) [
    | err error ↦ err error
    | ok frame ↦ ok (dst ++ frame)
  ]
