-- ===== src/Sidecar/Roundtrip.antt =====
-- src/sidecar_protocol.rs: encoding and decoding, frame by frame, and frames that are cut off.
use mathlib.Core.List.{append_assoc, append-nil}
use nexus_net.Base.{
  ℕ, suc, zero, ◌+◌, ◌/◌, ◌%◌, ◌≡◌, ◌≤◌, ◌<◌, refl, Option, none, some, List, [], ◌∷◌, ◌++◌, Result,
  ok, err, length, length-append, length-take, take, drop, arith, Result-cases, inl, inr, ap,
}
use nexus_net.Sidecar.Message.{Message}
use nexus_net.Sidecar.Codec.{
  Cbor, FrameError, max_frame, u32_be, from_u32_be, encode_frame, decode_frame, decode, encode,
}

-- The decoder of CBOR undoes the encoder.
abbrev pub Inverts : Cbor → Type 0
Inverts cbor = (m : Message) (body : List ℕ) → cbor.encode m ≡ ok body → cbor.decode body ≡ ok m

from_u32_be-u32_be :
    (n : ℕ)
    → n ≤ max_frame
    → from_u32_be (n / 16_777_216 % 256) (n / 65536 % 256) (n / 256 % 256) (n % 256) ≡ n
from_u32_be-u32_be n h = omega (arith, h)

pub take-append : (xs ys : List ℕ) → take (length xs) (xs ++ ys) ≡ xs
take-append [] ys = refl
take-append (x ∷ xs) ys = ap (◌∷◌ x) (take-append xs ys)

pub drop-append : (xs ys : List ℕ) → drop (length xs) (xs ++ ys) ≡ ys
drop-append [] ys = refl
drop-append (x ∷ xs) ys = drop-append xs ys

module _ (cbor : Cbor) where
  -- What `encode_frame` returns: the length and the body of the message.
  record IsFrame (m : Message) (frame : List ℕ) : Type 0 where
    body : List ℕ
    encoded : cbor.encode m ≡ ok body
    small : length body ≤ max_frame
    framed : frame ≡ u32_be (length body) ++ body

  encode_frame-IsFrame :
      (m : Message) (frame : List ℕ) → encode_frame cbor m ≡ ok frame → IsFrame m frame
  unfolding encode_frame
  encode_frame-IsFrame m frame h = elim (Result-cases (cbor.encode m)) [
    | inr (error, bad) ↦ absurd (ground arith)
    | inl (body, good) ↦ record {
      body = body;
      encoded = good;
      small = ground arith;
      framed = ground arith;
    }
  ]

  decode_frame-encode :
      (m : Message) (body : List ℕ)
      → Inverts cbor
      → cbor.encode m ≡ ok body
      → length body ≤ max_frame
      → decode_frame cbor body ≡ ok m
  unfolding decode_frame
  decode_frame-encode m body inverts h small = ground (arith, inverts m body h)

  decode-body :
      (m : Message) (body rest : List ℕ)
      → Inverts cbor
      → cbor.encode m ≡ ok body
      → length body ≤ max_frame
      → decode cbor (u32_be (length body) ++ (body ++ rest)) ≡ (rest, ok (some m))
  unfolding decode u32_be
  decode-body m body rest inverts h small = ground (
    arith,
    from_u32_be-u32_be (length body) small,
    length-append body rest,
    take-append body rest,
    drop-append body rest,
    decode_frame-encode m body inverts h small,
  )

  -- If the decoder of CBOR undoes the encoder, the codec decodes an encoded frame to its message and
  -- leaves in the buffer exactly what follows the frame.
  pub decode-encode_frame :
      (m : Message) (frame rest : List ℕ)
      → Inverts cbor
      → encode_frame cbor m ≡ ok frame
      → decode cbor (frame ++ rest) ≡ (rest, ok (some m))
  unfolding u32_be
  decode-encode_frame m frame rest inverts h =
      let f = encode_frame-IsFrame m frame h in
      rw f.framed (decode-body m f.body rest inverts f.encoded f.small)

  cut_body :
      (n k : ℕ) (body : List ℕ)
      → n ≡ length body
      → k < length body
      → n ≤ max_frame
      → decode cbor (u32_be n ++ take k body) ≡ (u32_be n ++ take k body, ok none)
  unfolding decode u32_be
  cut_body n k body h lt small = ground (arith, from_u32_be-u32_be n small, length-take k body)

  cut_frame :
      (k n : ℕ) (body : List ℕ)
      → n ≡ length body
      → k < 4 + length body
      → n ≤ max_frame
      → decode cbor (take k (u32_be n ++ body)) ≡ (take k (u32_be n ++ body), ok none)
  unfolding decode u32_be
  cut_frame zero n body h lt small = refl
  cut_frame (suc zero) n body h lt small = refl
  cut_frame (suc (suc zero)) n body h lt small = refl
  cut_frame (suc (suc (suc zero))) n body h lt small = refl
  cut_frame (suc (suc (suc (suc k)))) n body h lt small =
      cut_body n k body h (omega (arith, lt)) small

  -- Of a frame that is cut off anywhere, the codec consumes nothing and waits for more.
  pub decode_cut :
      (m : Message) (frame : List ℕ) (k : ℕ)
      → encode_frame cbor m ≡ ok frame
      → k < length frame
      → decode cbor (take k frame) ≡ (take k frame, ok none)
  unfolding u32_be
  decode_cut m frame k h lt =
      let f = encode_frame-IsFrame m frame h in
      rw f.framed (cut_frame k (length f.body) f.body refl (ground (arith, f.framed)) f.small)

  -- A sender encodes messages one after the other into its buffer.
  unfoldable pub send : List Message → List ℕ → Result FrameError (List ℕ)
  send [] dst = ok dst
  send (m ∷ ms) dst = elim (encode cbor m dst) [ err error ↦ err error | ok next ↦ send ms next ]

  -- A receiver decodes `n` messages of its buffer, if they are there.
  unfoldable pub receive : ℕ → List ℕ → Option (List Message × List ℕ)
  receive zero src = some ([], src)
  receive (suc n) src = elim (decode cbor src).1 [
    | err error ↦ none
    | ok none ↦ none
    | ok (some m) ↦ elim (receive n (decode cbor src).0) [
      | none ↦ none
      | some (ms, rest) ↦ some (m ∷ ms, rest)
    ]
  ]

  encode-eq :
      (m : Message) (dst next : List ℕ)
      → encode cbor m dst ≡ ok next
      → (frame : List ℕ) × (encode_frame cbor m ≡ ok frame) × (next ≡ dst ++ frame)
  unfolding encode
  encode-eq m dst next h = elim (Result-cases (encode_frame cbor m)) [
    | inr (error, bad) ↦ absurd (ground arith)
    | inl (frame, good) ↦ (frame, good, ground arith)
  ]

  receive_next :
      (n : ℕ) (m : Message) (ms : List Message) (src rest more : List ℕ)
      → decode cbor src ≡ (rest, ok (some m))
      → receive n rest ≡ some (ms, more)
      → receive (suc n) src ≡ some (m ∷ ms, more)
  unfolding receive
  receive_next n m ms src rest more h g = ground (arith, h, g)

  -- If the decoder of CBOR undoes the encoder, the messages that a sender puts into its buffer one
  -- after the other are what the receiver decodes of the bytes that were added, in their order, and
  -- whatever follows stays in the buffer.
  pub receive-send :
      (ms : List Message) (dst buf more : List ℕ)
      → Inverts cbor
      → send ms dst ≡ ok buf
      → (tail : List ℕ) × (buf ≡ dst ++ tail)
        × (receive (length ms) (tail ++ more) ≡ some (ms, more))
  unfolding send receive
  receive-send [] dst buf more inverts h = ([], ground (arith, append-nil dst), refl)
  receive-send (m ∷ ms) dst buf more inverts h = elim (Result-cases (encode cbor m dst)) [
    | inr (error, bad) ↦ absurd (ground arith)
    | inl (next, good) ↦
        let (frame, framed, split) = encode-eq m dst next good in
        let (tail, added, got) = receive-send ms next buf more inverts (rw (good, send) at h) in
        (
          frame ++ tail,
          cc (added, split, append_assoc dst frame tail),
          rw (append_assoc frame tail more) (
              receive_next (length ms) m ms (frame ++ (tail ++ more)) (tail ++ more) more
                (decode-encode_frame m frame (tail ++ more) inverts framed) got),
        )
  ]
