-- ===== src/Tests/Sidecar.antt =====
-- src/sidecar_protocol.rs at concrete inputs.
use nexus_net.Base.{
  ℕ, zero, suc, ◌≡◌, refl, some, List, [], ◌∷◌, ◌++◌, Name, bytes, Result, ok, err, arith,
}
use nexus_net.Sidecar.Message.{Message, whoami, list_services}
use nexus_net.Sidecar.Codec.{Cbor, encode_frame, decode, encode, u32_be}
use nexus_net.Sidecar.Roundtrip.{Inverts, send, receive, decode-encode_frame, receive-send}

-- An encoder of two kinds of messages alone.
abbrev tagged : Message → Result Name (List ℕ)
tagged (whoami u) = ok (zero ∷ u)
tagged (list_services u) = ok (suc zero ∷ u)
tagged _ = err (bytes "no encoding")

abbrev untagged : List ℕ → Result Name Message
untagged [] = err (bytes "no message")
untagged (zero ∷ u) = ok (whoami u)
untagged (suc n ∷ u) = ok (list_services u)

abbrev toy_cbor : Cbor
toy_cbor = record { encode = tagged; decode = untagged }

toy-Inverts : Inverts toy_cbor
toy-Inverts (whoami u) body h = ground arith
toy-Inverts (list_services u) body h = ground arith
toy-Inverts _ body h = absurd (ground arith)

abbrev who : Message
who = whoami (7 ∷ 7 ∷ [])

abbrev who_frame : List ℕ
who_frame = 0 ∷ 0 ∷ 0 ∷ 3 ∷ 0 ∷ 7 ∷ 7 ∷ []

decode-encode_frame_example : decode toy_cbor (who_frame ++ 5 ∷ []) ≡ (5 ∷ [], ok (some who))
unfolding encode_frame u32_be
decode-encode_frame_example = decode-encode_frame toy_cbor who who_frame (5 ∷ []) toy-Inverts refl

abbrev both : List Message
both = who ∷ list_services (9 ∷ []) ∷ []

receive-send_example :
    (tail : List ℕ) × (who_frame ++ 0 ∷ 0 ∷ 0 ∷ 2 ∷ 1 ∷ 9 ∷ [] ≡ [] ++ tail)
    × (receive toy_cbor 2 (tail ++ 5 ∷ []) ≡ some (both, 5 ∷ []))
unfolding send encode encode_frame u32_be
receive-send_example =
    receive-send toy_cbor both [] (who_frame ++ 0 ∷ 0 ∷ 0 ∷ 2 ∷ 1 ∷ 9 ∷ []) (5 ∷ []) toy-Inverts
      refl
