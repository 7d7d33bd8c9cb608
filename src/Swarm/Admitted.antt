-- ===== src/Swarm/Admitted.antt =====
-- src/network/actor.rs: which sealed requests of other nodes reach the controller, and how their
-- responses go out.
use nexus_net.Base.HashMap
use nexus_net.Base.{
  ℕ, ◌≡◌, ◌||◌, true, false, err, not, some, List, [], ◌∷◌, Name, name_eq, ok, arith, Option-cases,
  Result-cases, inl, inr, bytes,
}
use nexus_net.Dispatcher.Types.{Response}
use nexus_net.Swarm.Types.{Request}
use nexus_net.Swarm.Encoding.{decode_request, encode_response}
use nexus_net.Swarm.Service.{
  failed_with, PendingInboundEntry, pq, forwards, responds_sealed, ServiceEffect, PqOpener,
  Receiver, on_opened, on_pq_request, respond_sealed, respond, send_response,
}

module _ {PeerId PqRequest Inbound Sealed : Type 0} (o : PqOpener PeerId PqRequest Inbound Sealed)
    (r : Receiver) (peer : PeerId) (connection channel : ℕ) (id : Name) (incoming : PqRequest)
    (table : List (Name × PendingInboundEntry PeerId Inbound)) where
  -- What goes out for a response to an opened request: its encoding, sealed for the request, on the
  -- channel of the request; nothing if it cannot be sealed or the behaviour is off.
  pub record IsSealed (inbound : Inbound) (response : Response)
      (out : List (ServiceEffect PeerId Sealed)) : Type 0 where
    pub sent :
        (sealed : Sealed)
        → r.pq_behaviour ≡ true
        → o.seal_response inbound (encode_response response) ≡ ok sealed
        → out ≡ responds_sealed channel sealed ∷ []
    pub no_seal :
        (text : Name) → o.seal_response inbound (encode_response response) ≡ err text → out ≡ []
    pub off : r.pq_behaviour ≡ false → out ≡ []

  respond_sealed-IsSealed :
      (inbound : Inbound) (response : Response)
      → IsSealed inbound response (respond_sealed o r.pq_behaviour channel inbound response)
  unfolding respond_sealed
  respond_sealed-IsSealed inbound response = record {
    sent = λ sealed on good. ground (arith, on, good);
    no_seal = λ text bad. ground (arith, bad);
    off = λ off.
        ground (arith, off, Result-cases (o.seal_response inbound (encode_response response)));
  }

  -- A sealed request that reaches the controller, as `request`.
  pub record IsAdmitted (request : Request) : Type 0 where
    pub inbound : Inbound
    pub has_keys : r.has_keys ≡ true
    pub opened : o.open_request peer incoming ≡ ok inbound
    pub signed : (not r.identity_enabled || o.is_signed incoming) ≡ true
    pub decoded : decode_request o.is_utf8 (o.plaintext inbound) ≡ some request
    pub replied :
        (response : Response)
        → IsSealed inbound response
            (send_response o r id response
              (on_pq_request o r peer connection channel id incoming table).0).1

  respond_sealed-other :
      (inbound : Inbound) (response : Response) (request : Request)
      → respond_sealed o r.pq_behaviour channel inbound response ≡ forwards peer id request ∷ []
      → ⊥
  unfolding respond_sealed
  respond_sealed-other inbound response request h =
      ground (arith, Result-cases (o.seal_response inbound (encode_response response)))

  -- A sealed request reaches the controller only if it was opened with the keys of this node, carries
  -- a signature if identities are enabled, and holds the request that is forwarded. For a response to
  -- its id exactly the encoded response sealed for this request goes out, on its channel, if it can be
  -- sealed and the PQ behaviour is on, and otherwise nothing.
  pub on_pq_request-IsAdmitted :
      (request : Request)
      → (on_pq_request o r peer connection channel id incoming table).1
        ≡ forwards peer id request ∷ []
      → IsAdmitted request
  unfolding on_pq_request on_opened respond_sealed send_response respond
  on_pq_request-IsAdmitted request h = elim (Result-cases (o.open_request peer incoming)) [
    | inr (bad, is_err) ↦ absurd (ground (arith, h, is_err))
    | inl (inbound, opened) ↦ elim (Option-cases (decode_request o.is_utf8 (o.plaintext inbound))) [
      | inl none' ↦ absurd (
          ground (
            arith,
            h,
            opened,
            none',
            respond_sealed-other inbound (failed_with (bytes "PQ signature required")) request,
            respond_sealed-other inbound (failed_with (bytes "invalid PQ request payload")) request,
          ))
      | inr (found, some') ↦
          let refused =
            respond_sealed-other inbound (failed_with (bytes "PQ signature required")) request in
          record {
            inbound = inbound;
            has_keys = ground (arith, h);
            opened = opened;
            signed = ground (arith, h, opened, refused);
            decoded = ground (arith, h, opened, some', refused);
            replied = λ response.
                let same : (send_response o r id response
                      (on_pq_request o r peer connection channel id incoming table).0).1
                    ≡ respond_sealed o r.pq_behaviour channel inbound response =
                  ground (
                    arith,
                    h,
                    opened,
                    some',
                    refused,
                    HashMap.get-insert id id
                        (record {
                          connection_id = connection;
                          peer = peer;
                          pending = pq channel inbound;
                        })
                        table,
                    name_eq.beq_iff id id,
                  ) in
                rw same (respond_sealed-IsSealed inbound response);
          }
    ]
  ]
