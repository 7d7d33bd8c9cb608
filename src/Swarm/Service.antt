-- ===== src/Swarm/Service.antt =====
-- src/network/actor.rs: `handle_service_req`, `handle_service_req_pq`, the responses of this node, and
-- what a reload or a closed connection does to them. A request is known by its id, and answered on
-- the channel that it came with. Opening and sealing are parameters.
use nexus_net.Base.HashMap
use nexus_net.Base.{
  ℕ, ◌==◌, Bool, false, not, ◌&&◌, none, some, List, [], ◌∷◌, ◌++◌, Name, bytes, name_eq, Result,
  ok, err, nat_eq, if◌then◌else◌, select,
}
use nexus_net.Dispatcher.Types.{Response}
use nexus_net.Dispatcher.Replies.{Waited, sent, closed, timed_out}
use nexus_net.Swarm.Types.{Request}
use nexus_net.Swarm.Encoding.{encode_response, decode_request}

abbrev pub failed_with : Name → Response
failed_with text = record { success = false; data' = text }

abbrev pub reload_rejection : Name
reload_rejection = bytes "node is reloading; retry shortly"

unfoldable pub reload_rejection_response : Response
reload_rejection_response = failed_with reload_rejection

-- The response of the spawned task, which waits without limit.
unfoldable pub response_of : Waited Response → Response
response_of (sent (ok response)) = response
response_of (sent (err text)) = failed_with text
response_of closed = failed_with (bytes "request handler dropped")
response_of timed_out = failed_with (bytes "request handler dropped")

-- The response channel of libp2p, with what seals a response to a post-quantum request.
pub data PendingInbound (Inbound : Type 0) : Type 0 where
  plain : ℕ → PendingInbound Inbound
  pq : ℕ → Inbound → PendingInbound Inbound

pub record PendingInboundEntry (PeerId Inbound : Type 0) : Type 0 where
  pub connection_id : ℕ
  pub peer : PeerId
  pub pending : PendingInbound Inbound

pub data ServiceEffect (PeerId Sealed : Type 0) : Type 0 where
  responds : ℕ → Response → ServiceEffect PeerId Sealed
  responds_sealed : ℕ → Sealed → ServiceEffect PeerId Sealed
  -- `InboundServiceRequest` to the controller.
  forwards : PeerId → Name → Request → ServiceEffect PeerId Sealed

-- `open_request`, `seal_response`, and whether a request carries a signature.
pub record PqOpener (PeerId PqRequest Inbound Sealed : Type 0) : Type 0 where
  pub open_request : PeerId → PqRequest → Result Name Inbound
  pub plaintext : Inbound → List ℕ
  pub is_signed : PqRequest → Bool
  pub seal_response : Inbound → List ℕ → Result Name Sealed
  pub is_utf8 : Name → Bool

-- The keys and the configuration.
pub record Receiver : Type 0 where
  pub pq_required : Bool
  pub has_keys : Bool
  pub identity_enabled : Bool
  pub pq_behaviour : Bool

module _ {PeerId Inbound Sealed : Type 0} where
  unfoldable pub on_request :
      Receiver
      → PeerId
      → ℕ
      → ℕ
      → Name
      → Request
      → List (Name × PendingInboundEntry PeerId Inbound)
      → List (Name × PendingInboundEntry PeerId Inbound) × List (ServiceEffect PeerId Sealed)
  on_request r peer connection channel id request table =
      if r.pq_required
      then (table, responds channel (failed_with (bytes "PQ required")) ∷ [])
      else (
        HashMap.insert id
            (record { connection_id = connection; peer = peer; pending = plain channel }) table,
        forwards peer id request ∷ [],
      )

module _ {PeerId PqRequest Inbound Sealed : Type 0} where
  module _ (o : PqOpener PeerId PqRequest Inbound Sealed) where
    -- A sealed response, if it can be sealed and the behaviour is there.
    unfoldable pub respond_sealed :
        Bool → ℕ → Inbound → Response → List (ServiceEffect PeerId Sealed)
    respond_sealed behaviour channel inbound response =
        elim (o.seal_response inbound (encode_response response)) [
          | err e ↦ []
          | ok out ↦ if behaviour then responds_sealed channel out ∷ [] else []
        ]

    -- After the request is opened.
    unfoldable pub on_opened :
        Receiver
        → PeerId
        → ℕ
        → ℕ
        → Name
        → Bool
        → Inbound
        → List (Name × PendingInboundEntry PeerId Inbound)
        → List (Name × PendingInboundEntry PeerId Inbound) × List (ServiceEffect PeerId Sealed)
    on_opened r peer connection channel id signed inbound table =
        if r.identity_enabled && not signed
        then (
          table,
          respond_sealed r.pq_behaviour channel inbound
              (failed_with (bytes "PQ signature required")),
        )
        else elim (decode_request o.is_utf8 (o.plaintext inbound)) [
          | none ↦ (
            table,
            respond_sealed r.pq_behaviour channel inbound
                (failed_with (bytes "invalid PQ request payload")),
          )
          | some request ↦ (
            HashMap.insert id
                (record { connection_id = connection; peer = peer; pending = pq channel inbound })
                table,
            forwards peer id request ∷ [],
          )
        ]

    unfoldable pub on_pq_request :
        Receiver
        → PeerId
        → ℕ
        → ℕ
        → Name
        → PqRequest
        → List (Name × PendingInboundEntry PeerId Inbound)
        → List (Name × PendingInboundEntry PeerId Inbound) × List (ServiceEffect PeerId Sealed)
    on_pq_request r peer connection channel id request table =
        if not r.has_keys then (table, []) else elim (o.open_request peer request) [
          | err e ↦ (table, [])
          | ok inbound ↦ on_opened r peer connection channel id (o.is_signed request) inbound table
        ]

    unfoldable pub respond :
        Receiver → Response → PendingInbound Inbound → List (ServiceEffect PeerId Sealed)
    respond r response (plain channel) = responds channel response ∷ []
    respond r response (pq channel inbound) = respond_sealed r.pq_behaviour channel inbound response

    -- `ServiceSendResponse`
    unfoldable pub send_response :
        Receiver
        → Name
        → Response
        → List (Name × PendingInboundEntry PeerId Inbound)
        → List (Name × PendingInboundEntry PeerId Inbound) × List (ServiceEffect PeerId Sealed)
    send_response r id response table = elim (HashMap.get table id) [
      | none ↦ (table, [])
      | some entry ↦ (HashMap.remove id table, respond r response entry.pending)
    ]

    -- `reject_inbound`, for each entry.
    unfoldable pub reject_all :
        Receiver
        → List (Name × PendingInboundEntry PeerId Inbound)
        → List (ServiceEffect PeerId Sealed)
    reject_all r [] = []
    reject_all r ((id, entry) ∷ table) =
        respond r reload_rejection_response entry.pending ++ reject_all r table

module _ {PeerId Inbound : Type 0} where
  -- The entries that `ConnectionClosed` keeps.
  unfoldable pub keep_connections :
      ℕ
      → List (Name × PendingInboundEntry PeerId Inbound)
      → List (Name × PendingInboundEntry PeerId Inbound)
  keep_connections connection table =
      select
        (λ (x : Name × PendingInboundEntry PeerId Inbound). not (x.1.connection_id == connection))
        table
