-- ===== src/Tests/Swarm.antt =====
-- src/network/actor.rs at concrete inputs.
use nexus_net.Base.HashMap
use nexus_net.Base.Bags.{count}
use nexus_net.Base.Tables.{tally}
use nexus_net.Base.{
  ℕ, ◌+◌, ◌≡◌, ◌==◌, refl, Bool, true, List, [], ◌∷◌, Name, bytes, ok, nat_eq, name_eq, length,
  ◌||◌,
}
use nexus_net.Base.HashSet
use nexus_net.Sidecar.Codec.{u32_be}
use nexus_net.Swarm.Types.{Request}
use nexus_net.Swarm.Encoding.{decode_request, encode_request}
use nexus_net.Swarm.Queries.{
  KadPending, answer, records, providers, get_record, get_providers, waiter, ask_record,
  ask_providers, found_record, record_error, got_record, no_additional_provider,
}
use nexus_net.Swarm.Waiters.{KadMove, commands, progresses, reloads, moves}
use nexus_net.Swarm.Answered.{asked, settled, moves_answered}
use nexus_net.Swarm.Gathered.{
  reports_providers, reports_records, in_batches, get_providers-collects, get_record-collects,
}
use nexus_net.Swarm.Peers.{
  Peers, PqSetup, PeerMove, identifies, shows_identity, service_req_pq_protocol, start_peers,
}
use nexus_net.Swarm.Peers
use nexus_net.Swarm.Identities.{IsSound, moves-start_peers-IsSound}
use nexus_net.Swarm.Requests.{Sender, Envelope, send_request}
use nexus_net.Swarm.Guarded.{Allowed, send_request-Allowed}
use nexus_net.Swarm.Service.{PqOpener, Receiver, on_pq_request, on_opened}
use nexus_net.Swarm.Admitted.{IsAdmitted, on_pq_request-IsAdmitted}
use nexus_net.Tests.Data.{web}

-- Peers, records and the addresses of peers are numbers.
abbrev Table : Type 0
Table = List (ℕ × KadPending ℕ ℕ ℕ)

-- Two queries start, one of them collects a record, and a reload ends both.
abbrev two_queries : List (KadMove ℕ ℕ ℕ)
two_queries =
    commands true 1 (ok tt) (ask_record web 11)
    ∷ commands true 2 (ok tt) (ask_providers web 12)
    ∷ progresses true 1 (got_record (found_record 5))
    ∷ reloads
    ∷ []

moves_answered_example :
    count 11 (asked two_queries)
    ≡ count 11 (settled (moves two_queries []).1) + tally waiter 11 (moves two_queries []).0
moves_answered_example = moves_answered 11 two_queries

abbrev provider_table : Table
provider_table = (2, get_providers 12 []) ∷ []

abbrev batches : List (List ℕ)
batches = (7 ∷ 8 ∷ []) ∷ (8 ∷ 9 ∷ []) ∷ []

get_providers-collects_example :
    (all : List ℕ) × ((moves
        (reports_providers true 2 batches no_additional_provider)
        provider_table).1
      ≡ answer 12 (providers (ok all)) ∷ [])
    × ((p : ℕ) → HashSet.contains all p ≡ (in_batches batches p || HashSet.contains [] p))
unfolding HashMap.get
get_providers-collects_example =
    get_providers-collects true 2 12 batches no_additional_provider [] provider_table refl refl

abbrev record_table : Table
record_table = (1, get_record 11 []) ∷ []

get_record-collects_example :
    (moves (reports_records true 1 (5 ∷ 6 ∷ []) (record_error (bytes "timeout"))) record_table).1
    ≡ answer 11 (records (ok (5 ∷ 6 ∷ []))) ∷ []
unfolding HashMap.get
get_record-collects_example =
    get_record-collects true 1 11 (5 ∷ 6 ∷ []) (record_error (bytes "timeout")) [] record_table refl
      refl

-- The identity of a peer is its number.
abbrev same : ℕ → ℕ → Bool
same peer identity = peer == identity

abbrev setup : PqSetup
setup = record { has_keys = true; enabled = true; has_behaviour = true }

-- A peer identifies and shows its identity.
abbrev meets_peer : List (PeerMove ℕ ℕ)
meets_peer =
    identifies setup 1 7
      (record { agent_version = bytes "/nexusnet"; protocols = service_req_pq_protocol ∷ [] })
    ∷ shows_identity 1 7
    ∷ []

moves-start_peers-IsSound_example : IsSound same 7 (Peers.moves same meets_peer (start_peers []))
moves-start_peers-IsSound_example = moves-start_peers-IsSound same 7 meets_peer []

abbrev envelope : Envelope ℕ Request
envelope = record {
  plain_len = λ r. ok (length r.payload);
  seal = λ i r. ok r;
  sealed_len = λ r. ok (length r.payload + 16);
}

abbrev sender : Sender
sender = record {
  transport = true;
  required = true;
  max_request_bytes = 100;
  setup = setup;
  pq_behaviour = true;
}

abbrev to_web : Request
to_web = record { service = web; payload = 5 ∷ [] }

send_request-Allowed_example :
    Allowed envelope sender same 7
      (Peers.moves same meets_peer (start_peers []))
      to_web
      (send_request envelope sender (Peers.moves same meets_peer (start_peers [])) 7 to_web)
send_request-Allowed_example = send_request-Allowed envelope sender same 7 meets_peer [] to_web

abbrev any_text : Name → Bool
any_text name = true

-- A sealed request is its plain bytes.
abbrev opener : PqOpener ℕ (List ℕ) (List ℕ) (List ℕ)
opener = record {
  open_request = λ peer request. ok request;
  plaintext = λ inbound. inbound;
  is_signed = λ request. true;
  seal_response = λ inbound out. ok out;
  is_utf8 = any_text;
}

abbrev receiver : Receiver
receiver = record {
  pq_required = true;
  has_keys = true;
  identity_enabled = true;
  pq_behaviour = true;
}

on_pq_request-IsAdmitted_example :
    IsAdmitted opener receiver 7 1 2 (3 ∷ []) (encode_request to_web) [] to_web
unfolding on_pq_request on_opened encode_request decode_request u32_be
on_pq_request-IsAdmitted_example =
    on_pq_request-IsAdmitted opener receiver 7 1 2 (3 ∷ []) (encode_request to_web) [] to_web refl
