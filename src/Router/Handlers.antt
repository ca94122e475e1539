-- ===== src/Router/Handlers.antt =====
-- The handlers HandlePriorSync, HandleMerkle, HandleHeaderSync, HandleDataSync and HandlePoTSync of
-- core/protocol/router/data_router.go. A handler returns its reply and the new token cache, or it panics.
pub mod Dispatch
pub mod Gate
pub mod Panics
pub mod Serving
use Prim.Native.String.{String, ◌++◌ as joined}
use text.Mathlib.Text.{◌==◌ as str_eq}
use jmdn_fast_sync.Common.{
  ℕ, Bool, true, false, Option, none, some, List, [], ◌-◌, u64_mod, if◌then◌else◌,
}
use jmdn_fast_sync.Common.Result.{Result, ok, fails, Answer, answered, panicked, ◌>>=◌}
use jmdn_fast_sync.Checksum.{MerkleRange, PriorSync}
use jmdn_fast_sync.Pots.BlockMap.{Bytes}
use jmdn_fast_sync.Pots.Response.{
  Header, BlockInfo, PotsRequest, PotsResponse, PotsError, process_pots_request,
}
use jmdn_fast_sync.Router.{
  TagRequest, HeaderSyncMessage, PriorSyncMessage, HeaderSyncResponse, DataSyncResponse, Chain,
  Tokens, Service, refused, failed_phase, with_auth, metadata_required, auth_required,
  authentication_failed, unknown, auth_of, gate,
}
use jmdn_fast_sync.Router.Serve.{
  SnapshotConfig, MerkleMessage, request_merkle, header_sync, data_sync, serve_merkle,
}
use jmdn_fast_sync.Router.Sync.{World, Message, sync_request}
use jmdn_fast_sync.Wire.{
  Auth, Phase, failure, header_sync_request, data_sync_request, pots_response,
}
use jmdn_fast_sync.Router.Replies.{
  sync_request_state, unknown_state, MerkleRequest, MerkleRequestMessage, refuse_headers,
  refuse_data, refuse_merkle, refuse_prior, authorize, block_info, pots_template,
}

module _ (tokens : Tokens) where
  open tokens use {Cache, Peer}

  unfoldable pub handle_header_sync :
      Service → Cache → TagRequest → Peer → Answer (HeaderSyncResponse × Cache)
  unfolding gate header_sync
  handle_header_sync node cache request remote = elim request.phase [
    | none ↦ panicked
    | some phase ↦
        gate tokens node cache phase.auth remote
          (refuse_headers unknown unknown auth_required phase.auth)
          (refuse_headers unknown failure authentication_failed phase.auth)
          (answered (
            if str_eq phase.present_phase header_sync_request
            then elim request.tag [
              | none ↦
                  refuse_headers header_sync_request failure "Header sync request or range is nil"
                    phase.auth
              | some tag ↦
                  let reply = header_sync node.chain tag in
                  record reply { phase = with_auth phase.auth reply.phase }
            ]
            else refuse_headers phase.present_phase failure (unknown_state phase.present_phase)
                phase.auth))
  ]

  unfoldable pub handle_data_sync :
      (Bytes → String) → Service → Cache → TagRequest → Peer → Answer (DataSyncResponse × Cache)
  unfolding gate data_sync
  handle_data_sync encode node cache request remote = elim request.phase [
    | none ↦ panicked
    | some phase ↦
        gate tokens node cache phase.auth remote
          (refuse_data unknown unknown auth_required phase.auth)
          (refuse_data unknown failure authentication_failed phase.auth)
          (answered (
            if str_eq phase.present_phase data_sync_request
            then elim request.tag [
              | none ↦
                  refuse_data data_sync_request failure "Data sync request or range is nil"
                    phase.auth
              | some tag ↦
                  let reply = data_sync encode node.chain tag in
                  record reply { phase = with_auth phase.auth reply.phase }
            ]
            else refuse_data phase.present_phase failure (unknown_state phase.present_phase)
                phase.auth))
  ]

  -- A request with neither a token nor a phase is refused in a reply that reads the missing phase.
  unfoldable pub handle_merkle :
      (world : World)
      → (world.trees.Builder → Option world.trees.Snapshot)
      → (ℕ → ℕ)
      → Service
      → Cache
      → MerkleRequestMessage
      → Peer
      → Answer (MerkleMessage world.trees.Snapshot × Cache)
  unfolding gate serve_merkle
  handle_merkle world to_snapshot merge_of node cache message remote = elim message.request [
    | none ↦ auth_of message.phase >>= λ auth.
        answered (refuse_merkle "Merkle request or range is nil" auth, cache)
    | some request ↦ elim message.phase [
      | none ↦ auth_of message.phase >>= λ auth. answered (refuse_merkle auth_required auth, cache)
      | some phase ↦
          gate tokens node cache phase.auth remote (refuse_merkle auth_required phase.auth)
            (refuse_merkle authentication_failed phase.auth)
            (serve_merkle world.trees to_snapshot world.text world.generation_panics merge_of
                node.chain request.range request.config
              >>= λ reply. answered (record reply { phase = with_auth phase.auth reply.phase }))
    ]
  ]

  -- The state beside the cache is the router's own UUID. The peer's addresses in the metadata are only
  -- passed on to FULL_SYNC, which does not read them.
  unfoldable pub handle_prior_sync :
      (world : World)
      → Service
      → Cache
      → String
      → Message world
      → Peer
      → Answer ((Message world × String) × Cache)
  unfolding gate sync_request
  handle_prior_sync world node cache uuid message remote =
      let refuse : Answer ((Message world × String) × Cache) = auth_of message.phase >>= λ auth.
      answered
        ((refuse_prior message.priorsync unknown unknown metadata_required auth, uuid), cache) in
      elim message.priorsync [
        | none ↦ panicked
        | some request ↦ elim request.metadata [
          | none ↦ refuse
          | some metadata ↦ elim message.phase [
            | none ↦ refuse
            | some phase ↦
                gate tokens node cache phase.auth remote
                  (refuse_prior (some request) unknown unknown auth_required phase.auth, uuid)
                  (
                    refuse_prior (some request) unknown failure authentication_failed phase.auth,
                    uuid,
                  )
                  (if str_eq phase.present_phase sync_request_state
                    then (sync_request world uuid node.chain request >>= λ done.
                        answered (authorize phase.auth done.0, done.1))
                    else answered (
                      refuse_prior (some request) phase.present_phase failure
                          (unknown_state phase.present_phase) phase.auth,
                      uuid,
                    ))
          ]
        ]
      ]

  -- `message` and `cause` are the texts of an error in the reply of ProcessPoTSRequest and beside it; the
  -- phase of the request is the first argument.
  unfoldable pub handle_pot_sync :
      (PotsError → String)
      → (PotsError → String)
      → Option Phase
      → Service
      → Cache
      → PotsRequest
      → Peer
      → Answer (PotsResponse × Cache)
  unfolding gate
  handle_pot_sync message cause none node cache request remote =
      answered (pots_template auth_required none, cache)
  handle_pot_sync message cause (some phase) node cache request remote =
      gate tokens node cache phase.auth remote (pots_template auth_required none)
        (pots_template authentication_failed phase.auth)
        (elim node.chain [
          | none ↦ panicked
          | some chain ↦
              let (reply, error) =
                process_pots_request message (some (block_info chain)) (some request) in
              answered (elim error [
                | some e ↦ record {
                  tag = none;
                  latest_block_number = chain.block_number;
                  phase =
                      failed_phase pots_response failure
                        (joined "failed to process PoTS request: " (cause e)) phase.auth;
                }
                | none ↦ record reply { phase = with_auth phase.auth reply.phase }
              ])
        ])
