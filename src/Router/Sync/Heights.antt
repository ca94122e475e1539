-- ===== src/Router/Sync/Heights.antt =====
-- SYNC_REQUEST_V2 of core/protocol/router/data_router.go, which compares heights and not trees. No handler
-- calls it.
use Prim.Native.String.{String}
use jmdn_fast_sync.Common.{
  ℕ, true, false, Option, none, some, [], ltb, ◌==◌, if◌then◌else◌, not, ◌≡◌, ◌<◌, arith,
}
use jmdn_fast_sync.Common.Result.{ok, fails, Answer, answered, panicked}
use jmdn_fast_sync.Checksum.{
  PriorMetadata, PriorSync, u16, verify_from_pb, create_from_pb, verify_from_pb_iff,
}
use jmdn_fast_sync.Pots.BlockMap.{Bytes}
use jmdn_fast_sync.Pots.Compare.{bytes_equal}
use jmdn_fast_sync.Router.{Chain}
use jmdn_fast_sync.Router.Sync.{World, Message, refuse, sync_request_response}
use jmdn_fast_sync.Wire.{failure, accepted, success_phase, header_sync_request}

module _ (world : World) where
  open world.trees use {Snapshot}

  -- The early ends of SYNC_REQUEST_V2, which carry their reason in the error text.
  abbrev pub ended : PriorSync Snapshot → String → Message world
  ended request text = record {
    priorsync = some request;
    ack = some (record { succeeded = true; error = text });
    phase = some (record {
      present_phase = sync_request_response;
      successive_phase = failure;
      success = true;
      error = text;
      auth = none;
    });
    headersync = none;
  }

  -- The server's own block, which SYNC_REQUEST_V2 returns to a client that is ahead.
  abbrev pub own_block : Chain → ℕ → Bytes → PriorSync Snapshot
  own_block chain version checksum = record {
    blocknumber = chain.block_number;
    stateroot = chain.stateroot;
    blockhash = chain.blockhash;
    metadata = some (record { checksum = checksum; version = version });
    merklesnapshot = none;
    range = none;
  }

  -- The part of SYNC_REQUEST_V2 after the checks.
  unfoldable pub compare_heights : Chain → ℕ → PriorSync Snapshot → Message world
  compare_heights chain version request =
      if chain.block_number == request.blocknumber
      then (if not (bytes_equal chain.stateroot request.stateroot)
          then refuse world request "on the same block height, stateroot mismatch"
          else (if not (bytes_equal chain.blockhash request.blockhash)
              then refuse world request "on the same block height, blockhash mismatch"
              else ended request "on the same block height"))
      else (if ltb request.blocknumber chain.block_number
          then ended request "block height is higher than the provider node"
          else elim (create_from_pb world.crc32 world.sha256 world.marshal
              (own_block chain version []) (u16 version)) [
                | fails e ↦ refuse world request e
                | ok checksum ↦ record {
                  priorsync = some (own_block chain version checksum);
                  ack = some accepted;
                  phase = some (success_phase sync_request_response header_sync_request none);
                  headersync = none;
                }
              ])

  -- SYNC_REQUEST_V2, which no handler calls.
  unfoldable pub sync_request_v2 : Option Chain → PriorSync Snapshot → Answer (Message world)
  unfolding compare_heights
  sync_request_v2 chain request = elim request.metadata [
    | none ↦ panicked
    | some metadata ↦
        elim (verify_from_pb world.crc32 world.sha256 world.marshal request (u16 metadata.version)
          metadata.checksum) [
            | fails e ↦ answered (refuse world request e)
            | ok false ↦ answered (refuse world request "checksum mismatch")
            | ok true ↦ elim chain [
              | none ↦ answered (refuse world request "block info is nil")
              | some chain' ↦ answered (compare_heights chain' metadata.version request)
            ]
          ]
  ]

  -- For a client that is ahead of the server, when a checksum can be computed: SYNC_REQUEST_V2 answers a
  -- verified request with success and the server's own height, state root and block hash, and the
  -- checksum and the version in that answer pass the verification that the server itself applies.
  pub sync_request_v2-verifies :
      (chain : Chain) (metadata : PriorMetadata) (request : PriorSync Snapshot) (checksum : Bytes)
      → request.metadata ≡ some metadata
      → verify_from_pb world.crc32 world.sha256 world.marshal request
          (u16 metadata.version)
          metadata.checksum
        ≡ ok true
      → chain.block_number < request.blocknumber
      → create_from_pb world.crc32 world.sha256 world.marshal
          (own_block chain metadata.version [])
          (u16 metadata.version)
        ≡ ok checksum
      → let own = own_block chain metadata.version checksum in
        (sync_request_v2 (some chain) request
          ≡ answered (record {
            priorsync = some own;
            ack = some accepted;
            phase = some (success_phase sync_request_response header_sync_request none);
            headersync = none;
          }))
        × (verify_from_pb world.crc32 world.sha256 world.marshal own (u16 metadata.version) checksum
            ≡ ok true)
  unfolding sync_request_v2 compare_heights create_from_pb
  sync_request_v2-verifies chain metadata request checksum present verified ahead made =
      let unequal : (chain.block_number == request.blocknumber) ≡ false = ground arith in
      let lower : ltb request.blocknumber chain.block_number ≡ false = ground arith in
      (
        simp (present, verified, unequal, lower, made, sync_request_v2, compare_heights),
        (verify_from_pb_iff world.crc32 world.sha256 world.marshal
              (own_block chain metadata.version checksum) (u16 metadata.version) checksum).1
            made,
      )
