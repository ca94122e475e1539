-- ===== src/Tests/HeaderRuns.antt =====
-- A node without headers asks one remote, which sends one header at a time, for the blocks 3 and 4. The
-- first comparison of the trees finds a difference, the second one does not.
use jmdn_fast_sync.Common.{
  ℕ, true, Option, none, some, List, [], ◌∷◌, ◌++◌, length, map, ◌==◌, if◌then◌else◌,
}
use jmdn_fast_sync.Common.Result.{ok}
use jmdn_fast_sync.DataSync.Queue.Fetch.{Remote}
use jmdn_fast_sync.HeaderSync.Confirm.{Network}
use jmdn_fast_sync.HeaderSync.Queue.{HeaderReply}
use jmdn_fast_sync.HeaderSync.Rounds.{header_sync, request_data}
use jmdn_fast_sync.Pots.Response.{Header}
use jmdn_fast_sync.Router.{PriorSyncMessage}
use jmdn_fast_sync.Tag.{Tag}
use jmdn_fast_sync.Wal.Types.{Event, header_sync as header_sync_type}
use jmdn_fast_sync.Wire.{
  Auth, Phase, DataSyncRequest, HeaderSyncRequest, accepted, success_phase, header_sync_response,
  data_sync_request,
}

abbrev blocks : List ℕ → Tag
blocks ns = record { block_number = ns; range = [] }

abbrev told : Option Tag → PriorSyncMessage ℕ
told tag = record {
  priorsync = none;
  ack = none;
  phase = some (success_phase header_sync_response data_sync_request none);
  headersync = some (record {
    tag = tag;
    ack = accepted;
    phase = success_phase header_sync_response data_sync_request none;
  });
}

abbrev fresh : Auth
fresh = record { uuid = "fresh" }

abbrev one_server : Network (List Header) ℕ ℕ
one_server = record {
  details = λ db. record {
    blocknumber = length db;
    stateroot = [];
    blockhash = [];
    range = none;
    version = 2;
  };
  build_snapshot = λ db top. some top;
  ask = λ db peer top. (db, some (record { is_available = true; auth = some fresh }));
  compare = λ db snapshot peer message auth.
      (db, some (told (if snapshot == 2 then none else some (blocks (4 ∷ [])))));
  crc32 = λ bytes. length bytes;
  sha256 = λ bytes. bytes;
  marshal = λ e. ok (e.number ∷ e.root ++ e.hash);
}

abbrev first_header : List ℕ → List Header
first_header [] = []
first_header (n ∷ ns) = record { block_number = n; block_hash = n ∷ [] } ∷ []

abbrev send_one : List Header → ℕ → HeaderSyncRequest → List Header × Option HeaderReply
send_one db peer request =
    (db, some (record { ack = some accepted; header = first_header request.tag.block_number }))

abbrev append_headers : List Header → List Header → Option (List Header)
append_headers db headers = some (db ++ headers)

abbrev header_event : List Header → Event
header_event headers = record {
  event_type = header_sync_type;
  serialized = some (map (λ h. h.block_number) headers);
}

abbrev one_remote : List (Remote ℕ)
one_remote = record { peer = some 7; auth = none } ∷ []

abbrev asked_for : DataSyncRequest
asked_for = request_data 2 (blocks (3 ∷ 4 ∷ [])) (some fresh)

abbrev question : Option (Option Tag × Option Phase)
question = some (some (blocks (3 ∷ 4 ∷ [])), none)
