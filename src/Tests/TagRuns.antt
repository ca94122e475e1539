-- ===== src/Tests/TagRuns.antt =====
-- Tags, batches of requests, and answers to a request for the blocks that a client lacks.
use Prim.Native.String.{String}
use jmdn_fast_sync.Common.{
  ℕ, ◌≤◌, ◌<◌, ◌≡◌, ◌≢◌, ◌↔◌, ◌⊎◌, refl, true, false, none, some, List, [], ◌∷◌, map, All, arith,
}
use jmdn_fast_sync.Common.Sort.{sort}
use jmdn_fast_sync.Common.Span.{span}
use jmdn_fast_sync.Tag.Divide.{divide_tags, divide_tags_lem}
use jmdn_fast_sync.Tag.Divide as Divide
use jmdn_fast_sync.DataSync.Batches.{max_data_per_request, build_data_batches}
use jmdn_fast_sync.DataSync.Batches.Divergence.{max_u64, build_data_batches-diverges}
use jmdn_fast_sync.DataSync.Batches.Laws.{build_data_batches_lem, covers-build_data_batches}
use jmdn_fast_sync.DataSync.Batches.Laws as DataLaws
use jmdn_fast_sync.DataSync.Batches.Rounds as Data
use jmdn_fast_sync.HeaderSync.Batches.{max_headers_per_request, build_batches}
use jmdn_fast_sync.HeaderSync.Batches.Laws.{
  build_batches_lem, covers-build_batches, build_batches-oversized,
}
use jmdn_fast_sync.HeaderSync.Batches.Laws as Headers
use jmdn_fast_sync.Pots.BlockMap.{Bytes, BlockMap, lookup}
use jmdn_fast_sync.Pots.Response.{
  Header, BlockInfo, PotsRequest, PotsError, nil_request, not_initialized, query_failed, no_headers,
  built, hash_given, process_pots_request, process_pots_request_lem,
}
use jmdn_fast_sync.Tag.{RangeTag, Tag, Tagging, new_tagging}
use jmdn_fast_sync.Tag.Covers.{covers}
use jmdn_fast_sync.Tag.Packing.Laws.{blocks_in, tag_size}
use jmdn_fast_sync.Wal.Buffered.Stack.{
  PendingEntry, entries, checkpoint, AsyncBuffer, data_request, push, IsCoalesced, requests, noted,
  push_lem,
}
use jmdn_fast_sync.Wal.Types.{data_sync}
use jmdn_fast_sync.Wire.{DataSyncRequest, header_sync_request}

-- Out of order, and with a range that does not fit into one request.
abbrev mixed : Tag
mixed = record {
  block_number = 90 ∷ 7 ∷ [];
  range = record { start = 50; end = 89 } ∷ record { start = 10; end = 20 } ∷ [];
}

abbrev long : RangeTag
long = record { start = 0; end = 1999 }

mixed-Headers : All Headers.IsRange mixed.range
mixed-Headers = (
  record { ordered = omega arith; small = omega arith },
  (record { ordered = omega arith; small = omega arith }, tt),
)

mixed-Data : All (λ r. Data.IsRange r × (blocks_in r < 50)) mixed.range
mixed-Data = (
  (record { ordered = omega arith; small = omega arith }, omega arith),
  ((record { ordered = omega arith; small = omega arith }, omega arith), tt),
)

build_batches_lem_example :
    (Headers.request_ranges (build_batches mixed none) ≡ sort (λ r. r.start) mixed.range)
    × (Headers.request_blocks (build_batches mixed none) ≡ sort (λ n. n) mixed.block_number)
    × All (λ q. Headers.WithinLimit q.tag) (build_batches mixed none)
build_batches_lem_example = build_batches_lem mixed none mixed-Headers

build_batches-oversized_example :
    map (λ q. tag_size q.tag) (build_batches (record { block_number = []; range = long ∷ [] }) none)
    ≡ blocks_in long ∷ []
build_batches-oversized_example =
    build_batches-oversized long none (record { ordered = omega arith; small = omega arith })
      (omega arith)

build_data_batches_lem_example :
    (qs : List DataSyncRequest) × (build_data_batches 50 mixed 1 none ≡ some qs)
    × (Data.listed (DataLaws.request_ranges qs) ≡ Data.listed (sort (λ r. r.start) mixed.range))
    × (DataLaws.request_blocks qs ≡ sort (λ n. n) mixed.block_number)
    × All (λ q. tag_size q.tag ≤ max_data_per_request) qs
build_data_batches_lem_example = build_data_batches_lem 50 mixed 1 none mixed-Data

build_data_batches-diverges_example :
    build_data_batches 1000
      (record { block_number = []; range = record { start = 5; end = max_u64 } ∷ [] })
      1
      none
    ≡ none
build_data_batches-diverges_example =
    build_data_batches-diverges 1000 (record { start = 5; end = max_u64 }) [] 1 none (omega arith)
      refl

abbrev server : BlockMap
server = (1, 11 ∷ []) ∷ (2, 12 ∷ []) ∷ (3, 13 ∷ []) ∷ []

abbrev client : BlockMap
client = (1, 11 ∷ []) ∷ (2, 99 ∷ []) ∷ []

abbrev hash : Bytes
hash = 1 ∷ 2 ∷ []

abbrev other_hash : Bytes
other_hash = 1 ∷ 3 ∷ []

abbrev headers : List Header
headers =
    record { block_number = 2; block_hash = 12 ∷ [] }
    ∷ record { block_number = 3; block_hash = 13 ∷ [] }
    ∷ []

abbrev store : BlockInfo
store = record { height = 3; headers_range = λ from to. some headers }

abbrev request : PotsRequest
request = record { latest_block_number = 1; blocks = client }

abbrev message : PotsError → String
message nil_request = "PoTS request is nil"
message not_initialized = "block info not initialized"
message query_failed = "failed to query headers"
message no_headers = "no headers found"

process_pots_request_lem_example :
    (tag : Tag) × (process_pots_request message (some store) (some request)
      ≡ (built (some tag) 3 true "" header_sync_request, none))
    × ((b : ℕ)
        → (covers tag b ≡ true)
          ↔ ((hash : Bytes) × (hash_given headers b ≡ some hash) × (lookup b client ≢ some hash)))
process_pots_request_lem_example =
    process_pots_request_lem message store request headers (omega arith) refl (omega arith)

abbrev tagged_a : Tagging
tagged_a = record { tag = new_tagging.tag; account_tag = ("a", true) ∷ [] }

abbrev pending : ℕ → PendingEntry
pending n = record { wal_type = data_sync; payload = n ∷ [] }

abbrev busy : AsyncBuffer
busy = record { stack = entries (pending 1 ∷ []) ∷ checkpoint ∷ []; closed = false }

push_lem_example :
    ((busy.closed ≡ false)
      × ((push busy (data_request (pending 2))).1 ≡ true)
      × ((push busy (data_request (pending 2))).0.closed ≡ false)
      × IsCoalesced (push busy (data_request (pending 2))).0.stack
      × (requests (push busy (data_request (pending 2))).0.stack
          ≡ noted busy.stack (data_request (pending 2))))
    ⊎ ((busy.closed ≡ true) × (push busy (data_request (pending 2)) ≡ (busy, false)))
push_lem_example = push_lem busy (data_request (pending 2)) tt

divide_tags_lem_example :
    (tag : Tag) × (divide_tags 5000 7 3200 ≡ some tag)
    × (Divide.blocks_of tag.range ≡ span 7 3194)
    × (tag.block_number ≡ [])
    × All (λ r. blocks_in r ≤ max_headers_per_request) tag.range
divide_tags_lem_example = divide_tags_lem 5000 7 3200 (omega arith) (omega arith) (omega arith)
