-- ===== src/Tests/RouterRuns.antt =====
-- A router with two trees of 20 blocks, a peer that holds a token, and requests to it.
use Prim.Native.String.{String}
use text.Mathlib.Text.{◌==◌ as str_eq}
use jmdn_fast_sync.Common.{
  ℕ, ◌+◌, ◌-◌, ◌≡◌, ◌↔◌, ◌⊎◌, ◌^◌, ltb, refl, true, ◌&&◌, Option, none, some, [], ◌∷◌, ◌++◌, map,
  any, length, ◌==◌, if◌then◌else◌, arith,
}
use jmdn_fast_sync.Common.Result.{ok, fails, answered, panicked}
use jmdn_fast_sync.Common.Span.{span}
use jmdn_fast_sync.Checksum.{PriorSync, verify_from_pb, create_from_pb, verify_from_pb_iff}
use jmdn_fast_sync.Pots.Response.{Header}
use jmdn_fast_sync.Router.{
  TagRequest, NonHeaders, HeaderSyncResponse, DataSyncResponse, Chain, Tokens, Service,
}
use jmdn_fast_sync.Router.Handlers.{handle_header_sync, handle_data_sync}
use jmdn_fast_sync.Router.Replies.{MerkleRequestMessage}
use jmdn_fast_sync.Router.Handlers.Dispatch.{
  Helpers, headers, blocks, merkle, headers_found, handle, phase_of, handle-Earned,
}
use jmdn_fast_sync.Router.Accounts.{
  Account, last_part, lookup_key_for_fetch, fetch_accounts_by_addresses, without_balance,
}
use jmdn_fast_sync.Router.Handlers.Gate.{IsAuthorized}
use jmdn_fast_sync.Router.Handlers.Panics.{IsOverlong, handle-panicked}
use jmdn_fast_sync.Router.Handlers.Serving.{
  IsHeld, touched, handle_header_sync-IsExact, handle_data_sync-IsExact,
}
use jmdn_fast_sync.Router.Serve.{merge_request}
use jmdn_fast_sync.Router.Sync.{World}
use jmdn_fast_sync.Tag.{Tag, get_account}
use jmdn_fast_sync.Tests.TreeRuns.{two_nodes}
use jmdn_fast_sync.Wire.{
  Phase, accepted, success_phase, header_sync_request, header_sync_response, data_sync_request,
  data_sync_response,
}

-- The peer 7 holds "token"; the cache counts the resets.
abbrev pub one_token : Tokens
one_token = record {
  Cache = ℕ;
  Peer = ℕ;
  is_auth = λ cache remote uuid. ok (str_eq uuid "token" && (remote == 7));
  reset_ttl = λ cache remote. cache + 1;
}

abbrev header_of : ℕ → Header
header_of n = record { block_number = n; block_hash = n ∷ [] }

-- The block `n` moves from the address `n` to the address 9.
abbrev pub body_of : ℕ → NonHeaders
body_of n = record {
  block_number = n;
  transactions = some (record { from = n ∷ []; to = 9 ∷ [] }) ∷ none ∷ [];
}

abbrev pub chain_of : ℕ → Chain
chain_of height = record {
  block_number = height;
  stateroot = 1 ∷ [];
  blockhash = 2 ∷ [];
  headers = λ ns. ok (map header_of ns);
  headers_range = λ a b. ok (map header_of (span a (b + 1 - a)));
  non_headers = λ ns. ok (map body_of ns);
  non_headers_range = λ a b. ok (map body_of (span a (b + 1 - a)));
}

abbrev pub serving : Service
serving = record { available = true; chain = some (chain_of 19) }

abbrev pub two_trees : World
two_trees = record {
  crc32 = length;
  sha256 = λ bytes. bytes;
  marshal = λ e. ok (e.number ∷ e.root ++ e.hash);
  trees = two_nodes;
  config = λ snapshot. some (record { block_merge = 1; expected_total = 20 });
  nil_tree = panicked;
  text = λ stage. "merkle error";
  generation_panics = λ start end. ltb (2 ^ 43) (end - start);
  registration = none;
}

-- Under version 2 the checksum is the encoding itself.
abbrev pub prior_at : ℕ → PriorSync ℕ
prior_at number = record {
  blocknumber = number;
  stateroot = 1 ∷ [];
  blockhash = 2 ∷ [];
  metadata = some (record { checksum = number ∷ 1 ∷ 2 ∷ []; version = 2 });
  merklesnapshot = some 2;
  range = none;
}

verify_from_pb_iff_example :
    (verify_from_pb two_trees.crc32 two_trees.sha256 two_trees.marshal
        (prior_at 5)
        2
        (5 ∷ 1 ∷ 2 ∷ [])
      ≡ ok true)
    ↔ (create_from_pb two_trees.crc32 two_trees.sha256 two_trees.marshal (prior_at 5) 2
        ≡ ok (5 ∷ 1 ∷ 2 ∷ []))
verify_from_pb_iff_example =
    verify_from_pb_iff two_trees.crc32 two_trees.sha256 two_trees.marshal (prior_at 5) 2
      (5 ∷ 1 ∷ 2 ∷ [])

abbrev pub asking : String → Phase
asking state = success_phase state "" (some (record { uuid = "token" }))

abbrev block_tag : Tag
block_tag = record { block_number = 3 ∷ []; range = record { start = 5; end = 6 } ∷ [] }

abbrev header_request : TagRequest
header_request = record { tag = some block_tag; phase = some (asking header_sync_request) }

pub known_peer : IsAuthorized one_token serving 0 (some (record { uuid = "token" })) 7
known_peer = record {
  token = record { uuid = "token" };
  present = refl;
  filled = refl;
  available = refl;
  known = refl;
}

block_tag-IsHeld : IsHeld 19 block_tag
block_tag-IsHeld = record { numbers = (omega arith, tt); ranges = (omega arith, tt) }

abbrev headers_reply : HeaderSyncResponse
headers_reply = record {
  header = map header_of (3 ∷ 5 ∷ 6 ∷ []);
  ack = accepted;
  phase = success_phase header_sync_response merge_request (some (record { uuid = "token" }));
}

handle_header_sync-IsExact_example :
    handle_header_sync one_token serving 0 header_request 7 ≡ answered (headers_reply, 1)
handle_header_sync-IsExact_example =
    handle_header_sync-IsExact one_token serving 0 7 (chain_of 19) refl (asking header_sync_request)
      known_peer block_tag block_tag-IsHeld header_of
      (record { on_numbers = λ ns h. refl; on_range = λ a b h. refl }) refl

handle_data_sync-IsExact_example :
    (reply : DataSyncResponse) × (handle_data_sync one_token
        (λ bytes. "address")
        serving
        0
        (record { tag = some block_tag; phase = some (asking data_sync_request) })
        7
      ≡ answered (reply, 1))
    × (reply.content ≡ map body_of (3 ∷ 5 ∷ 6 ∷ []))
    × ((key : String)
        → get_account reply.taggedaccounts key
          ≡ any (touched (λ bytes. "address") key) (map body_of (3 ∷ 5 ∷ 6 ∷ [])))
    × (reply.phase
        ≡ success_phase data_sync_response merge_request (some (record { uuid = "token" })))
handle_data_sync-IsExact_example =
    handle_data_sync-IsExact one_token serving 0 7 (chain_of 19) refl (asking data_sync_request)
      known_peer block_tag block_tag-IsHeld (λ bytes. "address") body_of
      (record { on_numbers = λ ns h. refl; on_range = λ a b h. refl }) refl

abbrev account_a : Account
account_a = record {
  did_address = "did:jmdt:a";
  address = 1 ∷ [];
  balance = "25";
  nonce = 4;
  account_type = "did";
  created_at = 0;
  updated_at = 0;
}

abbrev helpers : Helpers two_trees
helpers = record {
  encode = λ bytes. "address";
  message = λ e. "refused";
  cause = λ e. "cause";
  to_snapshot = λ tree. some tree;
  merge_of = λ total. 1;
  lookup = record {
    has_prefix = λ text prefix. str_eq text "did:jmdt:a" && str_eq prefix "did:";
    split = λ text separator. "did" ∷ "jmdt" ∷ "a" ∷ [];
    account_by_address = λ key. if str_eq key "a" then ok (some account_a) else fails "not found";
  };
}

-- A DID finds its account, without its balance; an address that is not known is skipped.
accounts_of_did :
    fetch_accounts_by_addresses helpers.lookup ("did:jmdt:a" ∷ "b" ∷ [])
    ≡ without_balance account_a ∷ []
unfolding fetch_accounts_by_addresses lookup_key_for_fetch last_part
accounts_of_did = refl

handle-Earned_example :
    (p : Phase) × (phase_of two_trees (headers header_request) ≡ some p)
    × IsAuthorized one_token serving 0 p.auth 7
    × (◌≡◌ {A = ℕ} 1 1)
unfolding handle
handle-Earned_example =
    handle-Earned one_token two_trees helpers serving 0 1 "" (headers header_request) 7
      (headers_found headers_reply) ran refl
  where
    ran :
        handle one_token two_trees helpers serving 0 "" (headers header_request) 7
        ≡ answered (headers_found headers_reply, 1)
    ran = rw handle_header_sync-IsExact_example refl

abbrev without_phase : TagRequest
without_phase = record { tag = some block_tag; phase = none }

abbrev merkle_without_phase : MerkleRequestMessage
merkle_without_phase = record { request = none; phase = none }

handle-panicked_example :
    ((handle one_token two_trees helpers serving 0 "" (headers without_phase) 7 ≡ panicked)
      ↔ (◌≡◌ {A = Option Phase} none none))
    × ((handle one_token two_trees helpers serving 0 "" (blocks without_phase) 7 ≡ panicked)
        ↔ (◌≡◌ {A = Option Phase} none none))
    × ((handle one_token two_trees helpers serving 0 "" (merkle merkle_without_phase) 7 ≡ panicked)
        ↔ ((◌≡◌ {A = Option Phase} none none)
            ⊎ IsOverlong one_token serving 0 7 (chain_of 19) refl two_trees merkle_without_phase))
handle-panicked_example =
    handle-panicked one_token serving 0 7 (chain_of 19) refl two_trees helpers "" without_phase
      merkle_without_phase
