-- ===== src/Tests/UploadRuns.antt =====
-- A client uploads its nonces in two chunks.
use jmdn_fast_sync.Common.{ℕ, ◌≡◌, refl, Bool, true, false, none, some, List, [], ◌∷◌, ◌++◌, length}
use jmdn_fast_sync.Common.Result.{ok, answered}
use jmdn_fast_sync.AccountSync.Dispatcher.{new_dispatcher, summarise}
use jmdn_fast_sync.Checksum.{verify, create}
use jmdn_fast_sync.Pots.BlockMap.{Bytes}
use jmdn_fast_sync.Router.{gate, authenticate}
use jmdn_fast_sync.Router.Upload.{
  Art, UploadRequest, ServerMessage, end_of_stream, err_end_of_stream, ok_batch_ack, upload_loop,
  accounts_sync_request, accounts_sync_response, art_checksum_valid, dispatch_missing,
  finish_upload, merge_chunk, accounts_sync, serve_upload, handle_accounts_sync, drain_and_reject,
}
use jmdn_fast_sync.Router.Upload.Chunks.{
  upload_phase, create_proto, nonce_range, range_of, make_chunk, make_chunk-merged,
}
use jmdn_fast_sync.Router.Upload.Sessions.{IsSession, upload_loop-IsSession}
use jmdn_fast_sync.Tests.RouterRuns.{one_token, serving, asking, chain_of, known_peer}
use jmdn_fast_sync.Wire.{accepted, success_phase}

-- A tree is the list of its nonces; the second checksum is the bytes themselves.
abbrev listed : Art
listed = record {
  Tree = List ℕ;
  Chunk = List ℕ;
  decode = λ bytes. ok bytes;
  merge = λ tree chunk. (tree ++ chunk, none);
  close = λ tree. (tree, none);
  run_diff =
      λ tree total auth d. ok (record d { delivered_pages = 1; delivered_accounts = length tree });
  new_error = "invalid";
  version_text = λ version. "version";
  crc32 = length;
  sha256 = λ bytes. bytes;
  marshal = λ e. ok e.root;
}

abbrev chunk_of : Bytes → ℕ → Bool → UploadRequest
chunk_of bytes index last = record {
  art = bytes;
  total_keys = 5;
  keys_range = some (record { start = 1; end = 9 });
  batch_index = index;
  is_last = last;
  phase = some (asking accounts_sync_request);
  checksum = some (record { checksum = bytes; version = 2 });
}

abbrev two_chunks : List (UploadRequest × Bool)
two_chunks = (chunk_of (1 ∷ 2 ∷ []) 0 false, true) ∷ (chunk_of (3 ∷ 4 ∷ 5 ∷ []) 1 true, true) ∷ []

abbrev five : List ℕ
five = 1 ∷ 2 ∷ 3 ∷ 4 ∷ 5 ∷ []

abbrev two_replies : List ServerMessage
two_replies =
    ok_batch_ack 0
    ∷ end_of_stream 1 5 accepted (
        some (
          success_phase accounts_sync_response accounts_sync_response
            (some (record { uuid = "token" }))))
    ∷ []

uploads : upload_loop listed one_token serving 7 two_chunks 0 [] ≡ answered (two_replies, 2, five)
unfolding upload_loop handle_accounts_sync gate authenticate serve_upload accounts_sync
    art_checksum_valid verify create merge_chunk finish_upload dispatch_missing new_dispatcher
    summarise
uploads = refl

upload_loop-IsSession_example :
    IsSession listed one_token serving 7 two_chunks 0 [] two_replies 2 five
upload_loop-IsSession_example =
    upload_loop-IsSession listed one_token serving 7 two_chunks 0 [] two_replies 2 five uploads

-- A chunk whose bytes are not those of its checksum ends the session.
tampered :
    upload_loop listed one_token serving 7
      ((record (chunk_of (1 ∷ 2 ∷ []) 0 false) { art = 1 ∷ 3 ∷ [] }, true) ∷ two_chunks)
      0
      []
    ≡ answered (err_end_of_stream "ART checksum mismatch" ∷ [], 1, [])
unfolding upload_loop handle_accounts_sync gate authenticate serve_upload accounts_sync
    art_checksum_valid verify create
tampered = refl

drained :
    drain_and_reject "no session" (chunk_of [] 0 false ∷ chunk_of [] 1 true ∷ [])
    ≡ ok_batch_ack 0
      ∷ end_of_stream 0 0 (record { succeeded = false; error = "no session" }) none
      ∷ []
unfolding drain_and_reject
drained = refl

abbrev made : UploadRequest
made = record {
  art = 3 ∷ 1 ∷ 4 ∷ [];
  total_keys = 5;
  keys_range = some (record { start = 1; end = 4 });
  batch_index = 2;
  is_last = false;
  phase = some (upload_phase (some (record { uuid = "token" })));
  checksum = some (record { checksum = 0 ∷ 0 ∷ 0 ∷ 3 ∷ []; version = 1 });
}

makes :
    make_chunk listed
      (λ nonces. nonces)
      (3 ∷ 1 ∷ 4 ∷ [])
      2
      5
      false
      (some (record { uuid = "token" }))
    ≡ ok made
unfolding make_chunk create_proto create range_of nonce_range
makes = refl

make_chunk-merged_example :
    handle_accounts_sync listed one_token serving 0 made 7 (9 ∷ [])
    ≡ answered ((ok_batch_ack 2, 9 ∷ 3 ∷ 1 ∷ 4 ∷ []), 1)
make_chunk-merged_example =
    make_chunk-merged listed (λ nonces. nonces) one_token serving 0 7 (chain_of 19) (3 ∷ 1 ∷ 4 ∷ [])
      2 5 (some (record { uuid = "token" })) made (3 ∷ 1 ∷ 4 ∷ []) (9 ∷ []) (9 ∷ 3 ∷ 1 ∷ 4 ∷ [])
      known_peer refl makes refl refl refl
