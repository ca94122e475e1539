-- ===== src/Router/Upload/Chunks.antt =====
-- makeChunk of core/accountsync/accountsync.go and CreateProto of common/checksum/checksum_accountsync: a chunk
-- of the client's nonces, and what the server makes of it. The tree of a list of nonces, encoded, is a
-- parameter.
use Prim.Native.String.{String}
use jmdn_fast_sync.Common.{
  ℕ, ◌≡◌, refl, ap, sym, ◌∙◌, Bool, true, false, Option, none, some, List, [], ◌∷◌, length, ltb,
  ◌==◌, if◌then◌else◌,
}
use jmdn_fast_sync.Common.Result.{Result, ok, fails, answered}
use jmdn_fast_sync.Checksum.{create, verify_iff, big_endian}
use jmdn_fast_sync.Pots.BlockMap.{Bytes}
use jmdn_fast_sync.Router.{Tokens, Service, Chain}
use jmdn_fast_sync.Router.Handlers.Gate.{IsAuthorized, gate-IsAuthorized}
use jmdn_fast_sync.Router.Upload.{
  Art, ArtChecksum, UploadRequest, ServerMessage, ok_batch_ack, accounts_sync_request,
  art_checksum_valid, merge_chunk, accounts_sync, serve_upload, handle_accounts_sync,
}
use jmdn_fast_sync.Tag.{RangeTag}
use jmdn_fast_sync.Wire.{Auth, Phase}

-- The loop of makeChunk over the nonces after the first, for the least and the greatest nonce so far.
unfoldable pub nonce_range : ℕ → ℕ → List ℕ → RangeTag
nonce_range low high [] = record { start = low; end = high }
nonce_range low high (n ∷ ns) =
    nonce_range (if ltb n low then n else low) (if ltb high n then n else high) ns

-- The first nonce is the least; it is the greatest unless it is 0, as the greatest is before.
unfoldable pub range_of : List ℕ → RangeTag
unfolding nonce_range
range_of [] = record { start = 0; end = 0 }
range_of (n ∷ ns) = nonce_range n (if ltb 0 n then n else 0) ns

abbrev pub upload_phase : Option Auth → Phase
upload_phase auth = record {
  present_phase = accounts_sync_request;
  successive_phase = accounts_sync_request;
  success = false;
  error = "";
  auth = auth;
}

ok-injective : {A : Type 0} {x y : A} → ok x ≡ ok y → x ≡ y
ok-injective h = cc

module _ (art : Art) (encode : List ℕ → Bytes) where
  -- `CreateProto`
  unfoldable pub create_proto : Bytes → ℕ → Result ArtChecksum
  unfolding create
  create_proto bytes version = elim (create art.crc32 art.sha256 art.marshal (some bytes) version) [
    | fails e ↦ fails e
    | ok made ↦ ok (record { checksum = made; version = version })
  ]

  -- `makeChunk`; the error of CreateProto is passed on.
  unfoldable pub make_chunk : List ℕ → ℕ → ℕ → Bool → Option Auth → Result UploadRequest
  unfolding create_proto range_of
  make_chunk nonces batch_index total_keys is_last auth = elim (create_proto (encode nonces) 1) [
    | fails e ↦ fails e
    | ok object ↦ ok (record {
      art = encode nonces;
      total_keys = total_keys;
      keys_range = some (range_of nonces);
      batch_index = batch_index;
      is_last = is_last;
      phase = some (upload_phase auth);
      checksum = some object;
    })
  ]

  -- The request that makeChunk makes.
  abbrev pub chunk_request : List ℕ → ℕ → ℕ → Bool → Option Auth → UploadRequest
  chunk_request nonces batch_index total_keys is_last auth = record {
    art = encode nonces;
    total_keys = total_keys;
    keys_range = some (range_of nonces);
    batch_index = batch_index;
    is_last = is_last;
    phase = some (upload_phase auth);
    checksum = some (record { checksum = big_endian (art.crc32 (encode nonces)); version = 1 });
  }

  make_chunk-chunk_request :
      (nonces : List ℕ) (batch_index total_keys : ℕ) (is_last : Bool) (auth : Option Auth)
      → make_chunk nonces batch_index total_keys is_last auth
        ≡ ok (chunk_request nonces batch_index total_keys is_last auth)
  unfolding make_chunk create_proto create
  make_chunk-chunk_request nonces batch_index total_keys is_last auth = refl

  chunk-valid :
      (bytes : Bytes)
      → art_checksum_valid art bytes
          (some (record { checksum = big_endian (art.crc32 bytes); version = 1 }))
        ≡ ok true
  unfolding art_checksum_valid create
  chunk-valid bytes =
      (verify_iff art.crc32 art.sha256 art.marshal (some bytes) 1 (big_endian (art.crc32 bytes))).1
        refl

  merge_chunk-more :
      (request : UploadRequest) (chunk : art.Chunk) (tree tree' : art.Tree)
      → art.decode request.art ≡ ok chunk
      → art.merge tree chunk ≡ (tree', none)
      → request.is_last ≡ false
      → merge_chunk art request tree ≡ (ok_batch_ack request.batch_index, tree')
  unfolding merge_chunk
  merge_chunk-more request chunk tree tree' decoded m more =
      rw (decoded, merge_chunk)
        (rw m (
          rw more (
            ap (λ (t : art.Tree). (ok_batch_ack request.batch_index, t))
              (ap (λ (r : art.Tree × Option String). r.0) m))))

  serve_upload-chunk :
      (nonces : List ℕ) (batch_index total_keys : ℕ) (auth : Option Auth) (chunk : art.Chunk)
      (tree tree' : art.Tree)
      → (length (encode nonces) == 0) ≡ false
      → art.decode (encode nonces) ≡ ok chunk
      → art.merge tree chunk ≡ (tree', none)
      → serve_upload art
          (chunk_request nonces batch_index total_keys false auth)
          (upload_phase auth)
          tree
        ≡ (ok_batch_ack batch_index, tree')
  unfolding serve_upload accounts_sync
  serve_upload-chunk nonces batch_index total_keys auth chunk tree tree' filled decoded m =
      rw (filled, accounts_sync)
        (rw (chunk-valid (encode nonces)) (
          merge_chunk-more (chunk_request nonces batch_index total_keys false auth) chunk tree tree'
            decoded m refl))

  -- A chunk that is not the last and that makeChunk makes with the token of an authorized client is
  -- acknowledged by the server and merged, when the encoding of its nonces is not empty, decodes, and can be
  -- merged into the session's tree.
  pub make_chunk-merged :
      (tokens : Tokens) (node : Service) (cache : tokens.Cache) (remote : tokens.Peer)
      (chain : Chain) (nonces : List ℕ) (batch_index total_keys : ℕ) (auth : Option Auth)
      (request : UploadRequest) (chunk : art.Chunk) (tree tree' : art.Tree)
      → IsAuthorized tokens node cache auth remote
      → node.chain ≡ some chain
      → make_chunk nonces batch_index total_keys false auth ≡ ok request
      → (length (encode nonces) == 0) ≡ false
      → art.decode (encode nonces) ≡ ok chunk
      → art.merge tree chunk ≡ (tree', none)
      → handle_accounts_sync art tokens node cache request remote tree
        ≡ answered ((ok_batch_ack batch_index, tree'), tokens.reset_ttl cache remote)
  unfolding handle_accounts_sync
  make_chunk-merged tokens node cache remote chain nonces batch_index total_keys auth request chunk
        tree tree' a at made filled decoded m =
      let same : chunk_request nonces batch_index total_keys false auth ≡ request =
        ok-injective
          (sym (make_chunk-chunk_request nonces batch_index total_keys false auth) ∙ made) in
      rw (sym same) (
        gate-IsAuthorized tokens node cache remote auth _ _ _ chain a at
        ∙ ap (λ (r : ServerMessage × art.Tree). answered (r, tokens.reset_ttl cache remote))
            (serve_upload-chunk nonces batch_index total_keys auth chunk tree tree' filled decoded
              m))
