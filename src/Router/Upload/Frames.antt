-- ===== src/Router/Upload/Frames.antt =====
-- One frame of an upload: what the answer of HandleAccountsSync of
-- core/protocol/router/data_router.go says of the request and of the session's tree.
use Prim.Native.String.{String}
use text.Mathlib.Text.{◌==◌ as str_eq}
use jmdn_fast_sync.Common.{
  ◌≡◌, ◌≢◌, refl, ap, sym, subst, ◌∙◌, ◌⊎◌, inl, inr, Bool, true, false, not, Option, none, some,
  length, ◌==◌, if◌then◌else◌, Bool-cases, Option-cases, arith,
}
use jmdn_fast_sync.Common.Result.{ok, answered, Result-cases, answered-pair}
use jmdn_fast_sync.AccountSync.Dispatcher.{Dispatcher, default_config, new_dispatcher, summarise}
use jmdn_fast_sync.Checksum.{create, verify_iff}
use jmdn_fast_sync.Pots.BlockMap.{Bytes}
use jmdn_fast_sync.Router.{Tokens, Service, auth_required, authentication_failed}
use jmdn_fast_sync.Router.Handlers.Gate.{IsAuthorized, gate-cases}
use jmdn_fast_sync.Router.Upload.{
  Art, ArtChecksum, UploadRequest, ServerMessage, err_end_of_stream, ok_batch_ack, diff_complete,
  accounts_sync_request, auth_of_request, all_callbacks, art_checksum_valid, dispatch_missing,
  finish_upload, merge_chunk, accounts_sync, serve_upload, handle_accounts_sync,
}
use jmdn_fast_sync.Tag.{RangeTag}
use jmdn_fast_sync.Wire.{Phase}

-- A test on a negation, with what is known in each branch.
chosen :
    {A : Type 0} (b : Bool) (P : A → Type 0) (x y : A)
    → (b ≡ false → P x)
    → (b ≡ true → P y)
    → P (if not b then x else y)
chosen true P x y p q = q refl
chosen false P x y p q = p refl

module _ (art : Art) where
  open art use {Tree, Chunk, decode, merge, close, run_diff}

  -- The bytes of the chunk are those that the client has encoded, and they decode to a chunk.
  pub record IsIntact (request : UploadRequest) (chunk : Chunk) : Type 0 where
    pub object : ArtChecksum
    pub given : request.checksum ≡ some object
    pub version_known : (object.version ≡ 1) ⊎ (object.version ≡ 2)
    pub matches :
        create art.crc32 art.sha256 art.marshal (some request.art) object.version
        ≡ ok object.checksum
    pub decoded : decode request.art ≡ ok chunk

  checksum-verified :
      (bytes : Bytes) (object : ArtChecksum)
      → art_checksum_valid art bytes (some object) ≡ ok true
      → ((object.version ≡ 1) ⊎ (object.version ≡ 2))
        × (create art.crc32 art.sha256 art.marshal (some bytes) object.version ≡ ok object.checksum)
  unfolding art_checksum_valid
  checksum-verified bytes object h = elim (Bool-cases (length object.checksum == 0)) [
    | inl empty ↦ cc (rw (empty, art_checksum_valid) at h)
    | inr filled ↦ elim (Bool-cases (object.version == 1)) [
      | inl one ↦
          let version : object.version ≡ 1 = ground arith in
          let k = rw one at (rw (filled, art_checksum_valid) at h) in
          (
            inl version,
            rw version
                ((verify_iff art.crc32 art.sha256 art.marshal (some bytes) 1 object.checksum).0 k),
          )
      | inr other ↦ elim (Bool-cases (object.version == 2)) [
        | inl two ↦
            let version : object.version ≡ 2 = ground arith in
            let k = rw two at (rw other at (rw (filled, art_checksum_valid) at h)) in
            (
              inr version,
              rw version (
                  (verify_iff art.crc32 art.sha256 art.marshal (some bytes) 2 object.checksum).0 k),
            )
        | inr unknown ↦
            let k = rw unknown at (rw other at (rw (filled, art_checksum_valid) at h)) in cc
      ]
    ]
  ]

  -- What the handler has done with the session's tree when it gives an answer to a request.
  pub data Served (request : UploadRequest) (tree : Tree) : ServerMessage → Tree → Type 0 where
    rejected : (text : String) → Served request tree (err_end_of_stream text) tree
    broken :
        (text : String) (chunk : Chunk) (tree' : Tree)
        → IsIntact request chunk
        → Served request tree (err_end_of_stream text) tree'
    merged :
        (chunk : Chunk) (tree' : Tree)
        → IsIntact request chunk
        → merge tree chunk ≡ (tree', none)
        → request.is_last ≡ false
        → Served request tree (ok_batch_ack request.batch_index) tree'
    completed :
        (chunk : Chunk) (tree' closed : Tree) (d done : Dispatcher)
        → IsIntact request chunk
        → merge tree chunk ≡ (tree', none)
        → request.is_last ≡ true
        → close tree' ≡ (closed, none)
        → new_dispatcher default_config (all_callbacks art) ≡ some d
        → run_diff closed request.total_keys (auth_of_request art request) d ≡ ok done
        → Served request tree (diff_complete (summarise done) (auth_of_request art request)) closed

  dispatch_missing-Served :
      (request : UploadRequest) (chunk : Chunk) (tree tree' closed : Tree)
      → IsIntact request chunk
      → merge tree chunk ≡ (tree', none)
      → request.is_last ≡ true
      → close tree' ≡ (closed, none)
      → Served request tree (dispatch_missing art request closed) closed
  unfolding dispatch_missing
  dispatch_missing-Served request chunk tree tree' closed intact m last c =
      elim (Option-cases (new_dispatcher default_config (all_callbacks art))) [
        | inl none_made ↦ rw (none_made, dispatch_missing) (broken _ chunk closed intact)
        | inr (d, made) ↦
            elim (Result-cases
              (run_diff closed request.total_keys (auth_of_request art request) d)) [
                | inl (e, failed) ↦
                    rw (made, dispatch_missing) (rw failed (broken _ chunk closed intact))
                | inr (done, ran) ↦
                    rw (made, dispatch_missing)
                      (rw ran (completed chunk tree' closed d done intact m last c made ran))
              ]
      ]

  finish_upload-Served :
      (request : UploadRequest) (chunk : Chunk) (tree tree' : Tree)
      → IsIntact request chunk
      → merge tree chunk ≡ (tree', none)
      → request.is_last ≡ true
      → Served request tree (finish_upload art request tree').0 (finish_upload art request tree').1
  unfolding finish_upload
  finish_upload-Served request chunk tree tree' intact m last =
      elim (Option-cases (close tree').1) [
        | inr (e, failed) ↦ rw (failed, finish_upload) (broken e chunk (close tree').0 intact)
        | inl fine ↦
            rw (fine, finish_upload)
              (dispatch_missing-Served request chunk tree tree' (close tree').0 intact m last
                (ap (λ o. ((close tree').0, o)) fine))
      ]

  merge_chunk-Served :
      (request : UploadRequest) (tree : Tree) (object : ArtChecksum)
      → request.checksum ≡ some object
      → art_checksum_valid art request.art (some object) ≡ ok true
      → Served request tree (merge_chunk art request tree).0 (merge_chunk art request tree).1
  unfolding merge_chunk
  merge_chunk-Served request tree object given valid =
      let (version, matches) = checksum-verified request.art object valid in
      elim (Result-cases (decode request.art)) [
        | inl (e, failed) ↦ rw (failed, merge_chunk) (rejected _)
        | inr (chunk, decoded) ↦
            let intact : IsIntact request chunk = record {
              object = object;
              given = given;
              version_known = version;
              matches = matches;
              decoded = decoded;
            } in
            elim (Option-cases (merge tree chunk).1) [
              | inr (e, failed) ↦
                  rw (decoded, merge_chunk) (rw failed (broken _ chunk (merge tree chunk).0 intact))
              | inl fine ↦
                  let whole : merge tree chunk ≡ ((merge tree chunk).0, none) =
                    ap (λ o. ((merge tree chunk).0, o)) fine in
                  rw (decoded, merge_chunk)
                    (rw fine (
                      chosen request.is_last
                        (λ (r : ServerMessage × Tree). Served request tree r.0 r.1) _ _
                        (λ more. merged chunk (merge tree chunk).0 intact whole more)
                        (λ last.
                          finish_upload-Served request chunk tree (merge tree chunk).0 intact whole
                            last)))
            ]
      ]

  no_checksum : (bytes : Bytes) → art_checksum_valid art bytes none ≢ ok true
  unfolding art_checksum_valid
  no_checksum bytes h = cc

  accounts_sync-Served :
      (request : UploadRequest) (tree : Tree)
      → Served request tree (accounts_sync art request tree).0 (accounts_sync art request tree).1
  unfolding accounts_sync
  accounts_sync-Served request tree = elim (Bool-cases (length request.art == 0)) [
    | inl empty ↦ rw (empty, accounts_sync) (rejected _)
    | inr filled ↦ elim (Result-cases (art_checksum_valid art request.art request.checksum)) [
      | inl (e, failed) ↦ rw (filled, accounts_sync) (rw failed (rejected _))
      | inr (valid, checked) ↦
          rw (filled, accounts_sync)
            (rw checked (
              chosen valid (λ (r : ServerMessage × Tree). Served request tree r.0 r.1) _ _
                (λ bad. rejected _)
                (λ good. elim (Option-cases request.checksum) [
                  | inl absent ↦ absurd (
                      no_checksum request.art (
                        ap (art_checksum_valid art request.art) (sym absent)
                        ∙ checked
                        ∙ ap ok good))
                  | inr (object, given) ↦
                      merge_chunk-Served request tree object given
                        (ap (art_checksum_valid art request.art) (sym given) ∙ checked ∙ ap ok good)
                ])))
    ]
  ]

  -- The request asks for an upload and gives the range of its nonces.
  pub record IsAsked (request : UploadRequest) : Type 0 where
    pub phase : Phase
    pub present : request.phase ≡ some phase
    pub state : str_eq phase.present_phase accounts_sync_request ≡ true
    pub range : RangeTag
    pub ranged : request.keys_range ≡ some range

  module _ (tokens : Tokens) (node : Service) (remote : tokens.Peer) where
    open tokens use {Cache, reset_ttl}

    -- An answer to a request, with the tree and the token cache that it leaves.
    pub data Handled (request : UploadRequest) (tree : Tree) (cache : Cache)
        : ServerMessage → Tree → Cache → Type 0 where
      refused :
          (text : String) (cache' : Cache)
          → Handled request tree cache (err_end_of_stream text) tree cache'
      served :
          (reply : ServerMessage) (tree' : Tree)
          → IsAuthorized tokens node cache (auth_of_request art request) remote
          → IsAsked request
          → Served request tree reply tree'
          → Handled request tree cache reply tree' (reset_ttl cache remote)

    serve_upload-Handled :
        (request : UploadRequest) (phase : Phase) (tree : Tree) (cache : Cache)
        → request.phase ≡ some phase
        → IsAuthorized tokens node cache (auth_of_request art request) remote
        → Handled request tree cache
            (serve_upload art request phase tree).0
            (serve_upload art request phase tree).1
            (reset_ttl cache remote)
    unfolding serve_upload
    serve_upload-Handled request phase tree cache present a =
        elim (Bool-cases (str_eq phase.present_phase accounts_sync_request)) [
          | inr other ↦ rw (other, serve_upload) (refused _ _)
          | inl asked ↦ elim (Option-cases request.keys_range) [
            | inl absent ↦ rw (asked, serve_upload) (rw absent (refused _ _))
            | inr (range, given) ↦
                rw (asked, serve_upload)
                  (simp (given) (
                    served _ _ a
                      (record {
                        phase = phase;
                        present = present;
                        state = asked;
                        range = range;
                        ranged = given;
                      })
                      (accounts_sync-Served request tree)))
          ]
        ]

    moved :
        (request : UploadRequest) (tree : Tree) (cache : Cache) (x y : ServerMessage × Tree)
        (c d : Cache)
        → x ≡ y
        → c ≡ d
        → Handled request tree cache x.0 x.1 c
        → Handled request tree cache y.0 y.1 d
    moved request tree cache x y c d same kept h =
        subst (λ e. Handled request tree cache y.0 y.1 e) kept
          (subst (λ (z : ServerMessage × Tree). Handled request tree cache z.0 z.1 c) same h)

    pub handle_accounts_sync-Handled :
        (request : UploadRequest) (tree : Tree) (cache : Cache) (reply : ServerMessage)
        (tree' : Tree) (cache' : Cache)
        → handle_accounts_sync art tokens node cache request remote tree
          ≡ answered ((reply, tree'), cache')
        → Handled request tree cache reply tree' cache'
    unfolding handle_accounts_sync
    handle_accounts_sync-Handled request tree cache reply tree' cache' h =
        elim (Option-cases request.phase) [
          | inl absent ↦
              let k = rw (absent, handle_accounts_sync) at h in
              let (same, kept) = answered-pair k in
              moved _ _ _ _ _ _ _ same kept (refused auth_required cache)
          | inr (phase, present) ↦
              let k = rw (present, handle_accounts_sync) at h in
              elim (gate-cases tokens node cache remote phase.auth _ _ _ (reply, tree') cache' k) [
                | inl same ↦ moved _ _ _ _ _ _ _ (sym same) refl (refused auth_required cache')
                | inr (inl same) ↦
                    moved _ _ _ _ _ _ _ (sym same) refl (refused authentication_failed cache')
                | inr (inr (a, kept, body)) ↦
                    let same : serve_upload art request phase tree ≡ (reply, tree') = cc in
                    moved _ _ _ _ _ _ _ same (sym kept) (
                      serve_upload-Handled request phase tree cache present (
                        subst (λ auth. IsAuthorized tokens node cache auth remote)
                          (sym (
                            ap (λ (o : Option Phase). elim o [ none ↦ none | some p ↦ p.auth ])
                              present))
                          a))
              ]
        ]
