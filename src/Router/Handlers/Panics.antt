-- ===== src/Router/Handlers/Panics.antt =====
-- Requests whose phase is missing: HandleHeaderSync, HandleDataSync and HandleMerkle read the token of the
-- phase before they test the phase.
use Prim.Native.String.{String}
use text.Mathlib.Text.{◌==◌ as str_eq}
use jmdn_fast_sync.Common.{
  ◌≡◌, ◌↔◌, ◌⊎◌, ◌∙◌, ap, refl, Bool, true, false, Option, none, some, Bool-cases, Option-cases,
  inl, inr, if◌then◌else◌,
}
use jmdn_fast_sync.Common.Result.{Result, ok, fails, Answer, answered, panicked, endless, ◌>>=◌}
use jmdn_fast_sync.Router.{
  TagRequest, Chain, Tokens, Service, rejects, authenticate, gate, with_auth,
}
use jmdn_fast_sync.Router.Handlers.{handle_header_sync, handle_data_sync, handle_merkle}
use jmdn_fast_sync.Checksum.{MerkleRange}
use jmdn_fast_sync.Router.Handlers.Gate.{IsAuthorized, gate-IsAuthorized}
use jmdn_fast_sync.Router.Replies.{MerkleRequest, MerkleRequestMessage}
use jmdn_fast_sync.Router.Handlers.Dispatch.{
  Response, Helpers, headers, blocks, merkle, handle, wrapped, headers_found, blocks_found,
  tree_built,
}
use jmdn_fast_sync.Router.Serve.{serve_merkle, MerkleMessage, SnapshotConfig}
use jmdn_fast_sync.Router.Sync.{World}
use jmdn_fast_sync.Wire.{Phase, Auth}

module _ (tokens : Tokens) (node : Service) (cache : tokens.Cache) (remote : tokens.Peer)
    (chain : Chain) (present : node.chain ≡ some chain) where
  open tokens use {Cache, is_auth, reset_ttl}

  gate-Replies :
      {Reply : Type 0} (auth : Option Auth) (missing rejected reply : Reply)
      → (a : Reply × Cache) × (gate tokens node cache auth remote missing rejected (answered reply)
          ≡ answered a)
  unfolding gate authenticate
  gate-Replies {Reply = Reply} none missing rejected reply = (_, refl)
  gate-Replies {Reply = Reply} (some auth) missing rejected reply =
      elim (Bool-cases (str_eq auth.uuid "")) [
        | inl empty ↦ rw (empty, gate) (_, refl)
        | inr filled ↦ elim (Bool-cases node.available) [
          | inr away ↦ rw (filled, gate) (rw away (_, refl))
          | inl here ↦
              rw (filled, gate) (rw here (rw present (verdict (is_auth cache remote auth.uuid))))
        ]
      ]
    where
      verdict :
          (v : Result Bool)
          → (a : Reply × Cache) × (◌≡◌ {A = Answer (Reply × Cache)}
              (if rejects tokens v
                then answered (rejected, cache)
                else answered (reply, reset_ttl cache remote))
              (answered a))
      verdict (fails e) = (_, refl)
      verdict (ok true) = (_, refl)
      verdict (ok false) = (_, refl)

  -- The gate panics only where the body does, for an authorized peer.
  gate-panicked :
      {Reply : Type 0} (auth : Option Auth) (missing rejected : Reply) (body : Answer Reply)
      → gate tokens node cache auth remote missing rejected body ≡ panicked
      → IsAuthorized tokens node cache auth remote × (body ≡ panicked)
  unfolding gate authenticate
  gate-panicked {Reply = Reply} none missing rejected body h = cc
  gate-panicked {Reply = Reply} (some auth) missing rejected body h =
      elim (Bool-cases (str_eq auth.uuid "")) [
        | inl empty ↦ cc (rw (empty, gate) at h)
        | inr filled ↦ elim (Bool-cases node.available) [
          | inr away ↦ cc (rw away at (rw (filled, gate) at h))
          | inl here ↦
              let (known, broken) =
                verdict (is_auth cache remote auth.uuid) body
                  (rw present at (rw here at (rw (filled, gate) at h))) in
              (
                record {
                  token = auth;
                  present = refl;
                  filled = filled;
                  available = here;
                  known = known;
                },
                broken,
              )
        ]
      ]
    where
      verdict :
          (v : Result Bool) (b : Answer Reply)
          → ◌≡◌ {A = Answer (Reply × Cache)}
              (if rejects tokens v
                then answered (rejected, cache)
                else (b >>= λ reply. answered (reply, reset_ttl cache remote)))
              panicked
          → (v ≡ ok true) × (b ≡ panicked)
      verdict (fails e) b k = cc
      verdict (ok false) b k = cc
      verdict (ok true) (answered reply) k = cc
      verdict (ok true) panicked k = (refl, refl)
      verdict (ok true) endless k = cc

  wrapped_iff :
      (world : World) (helpers : Helpers world) {Reply : Type 0} (wrap : Reply → Response world)
      (m : Answer (Reply × Cache)) (p : Phase)
      → ((a : Reply × Cache) × (m ≡ answered a))
      → (wrapped tokens world helpers wrap m ≡ panicked) ↔ (◌≡◌ {A = Option Phase} (some p) none)
  wrapped_iff world helpers wrap m p (a, e) = rw e (λ h. cc, λ h. cc)

  wrapped-panicked :
      (world : World) (helpers : Helpers world) {Reply : Type 0} (wrap : Reply → Response world)
      (m : Answer (Reply × Cache))
      → (wrapped tokens world helpers wrap m ≡ panicked) ↔ (m ≡ panicked)
  wrapped-panicked world helpers wrap (answered a) = (λ h. cc, λ h. cc)
  wrapped-panicked world helpers wrap panicked = (λ h. refl, λ h. refl)
  wrapped-panicked world helpers wrap endless = (λ h. cc, λ h. cc)

  -- An authorized request for the tree of a range whose generation panics.
  pub record IsOverlong (world : World) (m : MerkleRequestMessage) : Type 0 where
    pub phase : Phase
    pub has_phase : m.phase ≡ some phase
    pub request : MerkleRequest
    pub requested : m.request ≡ some request
    pub authorized : IsAuthorized tokens node cache phase.auth remote
    pub overlong : world.generation_panics request.range.start request.range.end ≡ true

  -- The body of HandleMerkle behind the gate.
  abbrev body_of :
      (world : World)
      → Helpers world
      → Option Chain
      → MerkleRange
      → Option SnapshotConfig
      → Option Auth
      → Answer (MerkleMessage world.trees.Snapshot)
  body_of world helpers chain' range config auth =
      serve_merkle world.trees helpers.to_snapshot world.text world.generation_panics
        helpers.merge_of chain' range config
      >>= λ reply. answered (record reply { phase = with_auth auth reply.phase })

  serve-panics :
      (world : World) (helpers : Helpers world) (range : MerkleRange)
      (config : Option SnapshotConfig) (auth : Option Auth)
      → (body_of world helpers (some chain) range config auth ≡ panicked)
        ↔ (world.generation_panics range.start range.end ≡ true)
  unfolding serve_merkle
  serve-panics world helpers range config auth =
      elim (Bool-cases (world.generation_panics range.start range.end)) [
        | inl overlong ↦ rw overlong (λ h. refl, λ h. refl)
        | inr short ↦ rw short (λ h. cc, λ h. cc)
      ]

  merkle-panics :
      (world : World) (helpers : Helpers world) (m : MerkleRequestMessage)
      → handle_merkle tokens world helpers.to_snapshot helpers.merge_of node cache m remote
        ≡ panicked
      → (m.phase ≡ none) ⊎ IsOverlong world m
  unfolding handle_merkle
  merkle-panics world helpers m h = elim (Option-cases m.phase) [
    | inl absent ↦ inl absent
    | inr (p, at) ↦ elim (Option-cases m.request) [
      | inl a ↦ cc (rw at at (rw (a, handle_merkle) at h))
      | inr (q, a) ↦
          let (authorized, broken) =
            gate-panicked p.auth _ _ _ (rw at at (rw (a, handle_merkle) at h)) in
          inr (record {
            phase = p;
            has_phase = at;
            request = q;
            requested = a;
            authorized = authorized;
            overlong =
                (serve-panics world helpers q.range q.config p.auth).0 (rw present at broken);
          })
    ]
  ]

  panics-merkle :
      (world : World) (helpers : Helpers world) (m : MerkleRequestMessage)
      → ((m.phase ≡ none) ⊎ IsOverlong world m)
      → handle_merkle tokens world helpers.to_snapshot helpers.merge_of node cache m remote
        ≡ panicked
  unfolding handle_merkle
  panics-merkle world helpers m (inl absent) = elim (Option-cases m.request) [
    | inl a ↦ rw (a, handle_merkle) (rw absent refl)
    | inr (q, a) ↦ rw (a, handle_merkle) (rw absent (rw absent refl))
  ]
  panics-merkle world helpers m (inr o) =
      let broken : body_of world helpers node.chain o.request.range o.request.config o.phase.auth
          ≡ panicked =
        rw present (
          (serve-panics world helpers o.request.range o.request.config o.phase.auth).1
            o.overlong) in
      rw (o.requested, handle_merkle)
        (rw o.has_phase (
          gate-IsAuthorized tokens node cache remote o.phase.auth _ _ _ chain o.authorized present
          ∙ ap
              (λ (body : Answer (MerkleMessage world.trees.Snapshot)).
                body >>= λ reply. answered (reply, reset_ttl cache remote))
              broken))

  -- When the node has a chain, HandleHeaderSync and HandleDataSync panic exactly on the requests without
  -- a phase, whatever token the peer holds; and HandleMerkle panics exactly on the requests without a
  -- phase and on those of an authorized peer for a range on which the generation of the tree panics.
  pub handle-panicked :
      (world : World) (helpers : Helpers world) (uuid : String) (r : TagRequest)
      (m : MerkleRequestMessage)
      → ((handle tokens world helpers node cache uuid (headers r) remote ≡ panicked)
          ↔ (r.phase ≡ none))
        × ((handle tokens world helpers node cache uuid (blocks r) remote ≡ panicked)
            ↔ (r.phase ≡ none))
        × ((handle tokens world helpers node cache uuid (merkle m) remote ≡ panicked)
            ↔ ((m.phase ≡ none) ⊎ IsOverlong world m))
  unfolding handle handle_header_sync handle_data_sync handle_merkle serve_merkle
  handle-panicked world helpers uuid r m = (on_headers, on_blocks, on_merkle)
    where
      on_headers :
          (handle tokens world helpers node cache uuid (headers r) remote ≡ panicked)
          ↔ (r.phase ≡ none)
      on_headers = elim (Option-cases r.phase) [
        | inl absent ↦ rw (absent, handle_header_sync) (λ h. refl, λ h. refl)
        | inr (p, at) ↦
            rw (at, handle_header_sync)
              (wrapped_iff world helpers headers_found _ p (gate-Replies p.auth _ _ _))
      ]

      on_blocks :
          (handle tokens world helpers node cache uuid (blocks r) remote ≡ panicked)
          ↔ (r.phase ≡ none)
      on_blocks = elim (Option-cases r.phase) [
        | inl absent ↦ rw (absent, handle_data_sync) (λ h. refl, λ h. refl)
        | inr (p, at) ↦
            rw (at, handle_data_sync)
              (wrapped_iff world helpers blocks_found _ p (gate-Replies p.auth _ _ _))
      ]

      on_merkle :
          (handle tokens world helpers node cache uuid (merkle m) remote ≡ panicked)
          ↔ ((m.phase ≡ none) ⊎ IsOverlong world m)
      on_merkle =
          let w =
            wrapped-panicked world helpers tree_built (
              handle_merkle tokens world helpers.to_snapshot helpers.merge_of node cache m
                remote) in
          (λ h. merkle-panics world helpers m (w.0 h), λ o. w.1 (panics-merkle world helpers m o))
