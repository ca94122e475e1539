-- ===== src/Router/Handlers/Gate.antt =====
-- The check of the token, for every handler: what an answer says about the request that caused it.
use Prim.Native.String.{String}
use text.Mathlib.Text.{◌==◌ as str_eq}
use jmdn_fast_sync.Common.{
  ℕ, ◌≡◌, refl, ap, sym, ◌∙◌, ◌⊎◌, inl, inr, Bool, true, false, Option, none, some, List,
  Bool-cases, Option-cases, arith,
}
use jmdn_fast_sync.Common.Result.{ok, Answer, answered, ◌>>=◌}
use jmdn_fast_sync.Router.Accounts.{Lookup, AccountSyncResponse, handle_accounts_fetch}
use jmdn_fast_sync.Pots.BlockMap.{Bytes}
use jmdn_fast_sync.Pots.Response.{PotsRequest, PotsResponse, PotsError}
use jmdn_fast_sync.Router.{
  Chain, TagRequest, PriorSyncMessage, HeaderSyncResponse, DataSyncResponse, Tokens, Service,
  authenticate, gate,
}
use jmdn_fast_sync.Router.Handlers.{
  handle_header_sync, handle_data_sync, handle_merkle, handle_prior_sync, handle_pot_sync,
}
use jmdn_fast_sync.Router.Replies.{MerkleRequestMessage}
use jmdn_fast_sync.Router.Serve.{MerkleMessage}
use jmdn_fast_sync.Router.Sync.{World, Message}
use jmdn_fast_sync.Wire.{Auth, Phase}

-- The peer holds a token that the cache knows, and the node takes part in synchronisation.
pub record IsAuthorized (tokens : Tokens) (node : Service) (cache : tokens.Cache)
    (auth : Option Auth) (remote : tokens.Peer) : Type 0 where
  pub token : Auth
  pub present : auth ≡ some token
  pub filled : str_eq token.uuid "" ≡ false
  pub available : node.available ≡ true
  pub known : tokens.is_auth cache remote token.uuid ≡ ok true

-- A PriorSync reply reports success when it has a phase that does.
abbrev pub prior_succeeded : {Snapshot : Type 0} → PriorSyncMessage Snapshot → Bool
prior_succeeded message = elim message.phase [ none ↦ false | some p ↦ p.success ]

module _ (tokens : Tokens) (node : Service) (cache : tokens.Cache) (remote : tokens.Peer) where
  open tokens use {Cache, is_auth, reset_ttl}

  pub gate-cases :
      {Reply : Type 0} (auth : Option Auth) (missing rejected : Reply) (body : Answer Reply)
      (reply : Reply) (cache' : Cache)
      → gate tokens node cache auth remote missing rejected body ≡ answered (reply, cache')
      → (reply ≡ missing)
        ⊎ ((reply ≡ rejected)
            ⊎ (IsAuthorized tokens node cache auth remote
                × (cache' ≡ reset_ttl cache remote)
                × (body ≡ answered reply)))
  unfolding gate
  gate-cases none missing rejected body reply cache' h = inl cc
  gate-cases (some auth) missing rejected body reply cache' h =
      elim (Bool-cases (str_eq auth.uuid "")) [
        | inl empty ↦ ground arith
        | inr filled ↦ ground arith
      ]

  -- The gate is open to an authorized peer.
  pub gate-IsAuthorized :
      {Reply : Type 0} (auth : Option Auth) (missing rejected : Reply) (body : Answer Reply)
      (chain : Chain)
      → IsAuthorized tokens node cache auth remote
      → node.chain ≡ some chain
      → gate tokens node cache auth remote missing rejected body
        ≡ (body >>= λ reply. answered (reply, reset_ttl cache remote))
  unfolding gate authenticate
  gate-IsAuthorized auth missing rejected body chain a present =
      rw (a.present, gate) (rw (a.filled) (rw a.available (rw present (rw a.known refl))))

  answered-fst :
      {Reply : Type 0} {x reply : Reply} {c cache' : Cache}
      → ◌≡◌ {A = Answer (Reply × Cache)} (answered (x, c)) (answered (reply, cache'))
      → reply ≡ x
  answered-fst h = cc

  -- What an answer to a request with the given phase says of that request.
  abbrev pub Earned : Option Phase → Bool → Cache → Type 0
  Earned phase success cache' =
      success ≡ true
      → (p : Phase) × (phase ≡ some p)
        × IsAuthorized tokens node cache p.auth remote
        × (cache' ≡ reset_ttl cache remote)

  -- A reply of the gate that reports success is the body's.
  gate-Earned :
      {Reply : Type 0} (success : Reply → Bool) (p : Phase) (missing rejected : Reply)
      (body : Answer Reply) (reply : Reply) (cache' : Cache)
      → success missing ≡ false
      → success rejected ≡ false
      → gate tokens node cache p.auth remote missing rejected body ≡ answered (reply, cache')
      → Earned (some p) (success reply) cache'
  gate-Earned success p missing rejected body reply cache' m r h s =
      elim (gate-cases p.auth missing rejected body reply cache' h) [
        | inl e ↦ ground (arith, ap success e, m, s)
        | inr (inl e) ↦ ground (arith, ap success e, r, s)
        | inr (inr (a, c, b)) ↦ (p, refl, a, c)
      ]

  -- A reply that is known not to report success.
  refused-Earned :
      {Reply : Type 0} (success : Reply → Bool) (phase : Option Phase) (refusal reply : Reply)
      (cache' : Cache)
      → success refusal ≡ false
      → ◌≡◌ {A = Answer (Reply × Cache)} (answered (refusal, cache)) (answered (reply, cache'))
      → Earned phase (success reply) cache'
  refused-Earned success phase refusal reply cache' r h s =
      let e : true ≡ false = sym s ∙ ap success (answered-fst h) ∙ r in cc

  pub header_sync-Earned :
      (request : TagRequest) (reply : HeaderSyncResponse) (cache' : Cache)
      → handle_header_sync tokens node cache request remote ≡ answered (reply, cache')
      → Earned request.phase reply.phase.success cache'
  unfolding handle_header_sync
  header_sync-Earned request reply cache' = elim (Option-cases request.phase) [
    | inl absent ↦ rw (absent, handle_header_sync) (λ h s. cc)
    | inr (p, at) ↦
        rw (at, handle_header_sync)
          (gate-Earned (λ r. r.phase.success) p _ _ _ reply cache' refl refl)
  ]

  pub data_sync-Earned :
      (encode : Bytes → String) (request : TagRequest) (reply : DataSyncResponse) (cache' : Cache)
      → handle_data_sync tokens encode node cache request remote ≡ answered (reply, cache')
      → Earned request.phase reply.phase.success cache'
  unfolding handle_data_sync
  data_sync-Earned encode request reply cache' = elim (Option-cases request.phase) [
    | inl absent ↦ rw (absent, handle_data_sync) (λ h s. cc)
    | inr (p, at) ↦
        rw (at, handle_data_sync)
          (gate-Earned (λ r. r.phase.success) p _ _ _ reply cache' refl refl)
  ]

  pub pot_sync-Earned :
      (message cause : PotsError → String) (phase : Option Phase) (request : PotsRequest)
      (reply : PotsResponse) (cache' : Cache)
      → handle_pot_sync tokens message cause phase node cache request remote
        ≡ answered (reply, cache')
      → Earned phase reply.phase.success cache'
  unfolding handle_pot_sync
  pot_sync-Earned message cause none request reply cache' =
      refused-Earned (λ r. r.phase.success) _ _ reply cache' refl
  pot_sync-Earned message cause (some p) request reply cache' =
      gate-Earned (λ r. r.phase.success) p _ _ _ reply cache' refl refl

  pub merkle-Earned :
      (world : World) (to_snapshot : world.trees.Builder → Option world.trees.Snapshot)
      (merge_of : ℕ → ℕ) (request : MerkleRequestMessage)
      (reply : MerkleMessage world.trees.Snapshot) (cache' : Cache)
      → handle_merkle tokens world to_snapshot merge_of node cache request remote
        ≡ answered (reply, cache')
      → Earned request.phase reply.phase.success cache'
  unfolding handle_merkle
  merkle-Earned world to_snapshot merge_of request reply cache' =
      elim (Option-cases request.phase) [
        | inl absent ↦ elim (Option-cases request.request) [
          | inl a ↦ rw (a, handle_merkle) (rw absent (λ h s. cc))
          | inr (r, a) ↦ rw (a, handle_merkle) (rw absent (λ h s. cc))
        ]
        | inr (p, at) ↦ elim (Option-cases request.request) [
          | inl a ↦
              rw (a, handle_merkle)
                (rw at (refused-Earned (λ r. r.phase.success) _ _ reply cache' refl))
          | inr (r, a) ↦
              rw (a, handle_merkle)
                (rw at (gate-Earned (λ r. r.phase.success) p _ _ _ reply cache' refl refl))
        ]
      ]

  pub prior_sync-Earned :
      (world : World) (uuid uuid' : String) (message reply : Message world) (cache' : Cache)
      → handle_prior_sync tokens world node cache uuid message remote
        ≡ answered ((reply, uuid'), cache')
      → Earned message.phase (prior_succeeded reply) cache'
  unfolding handle_prior_sync
  prior_sync-Earned world uuid uuid' message reply cache' =
      let success : Message world × String → Bool = λ r. prior_succeeded r.0 in
      elim (Option-cases message.priorsync) [
        | inl a ↦ rw (a, handle_prior_sync) (λ h s. cc)
        | inr (request, a) ↦ elim (Option-cases request.metadata) [
          | inl b ↦ elim (Option-cases message.phase) [
            | inl at ↦ rw (a, handle_prior_sync) (rw b (rw at (λ h s. cc)))
            | inr (p, at) ↦
                rw (a, handle_prior_sync)
                  (rw b (rw at (refused-Earned success _ _ (reply, uuid') cache' refl)))
          ]
          | inr (m, b) ↦ elim (Option-cases message.phase) [
            | inl at ↦ rw (a, handle_prior_sync) (rw b (rw at (λ h s. cc)))
            | inr (p, at) ↦
                rw (a, handle_prior_sync)
                  (rw b (rw at (gate-Earned success p _ _ _ (reply, uuid') cache' refl refl)))
          ]
        ]
      ]

  pub accounts_fetch-Earned :
      (lookup : Lookup) (phase : Option Phase) (addresses : List String)
      (reply : AccountSyncResponse) (cache' : Cache)
      → handle_accounts_fetch lookup tokens node cache phase addresses remote
        ≡ answered (reply, cache')
      → Earned phase reply.phase.success cache'
  unfolding handle_accounts_fetch
  accounts_fetch-Earned lookup none addresses reply cache' =
      refused-Earned (λ r. r.phase.success) _ _ reply cache' refl
  accounts_fetch-Earned lookup (some p) addresses reply cache' =
      gate-Earned (λ r. r.phase.success) p _ _ _ reply cache' refl refl
