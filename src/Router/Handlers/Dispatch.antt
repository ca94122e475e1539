-- ===== src/Router/Handlers/Dispatch.antt =====
-- The handlers that ask for a token, but HandleAccountsSync, as one step of the node: a stream's protocol
-- chooses the handler.
use Prim.Native.String.{String}
use jmdn_fast_sync.Common.{ℕ, ◌≡◌, ◌∙◌, ap, Bool, true, Option, some, List}
use jmdn_fast_sync.Common.Result.{Answer, answered, panicked, endless, ◌>>=◌}
use jmdn_fast_sync.Pots.BlockMap.{Bytes}
use jmdn_fast_sync.Pots.Response.{PotsRequest, PotsResponse, PotsError}
use jmdn_fast_sync.Router.{TagRequest, HeaderSyncResponse, DataSyncResponse, Tokens, Service}
use jmdn_fast_sync.Router.Handlers.{
  handle_header_sync, handle_data_sync, handle_merkle, handle_prior_sync, handle_pot_sync,
}
use jmdn_fast_sync.Router.Replies.{MerkleRequestMessage}
use jmdn_fast_sync.Router.Handlers.Gate.{
  IsAuthorized, prior_succeeded, header_sync-Earned, data_sync-Earned, pot_sync-Earned,
  merkle-Earned, prior_sync-Earned, accounts_fetch-Earned,
}
use jmdn_fast_sync.Router.Accounts.{Lookup, AccountSyncResponse, handle_accounts_fetch}
use jmdn_fast_sync.Router.Serve.{MerkleMessage}
use jmdn_fast_sync.Router.Sync.{World, Message}
use jmdn_fast_sync.Wire.{Phase}

module _ (world : World) where
  pub data Request : Type 0 where
    headers blocks : TagRequest → Request
    merkle : MerkleRequestMessage → Request
    prior : Message world → Request
    pots : Option Phase → PotsRequest → Request
    account_fetch : Option Phase → List String → Request

  pub data Response : Type 0 where
    headers_found : HeaderSyncResponse → Response
    blocks_found : DataSyncResponse → Response
    tree_built : MerkleMessage world.trees.Snapshot → Response
    compared : Message world → Response
    maps_compared : PotsResponse → Response
    accounts_found : AccountSyncResponse → Response

  abbrev pub phase_of : Request → Option Phase
  phase_of (headers r) = r.phase
  phase_of (blocks r) = r.phase
  phase_of (merkle r) = r.phase
  phase_of (prior r) = r.phase
  phase_of (pots phase r) = phase
  phase_of (account_fetch phase addresses) = phase

  -- The `Success` of the response's phase.
  abbrev pub succeeded : Response → Bool
  succeeded (headers_found r) = r.phase.success
  succeeded (blocks_found r) = r.phase.success
  succeeded (tree_built r) = r.phase.success
  succeeded (compared r) = prior_succeeded r
  succeeded (maps_compared r) = r.phase.success
  succeeded (accounts_found r) = r.phase.success

-- The functions that the handlers call besides those of `World`.
pub record Helpers (world : World) : Type 0 where
  pub encode : Bytes → String
  pub message : PotsError → String
  pub cause : PotsError → String
  pub to_snapshot : world.trees.Builder → Option world.trees.Snapshot
  pub merge_of : ℕ → ℕ
  pub lookup : Lookup

module _ (tokens : Tokens) (world : World) (helpers : Helpers world) where
  open tokens use {Cache, Peer}

  abbrev pub wrapped :
      {Reply : Type 0}
      → (Reply → Response world)
      → Answer (Reply × Cache)
      → Answer (Response world × Cache)
  wrapped wrap m = m >>= λ a. answered (wrap a.0, a.1)

  unfoldable pub handle :
      Service → Cache → String → Request world → Peer → Answer (Response world × Cache)
  handle node cache uuid (headers r) remote =
      wrapped headers_found (handle_header_sync tokens node cache r remote)
  handle node cache uuid (blocks r) remote =
      wrapped blocks_found (handle_data_sync tokens helpers.encode node cache r remote)
  handle node cache uuid (merkle r) remote =
      wrapped tree_built
        (handle_merkle tokens world helpers.to_snapshot helpers.merge_of node cache r remote)
  handle node cache uuid (prior r) remote =
      wrapped (λ reply. compared reply.0) (handle_prior_sync tokens world node cache uuid r remote)
  handle node cache uuid (pots phase r) remote =
      wrapped maps_compared
        (handle_pot_sync tokens helpers.message helpers.cause phase node cache r remote)
  handle node cache uuid (account_fetch phase addresses) remote =
      wrapped accounts_found
        (handle_accounts_fetch helpers.lookup tokens node cache phase addresses remote)

  -- The handler's own answer behind an answer of the step.
  dispatched :
      {Reply : Type 0} (m : Answer (Reply × Cache)) (wrap : Reply → Response world)
      {response : Response world} {cache' : Cache}
      → wrapped wrap m ≡ answered (response, cache')
      → (reply : Reply) × (m ≡ answered (reply, cache')) × (wrap reply ≡ response)
  dispatched (answered (reply, c)) wrap h = (reply, cc, cc)
  dispatched panicked wrap h = cc
  dispatched endless wrap h = cc

  -- When a handler's response reports success, the request had a phase with a token that is not empty,
  -- the node takes part in synchronisation, the cache knows the token for the peer that sent it, and the
  -- new cache is the one in which that peer's time to live is reset.
  pub handle-Earned :
      (node : Service) (cache cache' : Cache) (uuid : String) (request : Request world)
      (remote : Peer) (response : Response world)
      → handle node cache uuid request remote ≡ answered (response, cache')
      → succeeded world response ≡ true
      → (p : Phase) × (phase_of world request ≡ some p)
        × IsAuthorized tokens node cache p.auth remote
        × (cache' ≡ tokens.reset_ttl cache remote)
  unfolding handle
  handle-Earned node cache cache' uuid (headers r) remote response h s =
      let (reply, e, k) =
        dispatched (handle_header_sync tokens node cache r remote) headers_found h in
      header_sync-Earned tokens node cache remote r reply cache' e (ap (succeeded world) k ∙ s)
  handle-Earned node cache cache' uuid (blocks r) remote response h s =
      let (reply, e, k) =
        dispatched (handle_data_sync tokens helpers.encode node cache r remote) blocks_found h in
      data_sync-Earned tokens node cache remote helpers.encode r reply cache' e
        (ap (succeeded world) k ∙ s)
  handle-Earned node cache cache' uuid (merkle r) remote response h s =
      let (reply, e, k) =
        dispatched
          (handle_merkle tokens world helpers.to_snapshot helpers.merge_of node cache r remote)
          tree_built h in
      merkle-Earned tokens node cache remote world helpers.to_snapshot helpers.merge_of r reply
        cache' e (ap (succeeded world) k ∙ s)
  handle-Earned node cache cache' uuid (pots phase r) remote response h s =
      let (reply, e, k) =
        dispatched (handle_pot_sync tokens helpers.message helpers.cause phase node cache r remote)
          maps_compared h in
      pot_sync-Earned tokens node cache remote helpers.message helpers.cause phase r reply cache' e
        (ap (succeeded world) k ∙ s)
  handle-Earned node cache cache' uuid (account_fetch phase addresses) remote response h s =
      let (reply, e, k) =
        dispatched (handle_accounts_fetch helpers.lookup tokens node cache phase addresses remote)
          accounts_found h in
      accounts_fetch-Earned tokens node cache remote helpers.lookup phase addresses reply cache' e
        (ap (succeeded world) k ∙ s)
  handle-Earned node cache cache' uuid (prior r) remote response h s =
      let (reply, e, k) =
        dispatched (handle_prior_sync tokens world node cache uuid r remote) (λ a. compared a.0)
          h in
      prior_sync-Earned tokens node cache remote world uuid reply.1 r reply.0 cache' e
        (ap (succeeded world) k ∙ s)
