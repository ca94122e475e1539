-- ===== src/Router/Availability.antt =====
-- HandleAvailability of core/protocol/router/data_router.go, which gives a peer its token, with the rate
-- limiter of each peer. The limiter (golang.org/x/time/rate), the new UUID and the ceiling of 0.5 % of a
-- range are parameters.
use Prim.Native.String.{String}
use text.Mathlib.Text.{◌==◌ as str_eq}
use jmdn_fast_sync.Common.{
  ℕ, ◌%◌, ◌^◌, ◌≡◌, refl, ap, sym, ◌∙◌, Bool, true, false, Option, none, some, List, [], ◌∷◌,
  length, add64, sub64, ◌==◌, if◌then◌else◌, Bool-cases, Option-cases, inl, inr,
}
use jmdn_fast_sync.Common.Result.{
  Result, ok, fails, Answer, answered, panicked, Result-cases, answered-pair,
}
use jmdn_fast_sync.Checksum.{MerkleRange}
use jmdn_fast_sync.Pots.BlockMap.{Bytes}
use jmdn_fast_sync.Router.{Tokens, Service, Chain, failed_phase}
use jmdn_fast_sync.Router.Handlers.Gate.{IsAuthorized}
use jmdn_fast_sync.Router.Replies.{sync_request_state}
use jmdn_fast_sync.Wire.{Auth, Phase, failure, success_phase}

abbrev pub availability_response : String
availability_response = "state:availability:availabilityresponse"

-- `AvailabilityResponse`, with the addresses of its `NodeInfo`.
pub record AvailabilityResponse : Type 0 where
  pub is_available : Bool
  pub addresses : List Bytes
  pub block_merge : ℕ
  pub auth : Auth
  pub phase : Phase
  pub block_height : ℕ

-- What is called to give out a token; `same_peer` compares the keys of the map of limiters.
pub record Issuing (tokens : Tokens) : Type 1 where
  pub Limiter : Type 0
  pub new_limiter : Limiter
  pub allow : Limiter → Bool × Limiter
  pub same_peer : tokens.Peer → tokens.Peer → Bool
  pub add_record : tokens.Cache → tokens.Peer → String → Result tokens.Cache
  pub merge_of : ℕ → ℕ

-- The template with an error.
abbrev pub unavailable : List Bytes → String → AvailabilityResponse
unavailable addresses text = record {
  is_available = false;
  addresses = addresses;
  block_merge = 0;
  auth = record { uuid = "" };
  phase = failed_phase availability_response failure text none;
  block_height = 0;
}

module _ (tokens : Tokens) (issuing : Issuing tokens) where
  open tokens use {Cache, Peer, is_auth}
  open issuing use {Limiter, new_limiter, allow, same_peer, add_record, merge_of}

  -- `getAvailabilityLimiter(peer).Allow()`, on the map of limiters.
  unfoldable pub allow_peer : List (Peer × Limiter) → Peer → Bool × List (Peer × Limiter)
  allow_peer [] remote =
      let (allowed, limiter) = allow new_limiter in (allowed, (remote, limiter) ∷ [])
  allow_peer ((peer, limiter) ∷ limiters) remote =
      let (allowed, limiter') = allow limiter in
      let (allowed', limiters') = allow_peer limiters remote in
      if same_peer peer remote
      then (allowed, (peer, limiter') ∷ limiters)
      else (allowed', (peer, limiter) ∷ limiters')

  -- The limiter that the map holds for a peer, or a new one.
  abbrev pub limiter_of : List (Peer × Limiter) → Peer → Limiter
  limiter_of [] remote = new_limiter
  limiter_of ((peer, limiter) ∷ limiters) remote =
      if same_peer peer remote then limiter else limiter_of limiters remote

  allow_peer_lem :
      ((p : Peer) → same_peer p p ≡ true)
      → (limiters : List (Peer × Limiter)) (remote : Peer)
      → ((allow_peer limiters remote).0 ≡ (allow (limiter_of limiters remote)).0)
        × (limiter_of (allow_peer limiters remote).1 remote
            ≡ (allow (limiter_of limiters remote)).1)
  unfolding allow_peer
  allow_peer_lem reflexive [] remote = (refl, rw (reflexive remote) refl)
  allow_peer_lem reflexive ((peer, limiter) ∷ limiters) remote =
      elim (Bool-cases (same_peer peer remote)) [
        | inl same ↦ rw same (refl, rw same refl)
        | inr other ↦
            let (allowed, kept) = allow_peer_lem reflexive limiters remote in
            rw other (allowed, rw other kept)
      ]

  -- The registration of the new UUID, with the response.
  unfoldable pub issue :
      Option Chain
      → List Bytes
      → Cache
      → String
      → MerkleRange
      → Peer
      → Answer (AvailabilityResponse × Cache)
  issue none addresses cache uuid range remote = panicked
  issue (some chain) addresses cache uuid range remote = elim (add_record cache remote uuid) [
    | fails e ↦ answered (unavailable addresses e, cache)
    | ok cache' ↦ answered (
      record {
        is_available = true;
        addresses = addresses;
        block_merge = merge_of (add64 (sub64 range.end range.start) 1) % 2 ^ 32;
        auth = record { uuid = uuid };
        phase = success_phase availability_response sync_request_state none;
        block_height = chain.block_number;
      },
      cache',
    )
  ]

  -- HandleAvailability behind the rate limiter.
  unfoldable pub register_peer :
      Service
      → List Bytes
      → Cache
      → String
      → Option MerkleRange
      → Peer
      → Answer (AvailabilityResponse × Cache)
  unfolding issue
  register_peer node addresses cache uuid none remote =
      answered (unavailable [] "range cannot be nil", cache)
  register_peer node addresses cache uuid (some range) remote =
      if length addresses == 0
      then answered (unavailable [] "No Multiaddress to connect", cache)
      else (if node.available
          then issue node.chain addresses cache uuid range remote
          else answered (unavailable [] "Not available at this moment", cache))

  -- HandleAvailability, with the limiters and the token cache before and after; `uuid` is the new UUID.
  unfoldable pub handle_availability :
      Service
      → List Bytes
      → List (Peer × Limiter)
      → Cache
      → String
      → Option MerkleRange
      → Peer
      → List (Peer × Limiter) × Answer (AvailabilityResponse × Cache)
  unfolding allow_peer register_peer
  handle_availability node addresses limiters cache uuid range remote =
      let (allowed, limiters') = allow_peer limiters remote in
      (
        limiters',
        if allowed
            then register_peer node addresses cache uuid range remote
            else answered
                (unavailable [] "status 429: rate limit exceeded: too many requests", cache),
      )

  issue-IsAuthorized :
      (node : Service) (addresses : List Bytes) (cache cache' : Cache) (uuid : String)
      (range : MerkleRange) (remote : Peer) (response : AvailabilityResponse)
      → ((c c' : Cache) (p : Peer) (u : String)
          → add_record c p u ≡ ok c'
          → is_auth c' p u ≡ ok true)
      → str_eq uuid "" ≡ false
      → node.available ≡ true
      → issue node.chain addresses cache uuid range remote ≡ answered (response, cache')
      → response.phase.success ≡ true
      → IsAuthorized tokens node cache' (some response.auth) remote
  unfolding issue
  issue-IsAuthorized node addresses cache cache' uuid range remote response law filled on h s =
      elim (Option-cases node.chain) [
        | inl absent ↦ cc (rw (absent, issue) at h)
        | inr (chain, present) ↦ elim (Result-cases (add_record cache remote uuid)) [
          | inl (e, refused) ↦
              let (same, kept) = answered-pair (rw refused at (rw (present, issue) at h)) in
              let stop : false ≡ true = ap (λ r. r.phase.success) same ∙ s in cc
          | inr (c, added) ↦
              let (same, stored) = answered-pair (rw added at (rw (present, issue) at h)) in
              rw (← same) (
                rw (← stored) (record {
                  token = record { uuid = uuid };
                  present = refl;
                  filled = filled;
                  available = on;
                  known = law cache c remote uuid added;
                }))
        ]
      ]

  -- Let a peer be equal to itself, the cache know a token after it has recorded it, and the new UUID not be
  -- empty. When HandleAvailability reports success, Allow of the limiter that the map held for the peer,
  -- or of a new one, has answered true and the map holds the limiter as Allow has left it; and with the
  -- token of the response and the new cache the peer is authorized: the other handlers serve it.
  pub handle_availability-IsAuthorized :
      (node : Service) (addresses : List Bytes) (limiters : List (Peer × Limiter))
      (cache cache' : Cache) (uuid : String) (range : Option MerkleRange) (remote : Peer)
      (response : AvailabilityResponse)
      → ((p : Peer) → same_peer p p ≡ true)
      → ((c c' : Cache) (p : Peer) (u : String)
          → add_record c p u ≡ ok c'
          → is_auth c' p u ≡ ok true)
      → str_eq uuid "" ≡ false
      → (handle_availability node addresses limiters cache uuid range remote).1
        ≡ answered (response, cache')
      → response.phase.success ≡ true
      → ((allow (limiter_of limiters remote)).0 ≡ true)
        × (limiter_of (handle_availability node addresses limiters cache uuid range remote).0 remote
            ≡ (allow (limiter_of limiters remote)).1)
        × IsAuthorized tokens node cache' (some response.auth) remote
  unfolding handle_availability register_peer
  handle_availability-IsAuthorized node addresses limiters cache cache' uuid range remote response
        reflexive law filled h s =
      let (asked, kept) = allow_peer_lem reflexive limiters remote in
      elim (Bool-cases (allow_peer limiters remote).0) [
        | inr limited ↦ refuse (rw limited at h)
        | inl allowed ↦ (sym asked ∙ allowed, kept, registered range (rw allowed at h))
      ]
    where
      refuse :
          {Goal : Type 0} {text : String} {addresses' : List Bytes}
          → ◌≡◌ {A = Answer (AvailabilityResponse × Cache)}
              (answered (unavailable addresses' text, cache))
              (answered (response, cache'))
          → Goal
      refuse k = let stop : false ≡ true = ap (λ r. r.phase.success) (answered-pair k).0 ∙ s in cc

      registered :
          (range : Option MerkleRange)
          → register_peer node addresses cache uuid range remote ≡ answered (response, cache')
          → IsAuthorized tokens node cache' (some response.auth) remote
      registered none k = refuse k
      registered (some r) k = elim (Bool-cases (length addresses == 0)) [
        | inl alone ↦ refuse (rw (alone, register_peer) at k)
        | inr reachable ↦ elim (Bool-cases node.available) [
          | inr away ↦ refuse (rw away at (rw (reachable, register_peer) at k))
          | inl on ↦
              issue-IsAuthorized node addresses cache cache' uuid r remote response law filled on
                (rw on at (rw (reachable, register_peer) at k)) s
        ]
      ]
