-- ===== src/Tests/AvailabilityRuns.antt =====
-- A peer that asks for a token for the first time.
use Prim.Native.String.{String}
use text.Mathlib.Text.{◌==◌ as str_eq}
use text.Mathlib.TextEquality.{eq_iff}
use jmdn_fast_sync.Common.{
  ℕ, ◌≡◌, refl, true, false, none, some, List, [], ◌∷◌, Bool, ◌==◌, ◌&&◌, any, arith,
}
use jmdn_fast_sync.Common.Result.{ok}
use jmdn_fast_sync.Router.{Tokens, Service}
use jmdn_fast_sync.Router.Availability.{
  AvailabilityResponse, Issuing, allow_peer, limiter_of, issue, register_peer, handle_availability,
  handle_availability-IsAuthorized, availability_response,
}
use jmdn_fast_sync.Router.Handlers.Gate.{IsAuthorized}
use jmdn_fast_sync.Router.Replies.{sync_request_state}
use jmdn_fast_sync.Tests.RouterRuns.{chain_of}
use jmdn_fast_sync.Wire.{success_phase}

-- The cache is the list of its records.
abbrev recorded : Tokens
recorded = record {
  Cache = List (ℕ × String);
  Peer = ℕ;
  is_auth = λ cache remote uuid. ok (any (λ r. (r.0 == remote) && str_eq r.1 uuid) cache);
  reset_ttl = λ cache remote. cache;
}

-- A limiter allows one request.
abbrev one_each : Issuing recorded
one_each = record {
  Limiter = Bool;
  new_limiter = true;
  allow = λ left. (left, false);
  same_peer = λ p q. p == q;
  add_record = λ cache remote uuid. ok ((remote, uuid) ∷ cache);
  merge_of = λ total. 1;
}

abbrev open_node : Service
open_node = record { available = true; chain = some (chain_of 19) }

abbrev issued : AvailabilityResponse
issued = record {
  is_available = true;
  addresses = (1 ∷ []) ∷ [];
  block_merge = 1;
  auth = record { uuid = "new" };
  phase = success_phase availability_response sync_request_state none;
  block_height = 19;
}

recorded_law :
    (c c' : List (ℕ × String)) (p : ℕ) (u : String)
    → one_each.add_record c p u ≡ ok c'
    → recorded.is_auth c' p u ≡ ok true
recorded_law c c' p u e =
    let same : (p, u) ∷ c ≡ c' = cc in
    let peer : (p == p) ≡ true = ground arith in
    let token : str_eq u u ≡ true = (eq_iff u u).1 refl in rw (← same) (rw peer (rw token refl))

same_itself : (p : ℕ) → (p == p) ≡ true
same_itself p = ground arith

handle_availability-IsAuthorized_example :
    ((one_each.allow (limiter_of recorded one_each [] 7)).0 ≡ true)
    × (limiter_of recorded one_each
          (handle_availability recorded one_each open_node
            ((1 ∷ []) ∷ [])
            []
            []
            "new"
            (some (record { start = 0; end = 19 }))
            7).0
          7
        ≡ (one_each.allow (limiter_of recorded one_each [] 7)).1)
    × IsAuthorized recorded open_node ((7, "new") ∷ []) (some issued.auth) 7
unfolding handle_availability register_peer issue allow_peer
handle_availability-IsAuthorized_example =
    handle_availability-IsAuthorized recorded one_each open_node ((1 ∷ []) ∷ []) [] []
      ((7, "new") ∷ []) "new" (some (record { start = 0; end = 19 })) 7 issued same_itself
      recorded_law refl refl refl
