-- ===== src/HeaderSync/Confirm/Answers.antt =====
-- What stands behind a confirmation: the answer of a peer.
use text.Mathlib.TextEquality.{eq_iff}
use jmdn_fast_sync.Common.{
  ◌≡◌, ◌≢◌, subst, true, Bool-cases, refl, ap, Option, none, some, Option-cases, List, [], ◌∷◌, inl,
  inr,
}
use jmdn_fast_sync.Checksum.{PriorSync}
use jmdn_fast_sync.DataSync.Queue.Fetch.{Remote}
use jmdn_fast_sync.HeaderSync.Confirm.{
  Network, Details, Verdict, matching, is_match, is_success, tag_of_response, invalid, ambiguous,
  differing, interpret, Confirmation, synced, diverged, aborted, build_prior_sync_msg, refresh,
  send_prior_sync, sync_confirmation,
}
use jmdn_fast_sync.Router.{PriorSyncMessage, HeaderSyncMessage}
use jmdn_fast_sync.Wire.{Auth, Phase, data_sync_request}

unfoldable token_of : Confirmation → Option Auth
token_of (synced auth) = some auth
token_of (diverged tag auth) = none
token_of aborted = none

synced-inj : (a b : Auth) → synced a ≡ synced b → a ≡ b
unfolding token_of
synced-inj a b e = let t : some a ≡ some b = ap token_of e in cc

absurd_abort : {Goal : Type 0} (auth : Auth) → aborted ≡ synced auth → Goal
unfolding token_of
absurd_abort auth e = let t : none ≡ some auth = ap token_of e in cc

data Reading (v : Verdict) : Type 0 where
  ends : v ≡ matching → Reading v
  differs : (t : _) → v ≡ differing t → Reading v
  breaks : v ≡ invalid → Reading v
  passes : v ≡ ambiguous → Reading v

Verdict-cases : (v : Verdict) → Reading v
Verdict-cases matching = ends refl
Verdict-cases (differing t) = differs t refl
Verdict-cases invalid = breaks refl
Verdict-cases ambiguous = passes refl

-- A response that reports success, points to DataSync, and carries a header request without a tag.
pub record SaysMatch {Snapshot : Type 0} (m : PriorSyncMessage Snapshot) : Type 0 where
  pub phase : Phase
  pub present : m.phase ≡ some phase
  pub success : phase.success ≡ true
  pub next_phase : phase.successive_phase ≡ data_sync_request
  pub headers : HeaderSyncMessage
  pub carried : m.headersync ≡ some headers
  pub untagged : headers.tag ≡ none

no_match : (h : Option HeaderSyncMessage) → tag_of_response h ≢ matching
unfolding tag_of_response
no_match none e = cc
no_match (some h) e = elim (Option-cases h.tag) [
  | inl absent ↦ cc (rw absent at e)
  | inr (tag, present) ↦ cc (rw present at e)
]

match_parts :
    (h : HeaderSyncMessage) (phase : Option Phase)
    → is_success phase ≡ true
    → is_match h phase ≡ true
    → (p : Phase) × (phase ≡ some p)
      × (p.success ≡ true)
      × (p.successive_phase ≡ data_sync_request)
      × (h.tag ≡ none)
match_parts h none successful matched = cc
match_parts h (some p) successful matched = elim (Option-cases h.tag) [
  | inr (tag, tagged) ↦ cc (rw tagged at matched)
  | inl untagged ↦ (
    p,
    refl,
    successful,
    (eq_iff p.successive_phase data_sync_request).0 (rw untagged at matched),
    untagged,
  )
]

interpret-SaysMatch :
    {Snapshot : Type 0} (m : PriorSyncMessage Snapshot) → interpret m ≡ matching → SaysMatch m
unfolding interpret
interpret-SaysMatch m e = elim (Bool-cases (is_success m.phase)) [
  | inr unsuccessful ↦ absurd (no_match m.headersync (rw (unsuccessful, interpret) at e))
  | inl successful ↦ elim (Option-cases m.headersync) [
    | inl missing ↦ cc (rw missing at (rw (successful, interpret) at e))
    | inr (h, carried) ↦ elim (Bool-cases (is_match h m.phase)) [
      | inr unmatched ↦
          absurd
            (no_match (some h) (rw unmatched at (rw carried at (rw (successful, interpret) at e))))
      | inl matched ↦
          let (phase, present, success, next_phase, untagged) =
            match_parts h m.phase successful matched in
          record {
            phase = phase;
            present = present;
            success = success;
            next_phase = next_phase;
            headers = h;
            carried = carried;
            untagged = untagged;
          }
    ]
  ]
]

module _ {State Peer Snapshot : Type 0} (network : Network State Peer Snapshot) where
  open network use {details, build_snapshot, compare}

  -- The state after some peers have been sent the message.
  pub data Compared : Snapshot → PriorSync Snapshot → State → State → Type 0 where
    nobody :
        {snapshot : Snapshot} {message : PriorSync Snapshot} {s : State}
        → Compared snapshot message s s
    another :
        {snapshot : Snapshot} {message : PriorSync Snapshot} {s now : State} (peer : Peer)
        (auth : Auth)
        → Compared snapshot message (compare s snapshot peer message auth).0 now
        → Compared snapshot message s now

  -- A peer has answered that the trees match, after other peers were asked from a state on, when it was sent
  -- the tree and the message of these details with this token.
  pub record IsAnswered (from : State) (snapshot : Snapshot) (d : Details) (auth : Auth)
      : Type 0 where
    pub message : PriorSync Snapshot
    pub built : build_prior_sync_msg network d ≡ some message
    pub now : State
    pub asked_before : Compared snapshot message from now
    pub peer : Peer
    pub answer : PriorSyncMessage Snapshot
    pub received : (compare now snapshot peer message auth).1 ≡ some answer
    pub says : SaysMatch answer

  -- The same, for the details and the tree of the node's state at the start of the confirmation, after
  -- the remotes were asked for new tokens.
  pub record IsConfirmedBy (before : State) (remotes : List (Remote Peer)) (auth : Auth)
      : Type 0 where
    pub snapshot : Snapshot
    pub built : build_snapshot before (details before).blocknumber ≡ some snapshot
    pub answered :
        IsAnswered
          (refresh network before remotes (details before).blocknumber).0
          snapshot
          (details before)
          auth

  not_alone :
      {from : State} {snapshot : Snapshot} {d : Details} {auth : Auth}
      {message : PriorSync Snapshot} (peer : Peer) (fresh : Auth)
      → build_prior_sync_msg network d ≡ some message
      → IsAnswered (compare from snapshot peer message fresh).0 snapshot d auth
      → IsAnswered from snapshot d auth
  not_alone {from} {snapshot} {d} {auth} {message} peer fresh made a =
      let same : a.message ≡ message = cc in
      record {
        message = message;
        built = made;
        now = a.now;
        asked_before = another peer fresh (
            subst (λ m. Compared snapshot m (compare from snapshot peer message fresh).0 a.now) same
              a.asked_before);
        peer = a.peer;
        answer = a.answer;
        received =
            subst (λ m. (compare a.now snapshot a.peer m auth).1 ≡ some a.answer) same a.received;
        says = a.says;
      }

  send_prior_sync-IsAnswered :
      (s : State) (snapshot : Snapshot) (d : Details) (peers : List (Peer × Auth)) (auth : Auth)
      → (send_prior_sync network s snapshot d peers).1 ≡ synced auth
      → IsAnswered s snapshot d auth
  unfolding send_prior_sync token_of
  send_prior_sync-IsAnswered s snapshot d [] auth h = absurd_abort auth h
  send_prior_sync-IsAnswered s snapshot d ((peer, fresh) ∷ peers) auth h =
      elim (Option-cases (build_prior_sync_msg network d)) [
        | inl unmade ↦ absurd_abort auth (rw (unmade, send_prior_sync) at h)
        | inr (message, made) ↦
            let (s', reply) = compare s snapshot peer message fresh in
            elim (Option-cases reply) [
              | inl lost ↦ not_alone peer fresh made (
                  send_prior_sync-IsAnswered s' snapshot d peers auth
                    (rw lost at (rw (made, send_prior_sync) at h)))
              | inr (m, got) ↦
                  let k = rw got at (rw (made, send_prior_sync) at h) in
                  elim (Verdict-cases (interpret m)) [
                    | ends e ↦
                        let same = synced-inj fresh auth (rw e at k) in
                        rw (← same) (record {
                          message = message;
                          built = made;
                          now = s;
                          asked_before = nobody;
                          peer = peer;
                          answer = m;
                          received = got;
                          says = interpret-SaysMatch m e;
                        })
                    | differs t e ↦ let stop : none ≡ some auth = ap token_of (rw e at k) in cc
                    | breaks e ↦ absurd_abort auth (rw e at k)
                    | passes e ↦
                        not_alone peer fresh made
                          (send_prior_sync-IsAnswered s' snapshot d peers auth (rw e at k))
                  ]
            ]
      ]

  pub sync_confirmation-IsConfirmedBy :
      (s : State) (remotes : List (Remote Peer)) (auth : Auth)
      → (sync_confirmation network s remotes).2 ≡ synced auth
      → IsConfirmedBy s remotes auth
  unfolding sync_confirmation
  sync_confirmation-IsConfirmedBy s remotes auth h =
      elim (Option-cases (build_snapshot s (details s).blocknumber)) [
        | inl failed ↦ absurd_abort auth (rw (failed, sync_confirmation) at h)
        | inr (snapshot, built) ↦
            let (s', remotes', fresh) = refresh network s remotes (details s).blocknumber in
            record {
              snapshot = snapshot;
              built = built;
              answered =
                  send_prior_sync-IsAnswered s' snapshot (details s) fresh auth
                    (rw (built, sync_confirmation) at h);
            }
      ]
