-- ===== src/Router/Upload/Sessions.antt =====
-- A session of uploads: the loop of HandleAccountsSync of core/sync/sync_protocols.go over the frames of a
-- client.
use Prim.Native.String.{String}
use jmdn_fast_sync.Common.{
  ◌≡◌, refl, ap, subst, ◌⊎◌, inl, inr, Bool, true, false, none, some, List, [], ◌∷◌, ◌++◌,
}
use jmdn_fast_sync.Common.Result.{Answer, answered, panicked, endless, ok, ◌>>=◌}
use jmdn_fast_sync.AccountSync.Dispatcher.{Dispatcher, default_config, new_dispatcher, summarise}
use jmdn_fast_sync.Router.{Tokens, Service}
use jmdn_fast_sync.Router.Handlers.Gate.{IsAuthorized}
use jmdn_fast_sync.Router.Upload.{
  Art, UploadRequest, ServerMessage, err_end_of_stream, ok_batch_ack, diff_complete, stays_open,
  auth_of_request, all_callbacks, handle_accounts_sync, upload_loop,
}
use jmdn_fast_sync.Router.Upload.Frames.{
  IsIntact, IsAsked, Served, Handled, handle_accounts_sync-Handled,
}

Answer-cases :
    {A : Type 0} (x : Answer A) → ((a : A) × (x ≡ answered a)) ⊎ ((x ≡ panicked) ⊎ (x ≡ endless))
Answer-cases (answered a) = inl (a, refl)
Answer-cases panicked = inr (inl refl)
Answer-cases endless = inr (inr refl)

module _ (art : Art) (tokens : Tokens) (node : Service) (remote : tokens.Peer) where
  open art use {Tree, Chunk, merge, close, run_diff}
  open tokens use {Cache, reset_ttl}

  -- A frame whose chunk may be merged: the client is authorized, and the chunk is intact.
  pub record IsAccepted (cache : Cache) (request : UploadRequest) (chunk : Chunk) : Type 0 where
    pub authorized : IsAuthorized tokens node cache (auth_of_request art request) remote
    pub asked : IsAsked art request
    pub intact : IsIntact art request chunk

  -- The frames whose chunks have been merged in their order, each acknowledged and none the last.
  pub data Uploaded
      : List (UploadRequest × Bool)
        → Cache
        → Tree
        → List ServerMessage
        → Cache
        → Tree
        → Type 0 where
    nothing : (cache : Cache) (tree : Tree) → Uploaded [] cache tree [] cache tree
    one_more :
        (request : UploadRequest) (chunk : Chunk) (frames : List (UploadRequest × Bool))
        (cache cache' : Cache) (tree tree' tree'' : Tree) (replies : List ServerMessage)
        → IsAccepted cache request chunk
        → request.is_last ≡ false
        → merge tree chunk ≡ (tree', none)
        → Uploaded frames (reset_ttl cache remote) tree' replies cache' tree''
        → Uploaded
            ((request, true) ∷ frames)
            cache
            tree
            (ok_batch_ack request.batch_index ∷ replies)
            cache'
            tree''

  -- How the session ends, with the frames that are left.
  pub data Ending
      : List (UploadRequest × Bool)
        → Cache
        → Tree
        → List ServerMessage
        → Cache
        → Tree
        → Type 0 where
    no_frame : (cache : Cache) (tree : Tree) → Ending [] cache tree [] cache tree
    unsent :
        (request : UploadRequest) (chunk : Chunk) (frames : List (UploadRequest × Bool))
        (cache : Cache) (tree tree' : Tree)
        → IsAccepted cache request chunk
        → request.is_last ≡ false
        → merge tree chunk ≡ (tree', none)
        → Ending
            ((request, false) ∷ frames)
            cache
            tree
            (ok_batch_ack request.batch_index ∷ [])
            (reset_ttl cache remote)
            tree'
    refused :
        (request : UploadRequest) (sent : Bool) (frames : List (UploadRequest × Bool))
        (text : String) (cache cache' : Cache) (tree : Tree)
        → Ending ((request, sent) ∷ frames) cache tree (err_end_of_stream text ∷ []) cache' tree
    broken :
        (request : UploadRequest) (chunk : Chunk) (sent : Bool)
        (frames : List (UploadRequest × Bool)) (text : String) (cache : Cache) (tree tree' : Tree)
        → IsAccepted cache request chunk
        → Ending
            ((request, sent) ∷ frames)
            cache
            tree
            (err_end_of_stream text ∷ [])
            (reset_ttl cache remote)
            tree'
    completed :
        (request : UploadRequest) (chunk : Chunk) (sent : Bool)
        (frames : List (UploadRequest × Bool)) (cache : Cache) (tree tree' closed : Tree)
        (d done : Dispatcher)
        → IsAccepted cache request chunk
        → request.is_last ≡ true
        → merge tree chunk ≡ (tree', none)
        → close tree' ≡ (closed, none)
        → new_dispatcher default_config (all_callbacks art) ≡ some d
        → run_diff closed request.total_keys (auth_of_request art request) d ≡ ok done
        → Ending
            ((request, sent) ∷ frames)
            cache
            tree
            (diff_complete (summarise done) (auth_of_request art request) ∷ [])
            (reset_ttl cache remote)
            closed

  pub record IsSession (frames : List (UploadRequest × Bool)) (cache : Cache) (tree : Tree)
      (replies : List ServerMessage) (cache' : Cache) (tree' : Tree) : Type 0 where
    pub taken : List (UploadRequest × Bool)
    pub rest : List (UploadRequest × Bool)
    pub acks : List ServerMessage
    pub end : List ServerMessage
    pub cache_at_end : Cache
    pub tree_at_end : Tree
    pub frames_split : frames ≡ taken ++ rest
    pub replies_split : replies ≡ acks ++ end
    pub uploaded : Uploaded taken cache tree acks cache_at_end tree_at_end
    pub ending : Ending rest cache_at_end tree_at_end end cache' tree'

  at_once :
      (frames : List (UploadRequest × Bool)) (cache : Cache) (tree : Tree)
      (replies : List ServerMessage) (cache' : Cache) (tree' : Tree)
      → Ending frames cache tree replies cache' tree'
      → IsSession frames cache tree replies cache' tree'
  at_once frames cache tree replies cache' tree' e = record {
    taken = [];
    rest = frames;
    acks = [];
    end = replies;
    cache_at_end = cache;
    tree_at_end = tree;
    frames_split = refl;
    replies_split = refl;
    uploaded = nothing cache tree;
    ending = e;
  }

  abbrev Outcome : Type 0
  Outcome = List ServerMessage × Cache × Tree

  -- The loop after the answer to a frame.
  abbrev after_reply : ServerMessage → Bool → Cache → Tree → Answer Outcome → Answer Outcome
  after_reply result sent cache tree others = elim (stays_open result sent) [
    | false ↦ answered (result ∷ [], cache, tree)
    | true ↦ others >>= λ ((replies, cache', tree') : Outcome).
        answered (result ∷ replies, cache', tree')
  ]

  abbrev Continues : List (UploadRequest × Bool) → Answer Outcome → Cache → Tree → Type 0
  Continues frames others cache tree =
      (replies : List ServerMessage) (cache' : Cache) (tree' : Tree)
      → others ≡ answered (replies, cache', tree')
      → IsSession frames cache tree replies cache' tree'

  closes :
      (frames : List (UploadRequest × Bool)) (cache : Cache) (tree : Tree) (x y : Outcome)
      → answered x ≡ answered y
      → Ending frames cache tree x.0 x.1 x.2
      → IsSession frames cache tree y.0 y.1 y.2
  closes frames cache tree x y h e =
      let same : x ≡ y = cc in
      subst (λ (z : Outcome). IsSession frames cache tree z.0 z.1 z.2) same
        (at_once frames cache tree x.0 x.1 x.2 e)

  -- A frame that is merged before a session of the others.
  goes_on :
      (request : UploadRequest) (chunk : Chunk) (frames : List (UploadRequest × Bool))
      (cache : Cache) (tree tree' : Tree) (x : Outcome)
      → IsAccepted cache request chunk
      → request.is_last ≡ false
      → merge tree chunk ≡ (tree', none)
      → IsSession frames (reset_ttl cache remote) tree' x.0 x.1 x.2
      → IsSession
          ((request, true) ∷ frames)
          cache
          tree
          (ok_batch_ack request.batch_index ∷ x.0)
          x.1
          x.2
  goes_on request chunk frames cache tree tree' x a more m s = record {
    taken = (request, true) ∷ s.taken;
    rest = s.rest;
    acks = ok_batch_ack request.batch_index ∷ s.acks;
    end = s.end;
    cache_at_end = s.cache_at_end;
    tree_at_end = s.tree_at_end;
    frames_split = ap (λ fs. (request, true) ∷ fs) s.frames_split;
    replies_split = ap (λ rs. ok_batch_ack request.batch_index ∷ rs) s.replies_split;
    uploaded =
        one_more request chunk s.taken cache s.cache_at_end tree tree' s.tree_at_end s.acks a more m
          s.uploaded;
    ending = s.ending;
  }

  resumes :
      (request : UploadRequest) (chunk : Chunk) (frames : List (UploadRequest × Bool))
      (cache : Cache) (tree tree' : Tree) (others : Answer Outcome) (x : Outcome)
      → IsAccepted cache request chunk
      → request.is_last ≡ false
      → merge tree chunk ≡ (tree', none)
      → Continues frames others (reset_ttl cache remote) tree'
      → after_reply (ok_batch_ack request.batch_index) true (reset_ttl cache remote) tree' others
        ≡ answered x
      → IsSession ((request, true) ∷ frames) cache tree x.0 x.1 x.2
  resumes request chunk frames cache tree tree' (answered (rs, c, t)) x a more m ih h =
      let same : (ok_batch_ack request.batch_index ∷ rs, c, t) ≡ x = cc in
      subst (λ (z : Outcome). IsSession ((request, true) ∷ frames) cache tree z.0 z.1 z.2) same
        (goes_on request chunk frames cache tree tree' (rs, c, t) a more m (ih rs c t refl))
  resumes request chunk frames cache tree tree' panicked x a more m ih h = cc
  resumes request chunk frames cache tree tree' endless x a more m ih h = cc

  answer-IsSession :
      (request : UploadRequest) (sent : Bool) (frames : List (UploadRequest × Bool)) (cache : Cache)
      (tree : Tree) (others : Answer Outcome) (x : Outcome) (reply : ServerMessage) (tree' : Tree)
      (cache' : Cache)
      → Handled art tokens node remote request tree cache reply tree' cache'
      → Continues frames others cache' tree'
      → after_reply reply sent cache' tree' others ≡ answered x
      → IsSession ((request, sent) ∷ frames) cache tree x.0 x.1 x.2
  answer-IsSession request sent frames cache tree others x _ _ _ (Handled.refused text cache') ih
        h =
      closes ((request, sent) ∷ frames) cache tree _ x h
        (refused request sent frames text cache cache' tree)
  answer-IsSession request sent frames cache tree others x _ _ _
        (Handled.served _ _ a asked (Served.rejected text)) ih h =
      closes ((request, sent) ∷ frames) cache tree _ x h
        (refused request sent frames text cache (reset_ttl cache remote) tree)
  answer-IsSession request sent frames cache tree others x _ _ _
        (Handled.served _ _ a asked (Served.broken text chunk tree' intact)) ih h =
      closes ((request, sent) ∷ frames) cache tree _ x h (
        broken request chunk sent frames text cache tree tree'
          (record { authorized = a; asked = asked; intact = intact }))
  answer-IsSession request false frames cache tree others x _ _ _
        (Handled.served _ _ a asked (Served.merged chunk tree' intact m more)) ih h =
      closes ((request, false) ∷ frames) cache tree _ x h (
        unsent request chunk frames cache tree tree'
          (record { authorized = a; asked = asked; intact = intact }) more m)
  answer-IsSession request true frames cache tree others x _ _ _
        (Handled.served _ _ a asked (Served.merged chunk tree' intact m more)) ih h =
      resumes request chunk frames cache tree tree' others x
        (record { authorized = a; asked = asked; intact = intact }) more m ih h
  answer-IsSession request sent frames cache tree others x _ _ _
        (Handled.served _ _ a asked
          (Served.completed chunk tree' closed d done intact m last c new ran))
        ih h =
      closes ((request, sent) ∷ frames) cache tree _ x h (
        completed request chunk sent frames cache tree tree' closed d done
          (record { authorized = a; asked = asked; intact = intact }) last m c new ran)

  -- When the upload loop ends, a first part of the frames has been merged into the session's tree in their
  -- order, each frame authorized at its time, asking for an upload, intact under its checksum, not the
  -- last, and acknowledged. After it the session ends in one of five ways: there is no further frame;
  -- an acknowledgement of such a frame cannot be written; a frame is refused with an error and the tree is
  -- as before; an accepted frame gets an error; or the accepted last frame is merged, the tree closed and
  -- the missing accounts dispatched from this tree, and the client gets the summary.
  pub upload_loop-IsSession :
      (frames : List (UploadRequest × Bool)) (cache : Cache) (tree : Tree)
      (replies : List ServerMessage) (cache' : Cache) (tree' : Tree)
      → upload_loop art tokens node remote frames cache tree ≡ answered (replies, cache', tree')
      → IsSession frames cache tree replies cache' tree'
  unfolding upload_loop
  upload_loop-IsSession [] cache tree replies cache' tree' h =
      closes [] cache tree ([], cache, tree) (replies, cache', tree') h (no_frame cache tree)
  upload_loop-IsSession ((request, sent) ∷ frames) cache tree replies cache' tree' h =
      elim (Answer-cases (handle_accounts_sync art tokens node cache request remote tree)) [
        | inl (((reply, t), c), at) ↦
            answer-IsSession request sent frames cache tree
              (upload_loop art tokens node remote frames c t) (replies, cache', tree') reply t c
              (handle_accounts_sync-Handled art tokens node remote request tree cache reply t c at)
              (upload_loop-IsSession frames c t) (rw (at, upload_loop) at h)
        | inr (inl failed) ↦ cc (rw (failed, upload_loop) at h)
        | inr (inr stuck) ↦ cc (rw (stuck, upload_loop) at h)
      ]
