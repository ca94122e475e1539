-- ===== src/Wal/Buffered/Stack.antt =====
-- The coalescing stack of an `AsyncBuffer`: `pushData` and `pushCheckpoint`. The stack's top is the end of
-- the list.
use jmdn_fast_sync.Common.{
  ℕ, ◌≡◌, refl, ap, sym, ◌∙◌, Bool, true, false, List, [], ◌∷◌, ◌++◌, map, append-nil, append_assoc,
  map-append, ◌⊎◌, inl, inr, Bool-cases, if◌then◌else◌, flat_map,
}
use jmdn_fast_sync.Wal.Types.{WalType}

-- `pendingEntry`: serialised, and without an LSN.
pub record PendingEntry : Type 0 where
  pub wal_type : WalType
  pub payload : List ℕ

-- `stackEntry`, a constructor for each `entryKind`.
pub data StackEntry : Type 0 where
  entries : List PendingEntry → StackEntry
  checkpoint : StackEntry

pub record AsyncBuffer : Type 0 where
  pub stack : List StackEntry
  pub closed : Bool

-- Appending to the top entry, or a new one.
unfoldable pub add_data : List StackEntry → PendingEntry → List StackEntry
add_data [] e = entries (e ∷ []) ∷ []
add_data (entries es ∷ []) e = entries (es ++ e ∷ []) ∷ []
add_data (checkpoint ∷ []) e = checkpoint ∷ entries (e ∷ []) ∷ []
add_data (s ∷ s' ∷ stack) e = s ∷ add_data (s' ∷ stack) e

unfoldable pub add_checkpoint : List StackEntry → List StackEntry
add_checkpoint [] = checkpoint ∷ []
add_checkpoint (checkpoint ∷ []) = checkpoint ∷ []
add_checkpoint (entries es ∷ []) = entries es ∷ checkpoint ∷ []
add_checkpoint (s ∷ s' ∷ stack) = s ∷ add_checkpoint (s' ∷ stack)

-- `pushData` and `pushCheckpoint`: `false` when the buffer is closed.
unfoldable pub push_data : AsyncBuffer → PendingEntry → AsyncBuffer × Bool
unfolding add_data
push_data b e = if b.closed then (b, false) else (record b { stack = add_data b.stack e }, true)

unfoldable pub push_checkpoint : AsyncBuffer → AsyncBuffer × Bool
unfolding add_checkpoint
push_checkpoint b =
    if b.closed then (b, false) else (record b { stack = add_checkpoint b.stack }, true)

-- The requests in the order in which they were made: `none` is a checkpoint.
pub data Request : Type 0 where
  data_request : PendingEntry → Request
  checkpoint_request : Request

unfoldable pub push : AsyncBuffer → Request → AsyncBuffer × Bool
unfolding push_data push_checkpoint
push b (data_request e) = push_data b e
push b checkpoint_request = push_checkpoint b

-- The requests that a stack stands for.
abbrev pub requests_of : StackEntry → List Request
requests_of (entries es) = map data_request es
requests_of checkpoint = checkpoint_request ∷ []

abbrev pub requests : List StackEntry → List Request
requests = flat_map requests_of

-- No two neighbours of one kind, and no empty entry.
abbrev pub IsCoalesced : List StackEntry → Type 0
IsCoalesced [] = Unit
IsCoalesced (entries [] ∷ stack) = ⊥
IsCoalesced (entries (e ∷ es) ∷ []) = Unit
IsCoalesced (entries (e ∷ es) ∷ entries fs ∷ stack) = ⊥
IsCoalesced (entries (e ∷ es) ∷ checkpoint ∷ stack) = IsCoalesced (checkpoint ∷ stack)
IsCoalesced (checkpoint ∷ []) = Unit
IsCoalesced (checkpoint ∷ checkpoint ∷ stack) = ⊥
IsCoalesced (checkpoint ∷ entries es ∷ stack) = IsCoalesced (entries es ∷ stack)

add_data-IsCoalesced :
    (stack : List StackEntry) (e : PendingEntry)
    → IsCoalesced stack
    → IsCoalesced (add_data stack e)
unfolding add_data
add_data-IsCoalesced [] e h = tt
add_data-IsCoalesced (entries [] ∷ stack) e h = absurd h
add_data-IsCoalesced (entries (x ∷ es) ∷ []) e h = tt
add_data-IsCoalesced (entries (x ∷ es) ∷ entries fs ∷ stack) e h = absurd h
add_data-IsCoalesced (entries (x ∷ es) ∷ checkpoint ∷ []) e h = tt
add_data-IsCoalesced (entries (x ∷ es) ∷ checkpoint ∷ s ∷ stack) e h =
    add_data-IsCoalesced (checkpoint ∷ s ∷ stack) e h
add_data-IsCoalesced (checkpoint ∷ []) e h = tt
add_data-IsCoalesced (checkpoint ∷ checkpoint ∷ stack) e h = absurd h
add_data-IsCoalesced (checkpoint ∷ entries es ∷ []) e h = add_data-IsCoalesced (entries es ∷ []) e h
add_data-IsCoalesced (checkpoint ∷ entries es ∷ s ∷ stack) e h =
    add_data-IsCoalesced (entries es ∷ s ∷ stack) e h

add_checkpoint-IsCoalesced :
    (stack : List StackEntry) → IsCoalesced stack → IsCoalesced (add_checkpoint stack)
unfolding add_checkpoint
add_checkpoint-IsCoalesced [] h = tt
add_checkpoint-IsCoalesced (entries [] ∷ stack) h = absurd h
add_checkpoint-IsCoalesced (entries (x ∷ es) ∷ []) h = tt
add_checkpoint-IsCoalesced (entries (x ∷ es) ∷ entries fs ∷ stack) h = absurd h
add_checkpoint-IsCoalesced (entries (x ∷ es) ∷ checkpoint ∷ []) h = tt
add_checkpoint-IsCoalesced (entries (x ∷ es) ∷ checkpoint ∷ s ∷ stack) h =
    add_checkpoint-IsCoalesced (checkpoint ∷ s ∷ stack) h
add_checkpoint-IsCoalesced (checkpoint ∷ []) h = tt
add_checkpoint-IsCoalesced (checkpoint ∷ checkpoint ∷ stack) h = absurd h
add_checkpoint-IsCoalesced (checkpoint ∷ entries (x ∷ es) ∷ []) h = tt
add_checkpoint-IsCoalesced (checkpoint ∷ entries [] ∷ stack) h = absurd h
add_checkpoint-IsCoalesced (checkpoint ∷ entries (x ∷ es) ∷ s ∷ stack) h =
    add_checkpoint-IsCoalesced (entries (x ∷ es) ∷ s ∷ stack) h

requests-add_data :
    (stack : List StackEntry) (e : PendingEntry)
    → requests (add_data stack e) ≡ requests stack ++ data_request e ∷ []
unfolding add_data
requests-add_data [] e = refl
requests-add_data (entries es ∷ []) e =
    append-nil _
    ∙ map-append data_request es (e ∷ [])
    ∙ ap (λ u. u ++ data_request e ∷ []) (sym (append-nil _))
requests-add_data (checkpoint ∷ []) e = refl
requests-add_data (entries es ∷ s ∷ stack) e =
    ap (λ u. map data_request es ++ u) (requests-add_data (s ∷ stack) e)
    ∙ sym (append_assoc (map data_request es) (requests (s ∷ stack)) (data_request e ∷ []))
requests-add_data (checkpoint ∷ s ∷ stack) e =
    ap (λ u. checkpoint_request ∷ u) (requests-add_data (s ∷ stack) e)

-- The last request on the stack is a checkpoint.
abbrev pub ends_with_checkpoint : List StackEntry → Bool
ends_with_checkpoint [] = false
ends_with_checkpoint (checkpoint ∷ []) = true
ends_with_checkpoint (entries es ∷ []) = false
ends_with_checkpoint (s ∷ s' ∷ stack) = ends_with_checkpoint (s' ∷ stack)

-- A request is added unless it is a checkpoint behind a checkpoint.
abbrev pub noted : List StackEntry → Request → List Request
noted stack (data_request e) = requests stack ++ data_request e ∷ []
noted stack checkpoint_request =
    if ends_with_checkpoint stack then requests stack else requests stack ++ checkpoint_request ∷ []

requests-add_checkpoint :
    (stack : List StackEntry) → requests (add_checkpoint stack) ≡ noted stack checkpoint_request
unfolding add_checkpoint
requests-add_checkpoint [] = refl
requests-add_checkpoint (entries es ∷ []) =
    sym (append_assoc (map data_request es) [] (checkpoint_request ∷ []))
requests-add_checkpoint (checkpoint ∷ []) = refl
requests-add_checkpoint (entries es ∷ s ∷ stack) =
    ap (λ u. map data_request es ++ u) (requests-add_checkpoint (s ∷ stack))
    ∙ push_if (ends_with_checkpoint (s ∷ stack))
  where
    push_if :
        (c : Bool)
        → map data_request es
            ++ (if c then requests (s ∷ stack) else requests (s ∷ stack) ++ checkpoint_request ∷ [])
          ≡ (if c
              then requests (entries es ∷ s ∷ stack)
              else requests (entries es ∷ s ∷ stack) ++ checkpoint_request ∷ [])
    push_if true = refl
    push_if false =
        sym (append_assoc (map data_request es) (requests (s ∷ stack)) (checkpoint_request ∷ []))
requests-add_checkpoint (checkpoint ∷ s ∷ stack) =
    ap (λ u. checkpoint_request ∷ u) (requests-add_checkpoint (s ∷ stack))
    ∙ push_if (ends_with_checkpoint (s ∷ stack))
  where
    push_if :
        (c : Bool)
        → checkpoint_request
            ∷ (if c then requests (s ∷ stack) else requests (s ∷ stack) ++ checkpoint_request ∷ [])
          ≡ (if c
              then requests (checkpoint ∷ s ∷ stack)
              else requests (checkpoint ∷ s ∷ stack) ++ checkpoint_request ∷ [])
    push_if true = refl
    push_if false = refl

-- An open buffer accepts every request: it stays open and coalesced, and the stack stands for what it
-- stood for with the request behind it, except that a checkpoint behind a checkpoint adds nothing. A
-- closed buffer refuses, and does not change.
pub push_lem :
    (b : AsyncBuffer) (r : Request)
    → IsCoalesced b.stack
    → ((b.closed ≡ false)
        × ((push b r).1 ≡ true)
        × ((push b r).0.closed ≡ false)
        × IsCoalesced (push b r).0.stack
        × (requests (push b r).0.stack ≡ noted b.stack r))
      ⊎ ((b.closed ≡ true) × (push b r ≡ (b, false)))
unfolding push
push_lem b (data_request e) h = elim (Bool-cases b.closed) [
  | inl shut ↦ inr (shut, rw (shut, push_data))
  | inr accepts ↦
      let step : push_data b e ≡ (record b { stack = add_data b.stack e }, true) =
        rw (accepts, push_data) in
      rw step (
        inl (accepts, refl, accepts, add_data-IsCoalesced b.stack e h, requests-add_data b.stack e))
]
push_lem b checkpoint_request h = elim (Bool-cases b.closed) [
  | inl shut ↦ inr (shut, rw (shut, push_checkpoint))
  | inr accepts ↦
      let step : push_checkpoint b ≡ (record b { stack = add_checkpoint b.stack }, true) =
        rw (accepts, push_checkpoint) in
      rw step (
        inl (
          accepts,
          refl,
          accepts,
          add_checkpoint-IsCoalesced b.stack h,
          requests-add_checkpoint b.stack,
        ))
]
