-- ===== src/AccountSync/Dispatcher/Steps/Closing.antt =====
-- The end of a session, and the gate of WaitForBatchStart.
use jmdn_fast_sync.Common.{
  ℕ, suc, ◌+◌, ◌%◌, ◌<◌, ◌≤◌, ◌≡◌, refl, ap, ◌∙◌, Bool, true, false, Option, none, some, List, [],
  ◌∷◌, ◌++◌, length, total, total-one, total-middle, arith, Bool-cases, inl, inr,
}
use jmdn_fast_sync.Common.Int.{pos, ◌≤ℤ◌, ◌+ℤ◌, +ℤ_parts}
use jmdn_fast_sync.AccountSync.Dispatcher.{
  Page, DeadLetter, Dispatcher, Config, Callbacks, send_page, count_nonces, finalise, close_input,
  begin_page, handle_failure, deliver_page, new_dispatcher, try_close_done, u32_mod,
  may_start_batch, summarise, validate_dispatcher_config, empty_dispatcher,
}
use jmdn_fast_sync.AccountSync.Dispatcher.Steps.{
  System, Step, Later, enter, send, count, withdraw, close, receive, fail_open, begin, finish, here,
  next, start,
}
use jmdn_fast_sync.AccountSync.Dispatcher.Steps.Balance.{
  by_nonces, by_dead, in_flight, IsConserved, IsCounted, IsBuffered, Step-IsConserved,
  Step-IsCounted, Step-IsBuffered, admit_lem,
}

-- `done` is closed only when the input is, and nothing is in flight.
abbrev pub IsClosing : Dispatcher → Type 0
IsClosing d = d.done ≡ true → (d.input_closed ≡ true) × (d.inflight ≡ pos 0)

finalise-IsClosing : (d : Dispatcher) → d.done ≡ false → IsClosing (finalise d)
unfolding finalise try_close_done
finalise-IsClosing d h = ground arith

handle_failure-IsClosing :
    (d : Dispatcher) (page : Page) (sent : Bool)
    → d.done ≡ false
    → IsClosing (handle_failure d page sent)
unfolding handle_failure try_close_done
handle_failure-IsClosing d page sent h = ground arith

deliver_page-IsClosing :
    (d : Dispatcher) (page : Page) (fetched : Option ℕ) (acknowledged sent : Bool)
    → d.done ≡ false
    → IsClosing (deliver_page d page fetched acknowledged sent)
unfolding deliver_page try_close_done
deliver_page-IsClosing d page none acknowledged sent h = handle_failure-IsClosing d page sent h
deliver_page-IsClosing d page (some n) true sent h = ground arith
deliver_page-IsClosing d page (some n) false sent h = handle_failure-IsClosing d page sent h

is_open :
    (s : System)
    → IsClosing s.dispatcher
    → IsCounted s
    → 0 < in_flight (λ x. 1) s
    → s.dispatcher.done ≡ false
is_open s c k e = elim (Bool-cases s.dispatcher.done) [ inr h ↦ h | inl h ↦ ground (arith, c h) ]

-- Pages stand in a list, so some page is in flight.
in_hand :
    {A : Type 0} (f : A → ℕ) (all xs ys : List A) (x : A)
    → f x ≡ 1
    → all ≡ xs ++ x ∷ ys
    → total f all ≡ suc (total f (xs ++ ys))
in_hand f all xs ys x o e = ap (total f) e ∙ omega (arith, total-middle f xs ys x)

Step-IsClosing :
    {s t : System} → Step s t → IsClosing s.dispatcher → IsCounted s → IsClosing t.dispatcher
unfolding send_page count_nonces close_input begin_page try_close_done
Step-IsClosing (enter s d' nonces e) c k =
    let (opened, same) = admit_lem s.dispatcher d' nonces e in rw same (λ h. ground (arith, c h))
Step-IsClosing (send s xs ys nonces e r) c k = c
Step-IsClosing (count s xs ys nonces e) c k = c
Step-IsClosing (withdraw s xs ys nonces e) c k =
    finalise-IsClosing s.dispatcher
      (is_open s c k (omega (arith, in_hand (λ x. 1) s.entering xs ys nonces refl e)))
Step-IsClosing (close s) c k = ground (arith, c)
Step-IsClosing (receive s page pages e) c k = c
Step-IsClosing (fail_open s xs ys page sent e r) c k =
    handle_failure-IsClosing s.dispatcher page sent
      (is_open s c k (omega (arith, in_hand (by_nonces (λ x. 1)) s.held xs ys page refl e)))
Step-IsClosing (begin s xs ys page e) c k = ground (arith, c)
Step-IsClosing (finish s xs ys page fetched acknowledged sent e r) c k =
    deliver_page-IsClosing s.dispatcher page fetched acknowledged sent
      (is_open s c k (omega (arith, in_hand (by_nonces (λ x. 1)) s.working xs ys page refl e)))

-- `deliveredPages` counts the deliveries.
abbrev pub IsReported : System → Type 0
IsReported s = s.dispatcher.delivered_pages ≡ length s.delivered % u32_mod

Step-IsReported : {s t : System} → Step s t → IsReported s → IsReported t
unfolding send_page count_nonces finalise close_input begin_page handle_failure deliver_page
    try_close_done
Step-IsReported (enter s d' nonces e) h = rw (admit_lem s.dispatcher d' nonces e).1 h
Step-IsReported (send s xs ys nonces e r) h = h
Step-IsReported (count s xs ys nonces e) h = h
Step-IsReported (withdraw s xs ys nonces e) h = ground arith
Step-IsReported (close s) h = ground arith
Step-IsReported (receive s page pages e) h = h
Step-IsReported (fail_open s xs ys page sent e r) h = ground arith
Step-IsReported (begin s xs ys page e) h = ground arith
Step-IsReported (finish s xs ys page none acknowledged sent e r) h = ground arith
Step-IsReported (finish s xs ys page (some n) true sent e r) h = ground arith
Step-IsReported (finish s xs ys page (some n) false sent e r) h = ground arith

-- What holds at every moment of a session.
pub record IsBalanced (s : System) : Type 0 where
  pub conserved : (w : List ℕ → ℕ) → IsConserved w s
  pub counted : IsCounted s
  pub buffered : IsBuffered s
  pub closing : IsClosing s.dispatcher
  pub reported : IsReported s

Step-IsBalanced : {s t : System} → Step s t → IsBalanced s → IsBalanced t
Step-IsBalanced step b = record {
  conserved = λ w. Step-IsConserved w step (b.conserved w);
  counted = Step-IsCounted step b.counted;
  buffered = Step-IsBuffered step b.buffered;
  closing = Step-IsClosing step b.closing b.counted;
  reported = Step-IsReported step b.reported;
}

Later-IsBalanced : {s t : System} → Later s t → IsBalanced s → IsBalanced t
Later-IsBalanced here b = b
Later-IsBalanced (next r step) b = Step-IsBalanced step (Later-IsBalanced r b)

new_dispatcher-IsBalanced :
    (c : Config) (callbacks : Callbacks) (d : Dispatcher)
    → new_dispatcher c callbacks ≡ some d
    → IsBalanced (start d)
unfolding new_dispatcher
new_dispatcher-IsBalanced c callbacks d e =
    elim (Bool-cases (validate_dispatcher_config c callbacks)) [
      | inr refused ↦ cc (rw (refused, new_dispatcher) at e)
      | inl valid ↦
          let made : some (empty_dispatcher c) ≡ some d = rw (valid, new_dispatcher) at e in
          let same : empty_dispatcher c ≡ d = cc in
          rw (← same) (record {
            conserved = λ w. refl;
            counted = refl;
            buffered = refl;
            closing = λ h. cc;
            reported = refl;
          })
    ]

-- At every moment of a session with a dispatcher of `New`, however producers and workers take turns: every
-- admitted page, with all its nonces, is withdrawn, delivered, a dead letter or in flight, each once;
-- `inflight` is the number of the pages in flight; `deliveredPages` is that of the deliveries, modulo
-- 2^32; `done` is closed only when the input is closed and nothing is in flight; and `nonceBufferCount`, with
-- the nonces of the sends that are not counted yet, is the number of the nonces that wait and of those
-- for whose page OpenStream has failed.
pub sessions-IsBalanced :
    (c : Config) (callbacks : Callbacks) (d : Dispatcher) (s : System)
    → new_dispatcher c callbacks ≡ some d
    → Later (start d) s
    → IsBalanced s
sessions-IsBalanced c callbacks d s e r =
    Later-IsBalanced r (new_dispatcher-IsBalanced c callbacks d e)

total-dead : (letters : List DeadLetter) → total (by_dead (λ x. 1)) letters ≡ length letters
total-dead [] = refl
total-dead (x ∷ letters) = omega (arith, total-dead letters)

weightless : {A : Type 0} (f : A → ℕ) (xs : List A) → total (λ x. 1) xs ≡ 0 → total f xs ≡ 0
weightless f [] h = refl
weightless f (x ∷ xs) h = absurd (omega arith)

nothing_in_flight : (w : List ℕ → ℕ) (s : System) → in_flight (λ x. 1) s ≡ 0 → in_flight w s ≡ 0
nothing_in_flight w s h = omega (
  arith,
  weightless w s.entering,
  weightless (by_nonces w) s.dispatcher.nonce_chan,
  weightless (by_nonces w) s.held,
  weightless (by_nonces w) s.working,
)

-- When `done` is closed, every nonce of every admitted page occurs as often in the pages withdrawn,
-- delivered and dead-lettered as in those admitted; and when fewer than 2^32 pages were admitted, the
-- delivered pages and the failed pages of the summary are all that were admitted and not withdrawn.
pub summarise-IsComplete :
    (c : Config) (callbacks : Callbacks) (d : Dispatcher) (s : System)
    → new_dispatcher c callbacks ≡ some d
    → Later (start d) s
    → s.dispatcher.done ≡ true
    → ((w : List ℕ → ℕ)
        → total w s.admitted
          ≡ total w s.withdrawn
            + total w s.delivered
            + total (by_dead w) (summarise s.dispatcher).dead_letters)
      × (length s.admitted < u32_mod
          → (summarise s.dispatcher).delivered_pages
              + (summarise s.dispatcher).permanent_failed_pages
              + length s.withdrawn
            ≡ length s.admitted)
unfolding summarise
summarise-IsComplete c callbacks d s e r h =
    let b = sessions-IsBalanced c callbacks d s e r in
    let none_left : in_flight (λ x. 1) s ≡ 0 = ground (arith, b.counted, b.closing h) in
    (
      λ w. omega (arith, b.conserved w, nothing_in_flight w s none_left),
      λ small. omega (
        arith,
        b.conserved (λ x. 1),
        none_left,
        b.reported,
        total-dead s.dispatcher.dead_letters,
        total-one s.admitted,
        total-one s.withdrawn,
        total-one s.delivered,
      ),
    )

Step-cfg : {s t : System} → Step s t → t.dispatcher.cfg ≡ s.dispatcher.cfg
unfolding send_page count_nonces finalise close_input begin_page handle_failure deliver_page
    try_close_done
Step-cfg (enter s d' nonces e) = rw (admit_lem s.dispatcher d' nonces e).1 refl
Step-cfg (send s xs ys nonces e r) = refl
Step-cfg (count s xs ys nonces e) = refl
Step-cfg (withdraw s xs ys nonces e) = ground arith
Step-cfg (close s) = ground arith
Step-cfg (receive s page pages e) = refl
Step-cfg (fail_open s xs ys page sent e r) = ground arith
Step-cfg (begin s xs ys page e) = ground arith
Step-cfg (finish s xs ys page none acknowledged sent e r) = ground arith
Step-cfg (finish s xs ys page (some n) true sent e r) = ground arith
Step-cfg (finish s xs ys page (some n) false sent e r) = ground arith

Step-unopened : {s t : System} → Step s t → total length s.unopened ≤ total length t.unopened
Step-unopened (fail_open s xs ys page sent e r) = omega arith
Step-unopened (enter s d' nonces e) = omega arith
Step-unopened (send s xs ys nonces e r) = omega arith
Step-unopened (count s xs ys nonces e) = omega arith
Step-unopened (withdraw s xs ys nonces e) = omega arith
Step-unopened (close s) = omega arith
Step-unopened (receive s page pages e) = omega arith
Step-unopened (begin s xs ys page e) = omega arith
Step-unopened (finish s xs ys page fetched acknowledged sent e r) = omega arith

Later-keeps :
    {s t : System}
    → Later s t
    → (t.dispatcher.cfg ≡ s.dispatcher.cfg) × (total length s.unopened ≤ total length t.unopened)
Later-keeps here = (refl, omega arith)
Later-keeps (next r step) =
    let (cfg, grown) = Later-keeps r in (Step-cfg step ∙ cfg, omega (arith, Step-unopened step))

pub Later-trans : {s t u : System} → Later s t → Later t u → Later s u
Later-trans r here = r
Later-trans r (next q step) = next (Later-trans r q) step

-- Once the pages for which OpenStream has failed hold as many nonces as the pause threshold, WaitForBatchStart
-- returns at no later moment at which every send has been counted, nor at one at which the sends that
-- are not counted yet hold no more nonces than the threshold is exceeded by, unless its context is
-- cancelled; also when all pages are finalised.
pub may_start_batch-shut :
    (c : Config) (callbacks : Callbacks) (d : Dispatcher) (s t : System)
    → new_dispatcher c callbacks ≡ some d
    → Later (start d) s
    → Later s t
    → s.dispatcher.cfg.pause_threshold +ℤ pos (total length t.uncounted)
      ≤ℤ pos (total length s.unopened)
    → may_start_batch t.dispatcher ≡ false
unfolding may_start_batch
may_start_batch-shut c callbacks d s t e r q full =
    let b = sessions-IsBalanced c callbacks d t e (Later-trans r q) in
    let (cfg, grown) = Later-keeps q in
    rw cfg (
      ground (
        arith,
        b.buffered,
        full,
        grown,
        +ℤ_parts s.dispatcher.cfg.pause_threshold (pos (total length t.uncounted)),
      ))
