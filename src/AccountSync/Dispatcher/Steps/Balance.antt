-- ===== src/AccountSync/Dispatcher/Steps/Balance.antt =====
-- Where the pages are: what the counters of a dispatcher count, at every moment.
use jmdn_fast_sync.Common.{
  ℕ, ◌+◌, ◌≡◌, ap, ◌∙◌, Bool, true, false, Option, none, some, List, [], ◌∷◌, ◌++◌, length, total,
  total-append, total-middle, arith,
}
use jmdn_fast_sync.Common.Int.{pos, pos_part, neg_part, ◌+ℤ◌, ◌-ℤ◌, +ℤ_parts, -ℤ_parts}
use jmdn_fast_sync.AccountSync.Dispatcher.{
  Page, DeadLetter, Dispatcher, admit, send_page, count_nonces, new_page, finalise, close_input,
  begin_page, handle_failure, deliver_page, try_close_done, retried,
}
use jmdn_fast_sync.AccountSync.Dispatcher.Steps.{
  System, Step, enter, send, count, put_back, returned, withdraw, close, receive, fail_open, begin,
  finish, noted,
}

abbrev pub by_nonces : (List ℕ → ℕ) → Page → ℕ
by_nonces w page = w page.nonces

abbrev pub by_dead : (List ℕ → ℕ) → DeadLetter → ℕ
by_dead w dead = w dead.nonces

-- The pages that are admitted and not finalised, weighed.
abbrev pub in_flight : (List ℕ → ℕ) → System → ℕ
in_flight w s =
    total w s.entering
    + total (by_nonces w) s.dispatcher.nonce_chan
    + total (by_nonces w) s.held
    + total (by_nonces w) s.working

-- Whatever a page weighs, nothing is lost and nothing is counted twice.
abbrev pub IsConserved : (List ℕ → ℕ) → System → Type 0
IsConserved w s =
    total w s.admitted
    ≡ total w s.withdrawn
      + total w s.delivered
      + total (by_dead w) s.dispatcher.dead_letters
      + in_flight w s

pub admit_lem :
    (d d' : Dispatcher) (nonces : List ℕ)
    → admit d nonces ≡ some d'
    → (d.input_closed ≡ false) × (d' ≡ record d { inflight = d.inflight +ℤ pos 1 })
unfolding admit
admit_lem d d' [] e = cc
admit_lem d d' (n ∷ nonces) e = ground arith

module _ (d : Dispatcher) (page : Page) (sent : Bool) (w : List ℕ → ℕ) where
  handle_failure-total :
      total (by_nonces w) (handle_failure d page sent).nonce_chan
        + total (by_dead w) (handle_failure d page sent).dead_letters
      ≡ w page.nonces + total (by_nonces w) d.nonce_chan + total (by_dead w) d.dead_letters
  unfolding handle_failure try_close_done
  handle_failure-total = ground (
    arith,
    total-append (by_nonces w) d.nonce_chan (retried page ∷ []),
    total-append (by_dead w) d.dead_letters
        (record { nonces = page.nonces; retry_count = page.retries } ∷ []),
    total-append (by_dead w) d.dead_letters
        (record { nonces = page.nonces; retry_count = page.retries + 1 } ∷ []),
  )

  deliver_page-total :
      (fetched : Option ℕ) (acknowledged : Bool) (delivered : List (List ℕ))
      → total (by_nonces w) (deliver_page d page fetched acknowledged sent).nonce_chan
          + total (by_dead w) (deliver_page d page fetched acknowledged sent).dead_letters
          + total w (noted fetched acknowledged page.nonces delivered)
        ≡ w page.nonces
          + total (by_nonces w) d.nonce_chan
          + total (by_dead w) d.dead_letters
          + total w delivered
  unfolding deliver_page try_close_done
  deliver_page-total none acknowledged delivered = omega (arith, handle_failure-total)
  deliver_page-total (some n) true delivered = ground arith
  deliver_page-total (some n) false delivered = omega (arith, handle_failure-total)

pub Step-IsConserved :
    {s t : System} (w : List ℕ → ℕ) → Step s t → IsConserved w s → IsConserved w t
unfolding admit send_page count_nonces finalise close_input begin_page try_close_done
Step-IsConserved w (enter s d' nonces e) h = rw (admit_lem s.dispatcher d' nonces e).1 (omega arith)
Step-IsConserved w (send s xs ys nonces e r) h = ground (
  arith,
  ap (total w) e,
  total-middle w xs ys nonces,
  total-append (by_nonces w) s.dispatcher.nonce_chan (new_page nonces ∷ []),
)
Step-IsConserved w (count s xs ys nonces e) h = h
Step-IsConserved w (withdraw s xs ys nonces e) h =
    ground (arith, ap (total w) e, total-middle w xs ys nonces)
Step-IsConserved w (close s) h = ground arith
Step-IsConserved w (receive s page pages e) h = ground (arith, ap (total (by_nonces w)) e)
Step-IsConserved w (fail_open s xs ys page sent e r) h = omega (
  arith,
  ap (total (by_nonces w)) e,
  total-middle (by_nonces w) xs ys page,
  handle_failure-total s.dispatcher page sent w,
)
Step-IsConserved w (begin s xs ys page e) h =
    ground (arith, ap (total (by_nonces w)) e, total-middle (by_nonces w) xs ys page)
Step-IsConserved w (finish s xs ys page fetched acknowledged sent e r) h = omega (
  arith,
  ap (total (by_nonces w)) e,
  total-middle (by_nonces w) xs ys page,
  deliver_page-total s.dispatcher page sent w fetched acknowledged s.delivered,
)

-- `inflight` counts the pages that are not finalised.
abbrev pub IsCounted : System → Type 0
IsCounted s = s.dispatcher.inflight ≡ pos (in_flight (λ x. 1) s)

-- The buffer's counter, with the sends that are not counted yet, counts the nonces that wait, and those of
-- every page that met a failed OpenStream. It may be negative.
abbrev pub IsBuffered : System → Type 0
IsBuffered s =
    pos_part s.dispatcher.nonce_buffer_count + total length s.uncounted
    ≡ neg_part s.dispatcher.nonce_buffer_count
      + total (by_nonces length) s.dispatcher.nonce_chan
      + total (by_nonces length) s.held
      + total length s.unopened

abbrev pub one : Page → ℕ
one page = 1

abbrev pub size : Page → ℕ
size page = length page.nonces

-- `rest` counts the pages that are neither this one nor in the channel.
handle_failure-inflight :
    (d : Dispatcher) (page : Page) (sent : Bool) (rest : ℕ)
    → d.inflight ≡ pos (1 + rest + total one d.nonce_chan)
    → (handle_failure d page sent).inflight
      ≡ pos (rest + total one (handle_failure d page sent).nonce_chan)
unfolding handle_failure try_close_done ◌-ℤ◌
handle_failure-inflight d page sent rest h =
    ground (arith, total-append one d.nonce_chan (retried page ∷ []))

deliver_page-inflight :
    (d : Dispatcher) (page : Page) (fetched : Option ℕ) (acknowledged sent : Bool) (rest : ℕ)
    → d.inflight ≡ pos (1 + rest + total one d.nonce_chan)
    → (deliver_page d page fetched acknowledged sent).inflight
      ≡ pos (rest + total one (deliver_page d page fetched acknowledged sent).nonce_chan)
unfolding deliver_page try_close_done ◌-ℤ◌
deliver_page-inflight d page none acknowledged sent rest h =
    handle_failure-inflight d page sent rest h
deliver_page-inflight d page (some n) true sent rest h = ground arith
deliver_page-inflight d page (some n) false sent rest h = handle_failure-inflight d page sent rest h

pub Step-IsCounted : {s t : System} → Step s t → IsCounted s → IsCounted t
unfolding send_page count_nonces finalise close_input begin_page try_close_done ◌-ℤ◌ ◌+ℤ◌
Step-IsCounted (enter s d' nonces e) h = rw (admit_lem s.dispatcher d' nonces e).1 (ground arith)
Step-IsCounted (send s xs ys nonces e r) h = ground (
  arith,
  ap (total (λ x. 1)) e,
  total-middle (λ x. 1) xs ys nonces,
  total-append one s.dispatcher.nonce_chan (new_page nonces ∷ []),
)
Step-IsCounted (count s xs ys nonces e) h = h
Step-IsCounted (withdraw s xs ys nonces e) h =
    ground (arith, ap (total (λ x. 1)) e, total-middle (λ x. 1) xs ys nonces)
Step-IsCounted (close s) h = ground arith
Step-IsCounted (receive s page pages e) h = ground (arith, ap (total one) e)
Step-IsCounted (fail_open s xs ys page sent e r) h =
    let rest = total (λ x. 1) s.entering + total one (xs ++ ys) + total one s.working in
    handle_failure-inflight s.dispatcher page sent rest
      (h ∙ ap pos (omega (arith, ap (total one) e, total-middle one xs ys page)))
    ∙ ap pos (omega arith)
Step-IsCounted (begin s xs ys page e) h =
    ground (arith, ap (total one) e, total-middle one xs ys page)
Step-IsCounted (finish s xs ys page fetched acknowledged sent e r) h =
    let rest = total (λ x. 1) s.entering + total one s.held + total one (xs ++ ys) in
    deliver_page-inflight s.dispatcher page fetched acknowledged sent rest
      (h ∙ ap pos (omega (arith, ap (total one) e, total-middle one xs ys page)))
    ∙ ap pos (omega arith)

-- A failure does not touch the counter, and puts a page that is to be counted in the channel.
handle_failure-buffered :
    (d : Dispatcher) (page : Page) (sent : Bool) (uncounted : List (List ℕ))
    → ((handle_failure d page sent).nonce_buffer_count ≡ d.nonce_buffer_count)
      × (total size (handle_failure d page sent).nonce_chan + total length uncounted
          ≡ total size d.nonce_chan + total length (put_back d page sent uncounted))
unfolding handle_failure send_page try_close_done
handle_failure-buffered d page sent uncounted =
    (ground arith, ground (arith, total-append size d.nonce_chan (retried page ∷ [])))

deliver_page-buffered :
    (d : Dispatcher) (page : Page) (fetched : Option ℕ) (acknowledged sent : Bool)
    (uncounted : List (List ℕ))
    → ((deliver_page d page fetched acknowledged sent).nonce_buffer_count ≡ d.nonce_buffer_count)
      × (total size (deliver_page d page fetched acknowledged sent).nonce_chan
            + total length uncounted
          ≡ total size d.nonce_chan
            + total length (returned d page fetched acknowledged sent uncounted))
unfolding deliver_page try_close_done
deliver_page-buffered d page none acknowledged sent uncounted =
    handle_failure-buffered d page sent uncounted
deliver_page-buffered d page (some n) true sent uncounted = (ground arith, ground arith)
deliver_page-buffered d page (some n) false sent uncounted =
    handle_failure-buffered d page sent uncounted

pub Step-IsBuffered : {s t : System} → Step s t → IsBuffered s → IsBuffered t
unfolding send_page count_nonces finalise close_input begin_page try_close_done
Step-IsBuffered (enter s d' nonces e) h = rw (admit_lem s.dispatcher d' nonces e).1 h
Step-IsBuffered (send s xs ys nonces e r) h =
    omega (arith, h, total-append size s.dispatcher.nonce_chan (new_page nonces ∷ []))
Step-IsBuffered (count s xs ys nonces e) h = omega (
  arith,
  h,
  ap (total length) e,
  total-middle length xs ys nonces,
  +ℤ_parts s.dispatcher.nonce_buffer_count (pos (length nonces)),
)
Step-IsBuffered (withdraw s xs ys nonces e) h = ground (arith, h)
Step-IsBuffered (close s) h = ground (arith, h)
Step-IsBuffered (receive s page pages e) h = omega (arith, h, ap (total size) e)
Step-IsBuffered (fail_open s xs ys page sent e r) h =
    let (same, moved) = handle_failure-buffered s.dispatcher page sent s.uncounted in
    omega (
      arith,
      h,
      ap pos_part same,
      ap neg_part same,
      moved,
      ap (total size) e,
      total-middle size xs ys page,
    )
Step-IsBuffered (begin s xs ys page e) h = ground (
  arith,
  h,
  ap (total size) e,
  total-middle size xs ys page,
  -ℤ_parts s.dispatcher.nonce_buffer_count (pos (length page.nonces)),
)
Step-IsBuffered (finish s xs ys page fetched acknowledged sent e r) h =
    let (same, moved) =
      deliver_page-buffered s.dispatcher page fetched acknowledged sent s.uncounted in
    omega (arith, h, ap pos_part same, ap neg_part same, moved)
