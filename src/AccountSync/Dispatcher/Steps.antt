-- ===== src/AccountSync/Dispatcher/Steps.antt =====
-- The goroutines around an AccountDispatcher, as a step relation: producers that call EnqueueNonces, and the
-- workers of Run. Producers call CloseInput after their calls of EnqueueNonces, as the source asks, so that
-- the test for a closed input and the count that follows are one step. A send and the count of its
-- nonces are two steps. A worker picks the pages in the order of the channel.
pub mod Balance
pub mod Closing
use jmdn_fast_sync.Common.{
  ℕ, suc, ◌+◌, ◌<◌, ◌≡◌, Bool, true, false, Option, none, some, List, [], ◌∷◌, ◌++◌, length,
  if◌then◌else◌,
}
use jmdn_fast_sync.Common.Int.{ℤ, pos}
use jmdn_fast_sync.AccountSync.Dispatcher.{
  Page, Dispatcher, Config, Callbacks, admit, send_page, count_nonces, new_page, finalise,
  close_input, begin_page, handle_failure, deliver_page, new_dispatcher, may_retry,
}

-- The dispatcher; the pages that producers have counted and not yet sent; those that a worker has
-- received, and those that it has begun to process; and the nonces of the sends that are not counted yet.
-- The rest is what an observer notes: the pages
-- admitted, withdrawn by a cancelled context and delivered, and those for which no stream was opened.
pub record System : Type 0 where
  pub dispatcher : Dispatcher
  pub entering : List (List ℕ)
  pub held : List Page
  pub working : List Page
  pub uncounted : List (List ℕ)
  pub admitted : List (List ℕ)
  pub withdrawn : List (List ℕ)
  pub delivered : List (List ℕ)
  pub unopened : List (List ℕ)

-- The outcome of `deliver_page`: the page is finalised as delivered, or it has failed.
abbrev pub noted : Option ℕ → Bool → List ℕ → List (List ℕ) → List (List ℕ)
noted none acknowledged nonces delivered = delivered
noted (some accounts) true nonces delivered = nonces ∷ delivered
noted (some accounts) false nonces delivered = delivered

-- The sends to be counted, after a page has failed that is put back if it may be.
abbrev pub put_back : Dispatcher → Page → Bool → List (List ℕ) → List (List ℕ)
put_back d page sent uncounted =
    if may_retry d page then (if sent then page.nonces ∷ uncounted else uncounted) else uncounted

abbrev pub returned : Dispatcher → Page → Option ℕ → Bool → Bool → List (List ℕ) → List (List ℕ)
returned d page none acknowledged sent uncounted = put_back d page sent uncounted
returned d page (some accounts) true sent uncounted = uncounted
returned d page (some accounts) false sent uncounted = put_back d page sent uncounted

abbrev pub Room : Dispatcher → Type 0
Room d = length d.nonce_chan < d.chan_cap

pub data Step : System → System → Type 0 where
  -- EnqueueNonces up to its select.
  enter :
      (s : System) (d' : Dispatcher) (nonces : List ℕ)
      → admit s.dispatcher nonces ≡ some d'
      → Step s (record s {
        dispatcher = d';
        entering = nonces ∷ s.entering;
        admitted = nonces ∷ s.admitted;
      })
  send :
      (s : System) (xs ys : List (List ℕ)) (nonces : List ℕ)
      → s.entering ≡ xs ++ nonces ∷ ys
      → Room s.dispatcher
      → Step s (record s {
        dispatcher = send_page s.dispatcher (new_page nonces);
        entering = xs ++ ys;
        uncounted = nonces ∷ s.uncounted;
      })
  -- The count after a send, of a producer or of a worker that has put a page back.
  count :
      (s : System) (xs ys : List (List ℕ)) (nonces : List ℕ)
      → s.uncounted ≡ xs ++ nonces ∷ ys
      → Step s (record s { dispatcher = count_nonces s.dispatcher nonces; uncounted = xs ++ ys })
  -- The context is cancelled before the page is sent.
  withdraw :
      (s : System) (xs ys : List (List ℕ)) (nonces : List ℕ)
      → s.entering ≡ xs ++ nonces ∷ ys
      → Step s (record s {
        dispatcher = finalise s.dispatcher;
        entering = xs ++ ys;
        withdrawn = nonces ∷ s.withdrawn;
      })
  close : (s : System) → Step s (record s { dispatcher = close_input s.dispatcher })
  -- dispatchWorker: the receive.
  receive :
      (s : System) (page : Page) (pages : List Page)
      → s.dispatcher.nonce_chan ≡ page ∷ pages
      → Step s (record s {
        dispatcher = record s.dispatcher { nonce_chan = pages };
        held = page ∷ s.held;
      })
  -- dispatchWorker: OpenStream returns an error.
  fail_open :
      (s : System) (xs ys : List Page) (page : Page) (sent : Bool)
      → s.held ≡ xs ++ page ∷ ys
      → (sent ≡ true → Room s.dispatcher)
      → Step s (record s {
        dispatcher = handle_failure s.dispatcher page sent;
        held = xs ++ ys;
        unopened = page.nonces ∷ s.unopened;
        uncounted = put_back s.dispatcher page sent s.uncounted;
      })
  begin :
      (s : System) (xs ys : List Page) (page : Page)
      → s.held ≡ xs ++ page ∷ ys
      → Step s (record s {
        dispatcher = (begin_page s.dispatcher page).0;
        held = xs ++ ys;
        working = (begin_page s.dispatcher page).1 ∷ s.working;
      })
  finish :
      (s : System) (xs ys : List Page) (page : Page) (fetched : Option ℕ) (acknowledged sent : Bool)
      → s.working ≡ xs ++ page ∷ ys
      → (sent ≡ true → Room s.dispatcher)
      → Step s (record s {
        dispatcher = deliver_page s.dispatcher page fetched acknowledged sent;
        working = xs ++ ys;
        delivered = noted fetched acknowledged page.nonces s.delivered;
        uncounted = returned s.dispatcher page fetched acknowledged sent s.uncounted;
      })

abbrev pub start : Dispatcher → System
start d = record {
  dispatcher = d;
  entering = [];
  held = [];
  working = [];
  uncounted = [];
  admitted = [];
  withdrawn = [];
  delivered = [];
  unopened = [];
}

pub data Later (s : System) : System → Type 0 where
  here : Later s s
  next : {t u : System} → Later s t → Step t u → Later s u
