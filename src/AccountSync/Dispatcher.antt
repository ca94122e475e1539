-- ===== src/AccountSync/Dispatcher.antt =====
-- AccountDispatcher of core/protocol/router/helper/accounts/dispatcher: what each call does to its fields. A
-- counter of type int64 is an integer, and one of type uint32 or uint64 wraps around. The condition
-- variable, the mutexes, the callbacks that only log and the text of a failure are left out.
pub mod Steps
use jmdn_fast_sync.Common.{
  ℕ, suc, ◌+◌, ◌-◌, ◌*◌, ◌/◌, ◌%◌, ◌^◌, Bool, true, false, ◌&&◌, ◌||◌, Option, none, some, List, [],
  ◌∷◌, ◌++◌, length, ◌==◌, u64_mod, if◌then◌else◌,
}
use jmdn_fast_sync.Common.Int.{ℤ, pos, negsuc, ◌+ℤ◌, ◌-ℤ◌, ltb_ℤ, pos_part}

-- `noncePage`; the index 0 is not assigned yet.
pub record Page : Type 0 where
  pub nonces : List ℕ
  pub retries : ℕ
  pub page_index : ℕ

-- `DeadLetterPage`
pub record DeadLetter : Type 0 where
  pub nonces : List ℕ
  pub retry_count : ℕ

-- `DispatcherConfig`; the timeout is in nanoseconds.
pub record Config : Type 0 where
  pub dispatch_workers : ℤ
  pub pause_threshold : ℤ
  pub resume_pct : ℤ
  pub nonce_page_size : ℤ
  pub max_retries : ℤ
  pub ack_timeout : ℤ

-- Which of the required callbacks are set.
pub record Callbacks : Type 0 where
  pub fetch_accounts : Bool
  pub open_stream : Bool
  pub send_page_on_stream : Bool

pub record Dispatcher : Type 0 where
  pub cfg : Config
  pub nonce_chan : List Page
  pub chan_cap : ℕ
  pub done : Bool
  pub input_closed : Bool
  pub inflight : ℤ
  pub nonce_buffer_count : ℤ
  pub page_sequence : ℕ
  pub delivered_pages : ℕ
  pub delivered_accounts : ℕ
  pub dead_letters : List DeadLetter

abbrev pub num_diff_parents : ℕ
num_diff_parents = 30

abbrev pub u32_mod : ℕ
u32_mod = 2 ^ 32

-- `Default`
abbrev pub default_config : Config
default_config = record {
  dispatch_workers = pos 10;
  pause_threshold = pos 200000;
  resume_pct = pos 80;
  nonce_page_size = pos 3000;
  max_retries = pos 3;
  ack_timeout = pos 10000000000;
}

abbrev not_positive : ℤ → Bool
not_positive z = ltb_ℤ z (pos 1)

-- `validateDispatcherConfig`: whether there is no error.
unfoldable pub validate_dispatcher_config : Config → Callbacks → Bool
validate_dispatcher_config c callbacks =
    if not_positive c.dispatch_workers
    then false
    else (if not_positive c.pause_threshold
        then false
        else (if not_positive c.resume_pct || ltb_ℤ (pos 99) c.resume_pct
            then false
            else (if not_positive c.nonce_page_size
                then false
                else (if ltb_ℤ c.pause_threshold c.nonce_page_size
                    then false
                    else (if ltb_ℤ c.max_retries (pos 0)
                        then false
                        else (if not_positive c.ack_timeout
                            then false
                            else (callbacks.fetch_accounts
                                && (callbacks.open_stream && callbacks.send_page_on_stream))))))))

-- The capacity that `New` computes, for fields that are positive and do not overflow.
unfoldable pub channel_capacity : Config → ℕ
channel_capacity c =
    let size = pos_part c.nonce_page_size in
    let worst_case_nonces = pos_part c.pause_threshold + num_diff_parents * size in
    (worst_case_nonces + size - 1) / size

-- The dispatcher that `New` makes.
abbrev pub empty_dispatcher : Config → Dispatcher
empty_dispatcher c = record {
  cfg = c;
  nonce_chan = [];
  chan_cap = channel_capacity c;
  done = false;
  input_closed = false;
  inflight = pos 0;
  nonce_buffer_count = pos 0;
  page_sequence = 0;
  delivered_pages = 0;
  delivered_accounts = 0;
  dead_letters = [];
}

-- `New`
unfoldable pub new_dispatcher : Config → Callbacks → Option Dispatcher
unfolding validate_dispatcher_config channel_capacity
new_dispatcher c callbacks =
    if validate_dispatcher_config c callbacks then some (empty_dispatcher c) else none

-- The test of `WaitForBatchStart` under which it returns without a cancelled context.
unfoldable pub may_start_batch : Dispatcher → Bool
may_start_batch d = ltb_ℤ d.nonce_buffer_count d.cfg.pause_threshold

abbrev is_zero : ℤ → Bool
is_zero (pos n) = n == 0
is_zero (negsuc n) = false

-- `tryCloseDone`
unfoldable pub try_close_done : Dispatcher → Dispatcher
try_close_done d = if d.input_closed && is_zero d.inflight then record d { done = true } else d

-- A page that is finalised, or withdrawn.
unfoldable pub finalise : Dispatcher → Dispatcher
unfolding try_close_done
finalise d = try_close_done (record d { inflight = d.inflight -ℤ pos 1 })

-- `CloseInput`
unfoldable pub close_input : Dispatcher → Dispatcher
unfolding try_close_done
close_input d = try_close_done (record d { input_closed = true })

-- The first half of `EnqueueNonces`: what is done before the send; `none` for a page that is refused.
unfoldable pub admit : Dispatcher → List ℕ → Option Dispatcher
admit d [] = none
admit d (n ∷ nonces) =
    if d.input_closed then none else some (record d { inflight = d.inflight +ℤ pos 1 })

-- The send on the channel.
unfoldable pub send_page : Dispatcher → Page → Dispatcher
send_page d page = record d { nonce_chan = d.nonce_chan ++ page ∷ [] }

-- The count of the nonces, which follows a send; a worker may receive the page in between.
unfoldable pub count_nonces : Dispatcher → List ℕ → Dispatcher
count_nonces d nonces = record d {
  nonce_buffer_count = d.nonce_buffer_count +ℤ pos (length nonces);
}

abbrev pub new_page : List ℕ → Page
new_page nonces = record { nonces = nonces; retries = 0; page_index = 0 }

-- Steps 1 and 2 of `processPage`: the page has left the buffer and has an index.
unfoldable pub begin_page : Dispatcher → Page → Dispatcher × Page
begin_page d page =
    let d' : Dispatcher = record d {
      nonce_buffer_count = d.nonce_buffer_count -ℤ pos (length page.nonces);
    } in
    let index = (d.page_sequence + 1) % u32_mod in
    if page.page_index == 0
    then (record d' { page_sequence = index }, record page { page_index = index })
    else (d', page)

-- `recordDeadLetter`, with the end of `handleFailure`.
unfoldable pub bury : Dispatcher → Page → Dispatcher
unfolding finalise
bury d page = finalise (record d {
  dead_letters = d.dead_letters ++ record { nonces = page.nonces; retry_count = page.retries } ∷ [];
})

abbrev pub retried : Page → Page
retried page = record page { retries = page.retries + 1 }

abbrev pub may_retry : Dispatcher → Page → Bool
may_retry d page = ltb_ℤ (pos page.retries) d.cfg.max_retries

-- `handleFailure` up to the count that follows its send; `sent` says whether the page could be put back
-- before the context was cancelled.
unfoldable pub handle_failure : Dispatcher → Page → Bool → Dispatcher
unfolding send_page bury
handle_failure d page sent =
    if may_retry d page
    then (if sent then send_page d (retried page) else bury d (retried page))
    else bury d page

-- Step 5 of `processPage`, for a page with this many accounts.
unfoldable pub record_delivery : Dispatcher → ℕ → Dispatcher
unfolding finalise
record_delivery d accounts = finalise (record d {
  delivered_pages = (d.delivered_pages + 1) % u32_mod;
  delivered_accounts = (d.delivered_accounts + accounts) % u64_mod;
})

-- Steps 3 to 6 of `processPage`: `fetched` is the number of accounts, `none` for an error of the database.
unfoldable pub deliver_page : Dispatcher → Page → Option ℕ → Bool → Bool → Dispatcher
unfolding handle_failure record_delivery
deliver_page d page fetched acknowledged sent = elim fetched [
  | none ↦ handle_failure d page sent
  | some accounts ↦ if acknowledged then record_delivery d accounts else handle_failure d page sent
]

-- `DispatchSummary`
pub record Summary : Type 0 where
  pub delivered_pages : ℕ
  pub delivered_accounts : ℕ
  pub permanent_failed_pages : ℕ
  pub permanent_failed_accounts : ℕ
  pub dead_letters : List DeadLetter

unfoldable pub count_dead : ℕ → List DeadLetter → ℕ
count_dead total [] = total
count_dead total (dead ∷ letters) = count_dead ((total + length dead.nonces) % u64_mod) letters

-- What `Run` returns when the workers have ended.
unfoldable pub summarise : Dispatcher → Summary
unfolding count_dead
summarise d = record {
  delivered_pages = d.delivered_pages;
  delivered_accounts = d.delivered_accounts;
  permanent_failed_pages = length d.dead_letters % u32_mod;
  permanent_failed_accounts = count_dead 0 d.dead_letters;
  dead_letters = d.dead_letters;
}
