-- ===== src/Tests/DispatchRuns.antt =====
-- A session of one page of two nonces, whose first worker cannot open a stream: the page goes back to
-- the channel, is delivered, and the input is closed. The pause threshold is 2.
use jmdn_fast_sync.Common.{
  ℕ, ◌+◌, ◌<◌, ◌≡◌, refl, true, false, some, List, [], ◌∷◌, length, total, arith,
}
use jmdn_fast_sync.Common.Int.{pos, ◌+ℤ◌, ◌-ℤ◌, ◌≤ℤ◌}
use jmdn_fast_sync.AccountSync.Dispatcher.{
  Config, Callbacks, Dispatcher, Page, empty_dispatcher, new_dispatcher, channel_capacity, admit,
  send_page, count_nonces, new_page, begin_page, handle_failure, deliver_page, close_input,
  may_start_batch, summarise, retried, u32_mod,
}
use jmdn_fast_sync.AccountSync.Dispatcher.Steps.{
  System, Later, start, here, next, enter, send, count, put_back, returned, receive, fail_open,
  begin, finish, close,
}
use jmdn_fast_sync.AccountSync.Dispatcher.Steps.Balance.{by_dead}
use jmdn_fast_sync.AccountSync.Dispatcher.Steps.Closing.{
  IsBalanced, sessions-IsBalanced, summarise-IsComplete, may_start_batch-shut, Later-trans,
}

abbrev narrow : Config
narrow = record {
  dispatch_workers = pos 1;
  pause_threshold = pos 2;
  resume_pct = pos 80;
  nonce_page_size = pos 2;
  max_retries = pos 3;
  ack_timeout = pos 1;
}

abbrev callbacks : Callbacks
callbacks = record { fetch_accounts = true; open_stream = true; send_page_on_stream = true }

abbrev nonces : List ℕ
nonces = 1 ∷ 2 ∷ []

abbrev empty : Dispatcher
empty = empty_dispatcher narrow

made : new_dispatcher narrow callbacks ≡ some empty
unfolding new_dispatcher
made = refl

abbrev counted : Dispatcher
counted = record empty { inflight = pos 0 +ℤ pos 1 }

abbrev entered : System
entered = record (start empty) {
  dispatcher = counted;
  entering = nonces ∷ [];
  admitted = nonces ∷ [];
}

abbrev sent : System
sent = record entered {
  dispatcher = send_page counted (new_page nonces);
  entering = [];
  uncounted = nonces ∷ [];
}

abbrev received : System
received = record sent {
  dispatcher = record sent.dispatcher { nonce_chan = [] };
  held = new_page nonces ∷ [];
}

-- The page is received before its send is counted.
abbrev tallied : System
tallied = record received { dispatcher = count_nonces received.dispatcher nonces; uncounted = [] }

abbrev unlucky : System
unlucky = record tallied {
  dispatcher = handle_failure tallied.dispatcher (new_page nonces) true;
  held = [];
  unopened = nonces ∷ [];
  uncounted = put_back tallied.dispatcher (new_page nonces) true [];
}

abbrev failed : System
failed = record unlucky { dispatcher = count_nonces unlucky.dispatcher nonces; uncounted = [] }

abbrev again : Page
again = retried (new_page nonces)

abbrev retaken : System
retaken = record failed {
  dispatcher = record failed.dispatcher { nonce_chan = [] };
  held = again ∷ [];
}

abbrev begun : System
begun = record retaken {
  dispatcher = (begin_page retaken.dispatcher again).0;
  held = [];
  working = (begin_page retaken.dispatcher again).1 ∷ [];
}

abbrev finished : System
finished = record begun {
  dispatcher =
      deliver_page begun.dispatcher (begin_page retaken.dispatcher again).1 (some 2) true false;
  working = [];
  delivered = nonces ∷ [];
  uncounted =
      returned begun.dispatcher (begin_page retaken.dispatcher again).1 (some 2) true false [];
}

abbrev ended : System
ended = record finished { dispatcher = close_input finished.dispatcher }

is_done : ended.dispatcher.done ≡ true
unfolding send_page count_nonces handle_failure begin_page deliver_page close_input ◌+ℤ◌ ◌-ℤ◌
is_done = refl

full :
    failed.dispatcher.cfg.pause_threshold +ℤ pos (total length ended.uncounted)
    ≤ℤ pos (total length failed.unopened)
unfolding send_page count_nonces handle_failure ◌+ℤ◌
full = omega arith

until_failed : Later (start empty) failed
unfolding admit send_page count_nonces handle_failure channel_capacity
until_failed =
    next
      (next
        (next
          (next
            (next (next here (enter (start empty) counted nonces refl))
              (send entered [] [] nonces refl (omega arith)))
            (receive sent (new_page nonces) [] refl))
          (count received [] [] nonces refl))
        (fail_open tallied [] [] (new_page nonces) true refl (λ h. omega arith)))
      (count unlucky [] [] nonces refl)

until_ended : Later failed ended
unfolding channel_capacity send_page count_nonces handle_failure begin_page deliver_page close_input
    ◌+ℤ◌ ◌-ℤ◌
until_ended =
    next
      (next (next (next here (receive failed again [] refl)) (begin retaken [] [] again refl)) (
        finish begun [] [] (begin_page retaken.dispatcher again).1 (some 2) true false refl
          (λ h. cc)))
      (close finished)

from_start : Later (start empty) ended
from_start = Later-trans until_failed until_ended

sessions-IsBalanced_example : IsBalanced failed
sessions-IsBalanced_example = sessions-IsBalanced narrow callbacks empty failed made until_failed

summarise-IsComplete_example :
    ((w : List ℕ → ℕ)
      → total w (nonces ∷ [])
        ≡ total w []
          + total w (nonces ∷ [])
          + total (by_dead w) (summarise ended.dispatcher).dead_letters)
    × (1 < u32_mod
        → (summarise ended.dispatcher).delivered_pages
            + (summarise ended.dispatcher).permanent_failed_pages
            + 0
          ≡ 1)
summarise-IsComplete_example =
    summarise-IsComplete narrow callbacks empty ended made from_start is_done

may_start_batch-shut_example : may_start_batch ended.dispatcher ≡ false
may_start_batch-shut_example =
    may_start_batch-shut narrow callbacks empty failed ended made until_failed until_ended full
