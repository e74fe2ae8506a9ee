-- ===== src/Journal/Tests.antt =====
-- Runs of the journal, and its theorems at concrete states.
use pmfs.Base.{◌<◌, ◌≡◌, refl, true, false, [], arith}
use pmfs.Journal.{
  JState, Transaction, done, store, max_gen_id, next_log_entry, prev_log_entry, next_gen_id,
  prev_gen_id, hard_init,
}
use pmfs.Journal.Trans.{
  started, eagain, avail_size, transaction, new_transaction, abort_transaction,
}
use pmfs.Journal.Recover.{recover_journal}
use pmfs.Journal.Ring.{IsEntry, prev-next, prev_gen-next_gen}
use pmfs.Journal.Inert.{Inert}
use pmfs.Journal.Reserve.{
  NewInert, counted, emptied, new_transaction-NewInert, new_transaction-eagain,
}
use pmfs.Journal.Lost.{
  JSteps, here, next, write, begin, hard_init-Inert, abort_transaction-Inert, recover_journal-lost,
}

-- a journal before its first use, and one of four entries
abbrev blank : JState
blank = record {
  base = 0;
  head = 0;
  tail = 0;
  gen_id = 0;
  jsize = 0;
  redo_log = false;
  next_transaction_id = 0;
  log = λ le. record {
    addr_offset = 0;
    transaction_id = 0;
    gen_id = 0;
    type = 0;
    size = 0;
    bytes = [];
  };
  mem = λ p. 0;
}

abbrev fresh : JState
fresh = hard_init blank 4096 256

abbrev first : Transaction
first = transaction 0 2 1 0

abbrev taken : JState
taken = record (counted fresh) { tail = 128 }

fresh-Inert : Inert fresh
fresh-Inert = hard_init-Inert blank 4096 256 refl (omega arith) (omega arith)

new_transaction-first : new_transaction 4 true fresh 1 ≡ done (started taken first)
unfolding new_transaction hard_init avail_size
new_transaction-first = refl

taken-Inert : Inert taken
unfolding hard_init
taken-Inert = record {
  head_in = record { whole = refl; small = omega arith; aligned = refl; inside = omega arith };
  tail_in = record { whole = refl; small = omega arith; aligned = refl; inside = omega arith };
  gen_pos = omega arith;
  gen_small = omega arith;
  no_valid = λ le. refl;
  undo_log = refl;
}

last-IsEntry : IsEntry 256 192
last-IsEntry = record { whole = refl; small = omega arith; aligned = refl; inside = omega arith }

prev-next_example :
    IsEntry 256 (next_log_entry 256 192)
    × IsEntry 256 (prev_log_entry 256 192)
    × (prev_log_entry 256 (next_log_entry 256 192) ≡ 192)
    × (next_log_entry 256 (prev_log_entry 256 192) ≡ 192)
prev-next_example = prev-next 256 192 last-IsEntry

prev_gen-next_gen_example :
    (0 < next_gen_id max_gen_id)
    × (next_gen_id max_gen_id < 65536)
    × (0 < prev_gen_id max_gen_id)
    × (prev_gen_id max_gen_id < 65536)
    × (prev_gen_id (next_gen_id max_gen_id) ≡ max_gen_id)
    × (next_gen_id (prev_gen_id max_gen_id) ≡ max_gen_id)
prev_gen-next_gen_example = prev_gen-next_gen max_gen_id (omega arith) (omega arith)

new_transaction-NewInert_example : NewInert fresh 128 (new_transaction 4 true fresh 1)
unfolding hard_init
new_transaction-NewInert_example = new_transaction-NewInert 2 true fresh 1 fresh-Inert (omega arith)

new_transaction-eagain_example :
    new_transaction 4 true taken 1 ≡ done (eagain (emptied (counted taken)))
unfolding hard_init
new_transaction-eagain_example =
    new_transaction-eagain 3 taken 1 taken-Inert (omega arith) (unfold avail_size in omega arith)

abort_transaction-Inert_example : abort_transaction taken first ≡ taken
abort_transaction-Inert_example = abort_transaction-Inert taken first taken-Inert (omega arith)

-- the transaction stores 7 at 5000, and the power fails
abbrev crashed : JState
crashed = record taken { mem = store taken.mem 5000 7 }

crash : JSteps fresh crashed
unfolding hard_init
crash =
    next (next here (begin 2 1 true first (omega arith) new_transaction-first)) (write 5000 7 refl)

recover_journal-lost_example :
    (s'' : JState) × (recover_journal 4 crashed ≡ done s'') × (s''.mem ≡ crashed.mem)
unfolding hard_init
recover_journal-lost_example =
    recover_journal-lost 4 blank 4096 256 refl (omega arith) (omega arith) crash (omega arith)
